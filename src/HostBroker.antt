-- ===== src/HostBroker.antt =====
-- pkg/hostbroker: the broker that tells the programs of a host about the nodes.
pub mod NodeWatch
