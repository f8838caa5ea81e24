-- ===== src/Discovery.antt =====
-- pkg/discovery: the identity and the description of a node, and the resolvers that find nodes.
pub mod Identity
pub mod NodeInfo
pub mod Events
pub mod Services
pub mod Wire
pub mod Static
pub mod Mdns
