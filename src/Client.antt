-- ===== src/Client.antt =====
-- pkg/client: the pool of connections, its resolver and balancer, and the client.
pub mod Pool
pub mod Balancer
pub mod Chunker
pub mod Resolver
pub mod Infer
pub mod New
pub mod Contracts
