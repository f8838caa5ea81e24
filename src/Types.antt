-- ===== src/Types.antt =====
-- pkg/types: what the SDK asks of the protobuf messages, and the rules on requests and responses.
pub mod Proto
pub mod Assembly
pub mod Names
pub mod Tensor
pub mod Floats
pub mod Requests
pub mod Builder
pub mod Task
pub mod Parsers
