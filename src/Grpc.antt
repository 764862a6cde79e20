-- ===== src/Grpc.antt =====
-- plugins/grpc: the handlers that a gRPC client and a gRPC server call while they process a request.
pub mod Context
pub mod Method
pub mod Process
pub mod Client
pub mod Server
pub mod Tagging
pub mod Life
pub mod Propagation
pub mod Composite
pub mod Defaults
pub mod Examples
