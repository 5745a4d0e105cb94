-- ===== src/Server.antt =====
-- rpcserver.go: what the RPC server does with each request. Requests are the arguments; tracing,
-- logging and the pauses between calls are left out.
pub mod Preferences
pub mod Collations
pub mod Hosts
pub mod Loops
pub mod Laws
pub mod Leaving
pub mod Calm
pub mod Broadcasts
pub mod Receiving
pub mod Search
pub mod Service
