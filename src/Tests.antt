-- ===== src/Tests.antt =====
-- The operations and their theorems at concrete inputs.
pub mod Shards
pub mod PrefTable
pub mod Text
pub mod Discovery
pub mod Manager
pub mod Requests
pub mod Bootstrap
pub mod Server
pub mod Cli
pub mod Swarm
pub mod Store
pub mod Readers
pub mod Threads
pub mod Wires
pub mod Subs
pub mod Sessions
pub mod Main
