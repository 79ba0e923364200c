-- ===== src/Server.antt =====
-- The server's program and its packages, server/.
pub mod Config
pub mod App
pub mod Cluster
pub mod ClusterStore
pub mod NodeStore
pub mod Node
pub mod Gateway
pub mod Main
pub mod Cli
