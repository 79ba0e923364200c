-- ===== src/Agent.antt =====
-- The agent's program and its packages, agent/.
pub mod Exec
pub mod Runtime
pub mod DockerClient
pub mod Docker
pub mod Containerd
pub mod Reconcile
pub mod Config
pub mod Commands
pub mod Start
pub mod Main
