-- ===== src/Tests.antt =====
-- Concrete runs of the model, with the theorems applied to them.
mod Wire
mod Peers
mod Registry
mod Sharing
mod Orchestration
mod Reconciling
mod Starting
mod Configuring
mod ContainerdHost
mod DockerHost
mod DockerRuns
mod Cluster
mod Gateways
mod Pinging
mod Codec
mod Programs
