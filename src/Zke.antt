-- ===== src/Zke.antt =====
-- pkg/zke: the clusters that the platform sets up, their state machine and their manager.
pub mod Fsm
pub mod Store
pub mod Cluster
pub mod Manager
pub mod Validation
pub mod Config
pub mod Setup
mod Examples
