-- ===== src/Manager.antt =====
-- The manager's side (manager/).
pub mod Artifact
pub mod Config
pub mod Messages
pub mod Queue
pub mod Lifecycle
pub mod Demand
pub mod Dispatcher
pub mod Retry
pub mod Server
pub mod Samples
pub mod Handlers
pub mod WorkerConn
pub mod WorkerPool
