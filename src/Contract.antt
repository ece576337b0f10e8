-- ===== src/Contract.antt =====
-- The data that manager and worker share (contract/).
pub mod Job
pub mod Task
pub mod Worker
pub mod JsonOrBytes
