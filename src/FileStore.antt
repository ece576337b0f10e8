-- ===== src/FileStore.antt =====
-- The file store (manager/store/fsstore.go, fsstore_journal.go, fsstore_snapshot.go): a memory store
-- whose changes go to a journal, which a background writer writes and compacts to a snapshot.
pub mod Entries
pub mod State
pub mod Operations
pub mod Logs
pub mod Writer
pub mod Views
pub mod Values
pub mod Loading
pub mod Changes
pub mod Replay
pub mod Recovery
pub mod Turns
pub mod Preserving
pub mod Requests
pub mod Reopening
pub mod Closing
pub mod Draining
pub mod Faults
pub mod Samples
mod Tests
