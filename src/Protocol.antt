-- ===== src/Protocol.antt =====
-- How a message is read from its line (contract/proto_message.go): the flags, the numbers in them,
-- and the factories.
pub mod Numbers
pub mod Flags
pub mod Factories
pub mod Unstarted
mod Tests
