-- ===== src/Message.antt =====
-- c/message.h and c/message.c: the wire messages. `Types` has the table of message types, `Build`
-- the construction of a message in a buffer, `Verify` the check of a received one.
pub mod Types
pub mod Build
pub mod Verify
pub mod Wire
