-- ===== src/Tests.antt =====
-- Runs of the code on concrete values: those of c/message_test.c among them, and one instance of each
-- theorem that has conditions.
pub mod Messages
pub mod Registrations
pub mod Connections
pub mod Threads
pub mod CommandLine
pub mod Client
pub mod Keyboard
pub mod Session
pub mod Scenario
