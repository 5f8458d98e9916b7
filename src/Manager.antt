-- ===== src/Manager.antt =====
-- c/manager.c: the manager, which keeps a register of broadcasters and answers clients. `Register` is
-- the shared array and its critical sections, `Monitor` the watch over one broadcaster, `Handlers`
-- what a thread does with the first message of a connection.
pub mod Register
pub mod Monitor
pub mod Handlers
pub mod System
pub mod Options
pub mod Start
