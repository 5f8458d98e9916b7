-- ===== src/Keyboard.antt =====
-- c/client_keyboard.c: the interactive client. `Run` is what its functions run in, `Manager` the
-- side of the manager, `Streamer` that of a broadcaster, `Multicast` the thread that shows the
-- multicast, and `Main` the command line and the loop of `main`. `Session` is about the program as a
-- whole.
pub mod Run
pub mod Manager
pub mod Streamer
pub mod Multicast
pub mod Main
pub mod Steps
pub mod Listing
pub mod Served
pub mod Typed
pub mod Posts
pub mod Posted
pub mod Asked
pub mod Arguments
pub mod Prompt
pub mod Leave
pub mod Session
