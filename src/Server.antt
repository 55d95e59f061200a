-- ===== src/Server.antt =====
-- The server of src/kcpev.c: its state with the objects of its clients, its packet handler, its
-- timers and its socket callbacks.
pub mod State
pub mod Callbacks
pub mod Recv
pub mod Packets
pub mod Heap
pub mod Table
pub mod Accept
pub mod Invariant
pub mod Beat
pub mod Steps
pub mod Run
pub mod Release
pub mod Status
pub mod Machine
pub mod Shake
pub mod Again
pub mod Wired
mod Tests
mod PeerTests
