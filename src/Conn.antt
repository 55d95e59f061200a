-- ===== src/Conn.antt =====
-- The data of src/kcpev.h and the world that a function of src/kcpev.c runs in: one connection and
-- the calls made so far to the outside (sockets, libev, kcp, the user's callback).
mod Types
mod Outside
mod Monad
pub mod Keeps
pub mod Sample
pub mod Triples
pub use Types.*
pub use Outside.*
pub use Monad.*
