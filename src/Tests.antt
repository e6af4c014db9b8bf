-- ===== src/Tests.antt =====
-- Runs of the definitions at concrete inputs, and instances of the theorems.
pub mod Sessions
pub mod Services
pub mod Messages
mod Packets
pub mod Accepting
mod Receiving
pub mod Segments
pub mod Contexts
mod Rounds
pub mod Http
mod Sockets
mod Pages
