-- ===== src/Net.antt =====
-- src/net.rs: sockets of numeric addresses. `Addresses` has the candidates and the loops over them, `Accept`
-- the listener, `Streams` the owned sends and receives, `Ready` the borrowed ones; the others are about
-- the loops of the exact operations.
pub mod Addresses
pub mod Accept
pub mod Streams
pub mod Receives
pub mod Sends
pub mod Transfers
pub mod Ready
mod Tests
