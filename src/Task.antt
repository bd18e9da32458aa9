-- ===== src/Task.antt =====
-- src/task.rs: spawned tasks. `Gate` is the scheduling gate of one task, `Join` the result cell and
-- `Run` the callbacks of nOS-V. `Protocol` is about wakes, aborts and the descriptor under any
-- interleaving, `Signals` and `Turns` about one call of the run callback, `Joining` about the result.
pub mod Gate
pub mod Spawn
pub mod Protocol
pub mod Join
pub mod Run
pub mod Signals
pub mod Turns
pub mod Joining
mod Tests
