-- ===== src/Fs.antt =====
-- src/fs.rs: positional file operations with owned buffers. `Open` has the open options, `Works` what one
-- operation asks of the kernel and makes of its answer, `Files` the operations of a file; the others are
-- about the loops of the exact operations.
pub mod Open
pub mod Works
pub mod Files
pub mod Bounds
pub mod Reads
pub mod Writes
mod Tests
