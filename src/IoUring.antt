-- ===== src/IoUring.antt =====
-- src/io_uring.rs, the ring driver.
pub mod Config
pub mod Gate
pub mod Data
pub mod Submission
pub mod Dispatch
pub mod Cancel
pub mod Submit
pub mod Admit
pub mod Delivery
pub mod Owned
pub mod Shutdown
pub mod Entries
pub mod Pass
pub mod Ledger
pub mod Turns
pub mod Lifetime
