-- ===== src/Swap.antt =====
-- src/swap: the slate of a swap, and the protocol that the two parties run.
pub mod Types
pub mod World
pub mod Calls
pub mod Timing
pub mod Verify
pub mod Refund
pub mod Execution
pub mod Locking
pub mod Slate
