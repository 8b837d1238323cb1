-- ===== src/Grin.antt =====
-- src/grin: the Grin node, the transactions, and the protocols of two parties.
pub mod Types
pub mod Node
pub mod Ops
pub mod Crate
pub mod Routines
pub mod Core
pub mod Protocols
pub mod Pedersen
pub mod Instance
