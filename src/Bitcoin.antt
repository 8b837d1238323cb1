-- ===== src/Bitcoin.antt =====
-- src/bitcoin: the node's JSON-RPC interface, and the transactions of the swap.
pub mod Crate
pub mod Amount
pub mod Responses
pub mod Types
pub mod Core
pub mod Routines
pub mod Script
pub mod Signing
