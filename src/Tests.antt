-- ===== src/Tests.antt =====
-- Each theorem at a concrete input, with small instances of the interfaces.
mod Crate
mod Clients
mod Net
mod Bitcoin
mod World
mod Swap
mod Refund
mod Parties
mod Commands
mod Program
mod Import
mod Grin
