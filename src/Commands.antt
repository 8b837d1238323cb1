-- ===== src/Commands.antt =====
-- src/commands: what the user asks for.
pub mod Init
pub mod Connect
pub mod Parser
pub mod Listen
pub mod Import
pub mod Arguments
pub mod Program
