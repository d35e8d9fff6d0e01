-- ===== src/Tests.antt =====
-- Runs of the program's parts on concrete inputs.
pub mod Data
pub mod Keys
pub mod Cache
pub mod Workspace
pub mod Queries
pub mod Server
pub mod Headers
pub mod Daemons
pub mod Sessions
pub mod Settings
pub mod Tools
pub mod Engines
pub mod Trees
