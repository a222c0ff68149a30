-- ===== src/Examples.antt =====
-- Tests: the theorems at concrete inputs.
pub mod Configs
pub mod Stores
pub mod Backups
pub mod Requests
pub mod Edits
pub mod Starts
pub mod Agents
pub mod Devices
pub mod Tables
pub mod Transport
pub mod Texts
