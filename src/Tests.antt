-- ===== src/Tests.antt =====
-- Runs of the modelled functions on concrete inputs.
pub mod Frames
pub mod Members
pub mod Presence
pub mod Executions
pub mod Documents
pub mod Rooms
pub mod Requests
pub mod Accounts
pub mod Relay
