-- ===== src/Tests.antt =====
-- Runs of the model at concrete inputs.
pub mod Scenario
mod Release
mod Passes
mod Owner
mod Logins
mod Ceremonies
mod Deliveries
mod Limits
mod Bodies
mod Writing
mod Invites
mod Entries
