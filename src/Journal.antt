-- ===== src/Journal.antt =====
-- apps/control/src/resource-journal.ts and effect-journal.ts: what is owned at the provider, and every
-- effect that was asked for.
pub mod Resources
pub mod Prepare
pub mod Submit
pub mod Evaluate
pub mod Resolve
pub mod WriteAhead
pub mod Evidence
pub mod Authorized
pub mod Settled
pub mod Claims
pub mod Numbered
pub mod Writes
