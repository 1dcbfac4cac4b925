-- ===== src/Examples.antt =====
-- Runs at concrete inputs.
mod Data
mod Auth
mod Admission
mod Journal
mod Ledger
mod Worker
mod Schedules
mod Simulated
