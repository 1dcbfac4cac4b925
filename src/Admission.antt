-- ===== src/Admission.antt =====
-- apps/control/src/lifecycle.ts and cleanup-admission.ts: how a request becomes an operation.
pub mod Command
pub mod Reservation
pub mod Request
pub mod Cleanup
pub mod Admit
pub mod Budget
pub mod Limits
pub mod Replay
pub mod Exclusive
