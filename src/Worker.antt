-- ===== src/Worker.antt =====
-- apps/control/src/advance-operation.ts and machine-cleanup.ts: the worker that carries operations out.
pub mod Work
pub mod Complete
pub mod Effects
pub mod Create
pub mod Act
pub mod Cleanup
pub mod Advance
pub mod Frames
pub mod WriteAhead
pub mod Isolation
pub mod Retirement
pub mod Deletions
