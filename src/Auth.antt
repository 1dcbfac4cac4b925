-- ===== src/Auth.antt =====
-- apps/control/src/auth.ts: credentials, their delegation tree, and what a credential may do.
pub mod Authority
pub mod Policy
pub mod Grants
pub mod Chain
pub mod Delegation
pub mod Issue
pub mod Revoke
