-- ===== src/Contracts.antt =====
-- packages/contracts/src: the data that the control plane, its database and its providers share.
pub mod Errors
pub mod Policy
pub mod PolicySchema
pub mod Catalog
pub mod Provider
pub mod Lifecycle
