-- ===== src/Store.antt =====
-- packages/db/src/schema.ts: the tables of the control plane that admission and the worker use, and
-- the ways in which handlers reach them. A row has the columns that the modelled code reads or writes.
pub mod Rows
pub mod Action
pub use Rows.*
