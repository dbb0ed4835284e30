-- ===== src/RunStore.antt =====
-- The `runs` and `items` tables and the operations on them
-- (apps/engine/src/db/repositories/types.ts and repos.ts). A table is a list of rows, and an
-- `UPDATE … WHERE id = ?` rewrites each row with that id. A timestamp that the source reads from the
-- clock is an argument.
pub mod Rows
pub mod Updates
pub mod Queries
pub mod Laws
pub mod Items
pub mod Samples
pub mod Journal
