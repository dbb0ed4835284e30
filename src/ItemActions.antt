-- ===== src/ItemActions.antt =====
-- The operator's actions on an item (apps/engine/src/core/itemActions.ts).
pub mod Matrix
pub mod Visible
pub mod Readiness
pub mod Types
pub mod Service
pub mod Effects
pub mod Moves
mod Tests
