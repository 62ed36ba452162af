-- ===== src/BoardPlan.antt =====
-- The board plan: engine/network-engine/src/board_plan and the cycle commission calculator.
pub mod Board
pub mod Config
pub mod Engine
mod Examples
