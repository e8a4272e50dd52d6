-- ===== src/Research.antt =====
-- The research code: cross-validation, costs and fills, the backtests of the strategies, the risk of
-- ruin, and the screens that decide what is worth a paper book.
pub mod Folds
pub mod Episodes
pub mod Trend
pub mod Metrics
pub mod Momentum
pub mod Fills
pub mod Screen
pub mod Breakdown
