-- ===== src/Refresh.antt =====
-- The file-backed state of paced orderbook refreshes: `RefreshStateStore` of
-- jmdaemon/orderbookwatch.py.
pub mod State
pub mod Updates
pub mod Selection
pub mod Rows
pub mod Choice
pub mod Invariant
pub mod Pacing
pub mod Missing
