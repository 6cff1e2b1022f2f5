-- ===== src/Orderbook.antt =====
-- The book of offers and fidelity bonds: `OrderbookWatch` of jmdaemon/orderbookwatch.py.
pub mod State
pub mod Peers
pub mod Sources
pub mod Prune
pub mod Events
pub mod Visible
pub mod Invariant
pub mod History
pub mod Steps
pub mod Bounds
pub mod Cache
pub mod CacheSteps
pub mod Exact
pub mod Announce
pub mod Leave
