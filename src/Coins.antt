-- ===== src/Coins.antt =====
-- Coin selection: jmclient/support.py.
pub mod Select
pub mod Enough
