-- ===== src/Offers.antt =====
-- Offers of makers, their fees, and the taker's choice among them: jmclient/support.py.
pub mod State
pub mod Fees
pub mod Exclusions
pub mod Choose
pub mod Suitable
pub mod Outcome
pub mod Liquidity
