-- ===== src/Penalty.antt =====
-- The taker's record of misbehaving makers: `MakerPenaltyStore` of jmclient/maker_penalty_store.py.
pub mod State
pub mod Queries
pub mod Updates
pub mod Lookup
pub mod Invariant
pub mod Cooldowns
pub mod Bans
