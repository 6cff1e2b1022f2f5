-- ===== src/Podle.antt =====
-- The proofs of discrete logarithm equivalence, and their store: jmclient/podle.py.
pub mod State
pub mod Commitments
pub mod Fresh
pub mod History
