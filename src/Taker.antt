-- ===== src/Taker.antt =====
-- `Taker` of jmclient/taker.py: one coinjoin of a taker, from the makers' coins to the signatures.
pub mod State
pub mod Ioauth
pub mod Build
pub mod Balance
pub mod Verified
pub mod Fee
pub mod Contains
pub mod Agreement
pub mod Schedule
pub mod Attempts
pub mod Signatures
pub mod Complete
