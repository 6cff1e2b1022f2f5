-- ===== src/Maker.antt =====
-- The maker's side of a coinjoin: jmclient/maker.py and jmclient/yieldgenerator.py.
pub mod Verify
pub mod Payment
pub mod Orders
