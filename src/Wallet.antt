-- ===== src/Wallet.antt =====
-- The wallet: jmclient/wallet.py.
pub mod Utxos
pub mod Balance
