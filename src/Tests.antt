-- ===== src/Tests.antt =====
-- Runs of the models at concrete inputs, and the theorems at inputs that meet their hypotheses.
mod Penalties
mod Refreshes
mod Payments
mod Channels
mod Coins
mod Choices
mod Wallets
mod Orders
mod Orderbooks
mod Messages
mod Takers
mod Podles
