-- ===== src/Payment.antt =====
-- protocol/boringtun/src/payment: pay-per-use on top of the tunnel.
pub mod Quota
pub mod Protocol
pub mod Config
pub mod Wallet
pub mod Authorization
pub mod Settlement
pub mod Transaction
pub mod Rpc
pub mod Deposit
