-- ===== src/Examples.antt =====
-- The theorems at concrete inputs, and tests of the definitions.
mod Crypto
mod Window
mod Session
mod Quota
mod Packet
mod Handshake
mod Tunn
mod Payment
mod Crates
mod Device
mod Served
mod Transaction
mod Deposit
mod Api
mod Rpc
