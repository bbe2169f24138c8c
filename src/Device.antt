-- ===== src/Device.antt =====
-- protocol/boringtun/src/device: the peers of an interface, their routes, and what the device does
-- with packets and with signals of payment.
pub mod IndexLfsr
pub mod AllowedIps
pub mod Peer
pub mod State
pub mod Payments
pub mod Table
pub mod Gate
pub mod Inbound
pub mod Outbound
pub mod Traffic
pub mod Keys
pub mod Setup
pub mod Lines
pub mod Api
pub mod Ticks
