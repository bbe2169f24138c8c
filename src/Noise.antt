-- ===== src/Noise.antt =====
-- protocol/boringtun/src/noise: the WireGuard protocol of one tunnel.
pub mod Errors
pub mod Window
pub mod Packet
pub mod Crypto
pub mod Session
pub mod Handshake
pub mod RateLimiter
pub mod Timers
pub mod Tunn
