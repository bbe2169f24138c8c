-- ===== src/Noise/Handshake.antt =====
-- noise/handshake.rs: the Noise_IKpsk2 handshake of one tunnel. Random keys, the clock and the
-- timestamp of a call are arguments of the model's functions; `none` is a panic.
pub mod State
pub mod Chain
pub mod Initiation
pub mod Response
pub mod Opening
pub mod Messages
pub mod Agreement
