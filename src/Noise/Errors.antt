-- ===== src/Noise/Errors.antt =====
-- noise/errors.rs, and the result of a fallible call.
pub data WireGuardError : Type 0 where
  destination_buffer_too_small incorrect_packet_length unexpected_packet : WireGuardError
  wrong_packet_type wrong_index wrong_key invalid_tai64n_timestamp : WireGuardError
  wrong_tai64n_timestamp invalid_mac invalid_aead_tag invalid_counter : WireGuardError
  duplicate_counter invalid_packet no_current_session lock_failed : WireGuardError
  connection_expired under_load : WireGuardError

pub data Result {ℓ} (A : Type ℓ) : Type ℓ where
  ok : A → Result A
  err : WireGuardError → Result A
