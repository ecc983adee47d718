-- ===== src/Commitments/Errors.antt =====
-- modules/commitments/src/errors.rs: the variants that the modelled code returns.
use lcp.Base.{ℕ}
use lcp.Types.Errors.{TypeError, TimeError}
use lcp.Crypto.{CryptoError}

pub data Error (T : Type 0) : Type 0 where
  string_from_utf8 : Error T
  eth_abi_decode : Error T
  invalid_abi : Error T
  invalid_state_id_length : ℕ → Error T
  unexpected_message_type : ℕ → ℕ → Error T
  invalid_message_header : Error T
  invalid_validation_context_header : Error T
  out_of_trusting_period : T → T → Error T
  header_from_future : T → T → Error T
  message_aggregation_failed : Error T
  context_aggregation_failed : Error T
  empty_path : Error T
  zero_height : Error T
  zero_state_id : Error T
  invalid_prev_state_and_height : Error T
  empty_prev_states : Error T
  proto_decode_error : Error T
  lcp_type : TypeError → Error T
  lcp_time : TimeError → Error T
  crypto : CryptoError → Error T
