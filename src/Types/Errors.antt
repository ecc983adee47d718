-- ===== src/Types/Errors.antt =====
-- modules/types/src/errors.rs: the variants that the modelled code returns. A message text is left
-- out; what a variant carries of the data stays.
use lcp.Base.{ℕ}
use lcp.Base.Bytes.{Bytes}

pub data TypeError : Type 0 where
  height_conversion : Bytes → TypeError
  invalid_height_result : TypeError
  client_id_contain_separator : Bytes → TypeError
  client_id_invalid_length : Bytes → ℕ → ℕ → ℕ → TypeError
  client_id_invalid_character : Bytes → TypeError
  client_id_empty : TypeError
  proto_error : TypeError

pub data TimeError : Type 0 where
  tendermint : TimeError
  try_from_int_error : TimeError
