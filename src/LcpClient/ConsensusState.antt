-- ===== src/LcpClient/ConsensusState.antt =====
-- modules/lcp-client/src/consensus_state.rs. The protobuf encoding of the raw state is prost's.
pub mod RoundTrip
use lcp.Base.{
  ℕ, ◌≡◌, ◌*◌, ◌<◌, ◌^◌, Bool, false, Result, ok, err, panic, ◌>>=◌, expect, map_err, length, ltb,
  if◌then◌else◌,
}
use lcp.Base.Equality.{◌==◌, ℕ_PartialEq}
use lcp.Base.Bytes.{Bytes, IsBytes, codes, bytes_PartialEq}
use lcp.Base.Codec.{Codec}
use lcp.Types.Any.{Any}
use lcp.Types.Time.{
  TmTime, as_unix_timestamp_secs, as_unix_timestamp_nanos, from_unix_timestamp_nanos, nanos_per_sec,
}
use lcp.Commitments.StateId.{StateId, default_state_id, state_id_size}
use lcp.LcpClient.Errors.{Error, time, unexpected_client_type}

abbrev pub lcp_consensus_state_type_url : Bytes
lcp_consensus_state_type_url = codes "/ibc.lightclients.lcp.v1.ConsensusState"

pub record ConsensusState (T : Type 0) : Type 0 where
  pub state_id : StateId
  pub timestamp : T

pub record RawConsensusState : Type 0 where
  pub state_id : Bytes
  pub timestamp : ℕ

-- The Rust types of the fields.
abbrev pub IsRawConsensusState : RawConsensusState → Type 0
IsRawConsensusState r = IsBytes r.state_id × (r.timestamp < 2 ^ 64)

module _ {T : Type 0} ⦃tm : TmTime T⦄ where
  unfoldable pub is_empty : ConsensusState T → Result (Error T) Bool
  is_empty self =
      if self.state_id == default_state_id
      then (do n ← as_unix_timestamp_nanos self.timestamp; ok (n == 0))
      else ok false

  unfoldable pub to_raw : ConsensusState T → Result (Error T) RawConsensusState
  to_raw value = do
    secs ← as_unix_timestamp_secs value.timestamp
    ok (record { state_id = value.state_id; timestamp = secs })

  -- A `u128` holds the product of a `u64` and 10^9, so the multiplication never overflows.
  unfoldable pub from_raw : RawConsensusState → Result (Error T) (ConsensusState T)
  from_raw raw = do
    state_id ← if length raw.state_id == state_id_size then ok raw.state_id else panic
    nanos ←
        if ltb (raw.timestamp * nanos_per_sec) (2 ^ 128)
        then ok (raw.timestamp * nanos_per_sec)
        else panic
    timestamp ← map_err time (from_unix_timestamp_nanos nanos)
    ok (record { state_id = state_id; timestamp = timestamp })

  module _ (prost : Codec IsRawConsensusState) where
    unfoldable pub to_any : ConsensusState T → Result (Error T) Any
    to_any value = do
      raw ← to_raw value
      ok (record { type_url = lcp_consensus_state_type_url; value = prost.encode raw })

    unfoldable pub try_from : Any → Result (Error T) (ConsensusState T)
    try_from raw =
        if raw.type_url == lcp_consensus_state_type_url
        then (do value ← expect (prost.decode raw.value); from_raw value)
        else err (unexpected_client_type raw.type_url)
