-- ===== src/LcpClient/ConsensusState/RoundTrip.antt =====
-- The protobuf form of a consensus state keeps the identifier and the whole seconds of the time.
use lcp.Base.{ℕ, ◌/◌, ◌*◌, ◌^◌, ◌≡◌, true, ltb, refl, ok, arith}
use lcp.Base.Equality.{==_refl, ℕ_PartialEq}
use lcp.Base.Bytes.{bytes_PartialEq}
use lcp.Base.Codec.{Codec}
use lcp.Base.Utf8.{is_utf8}
use lcp.Types.Any.{Any, IsAny}
use lcp.Types.Time.{TmTime, Nanos, nanos_per_sec}
use lcp.Types.Time.Nanos as Times
use lcp.Commitments.StateId.{IsStateId}
use lcp.LcpClient.Errors.{Error}
use lcp.LcpClient.ConsensusState.{
  ConsensusState, RawConsensusState, IsRawConsensusState, to_raw, from_raw, to_any, try_from,
  lcp_consensus_state_type_url,
}

type_url-utf8 : is_utf8 lcp_consensus_state_type_url ≡ true
unfolding is_utf8
type_url-utf8 = refl

module _ {T : Type 0} ⦃tm : TmTime T⦄ (prost : Codec IsRawConsensusState) where
  -- A consensus state with a time from the epoch on has an `Any`, from which the same identifier is
  -- read back, and the time rounded down to the second.
  pub try_from-to_any_secs :
      (c : ConsensusState T) {n : ℕ}
      → IsStateId c.state_id
      → Nanos tm.ops c.timestamp n
      → (a : Any) × (to_any prost c ≡ ok a)
        × IsAny a
        × ((t : T) × (try_from prost a ≡ ok (record { state_id = c.state_id; timestamp = t }))
            × Nanos tm.ops t (n / nanos_per_sec * nanos_per_sec))
  unfolding try_from to_any to_raw from_raw
  try_from-to_any_secs c {n} id time =
      let top = tm.nanos_in_range c.timestamp n time in
      let secs = Times.as_unix_timestamp_secs-Nanos {E = Error T} c.timestamp n time in
      let raw : RawConsensusState = record {
        state_id = c.state_id;
        timestamp = n / nanos_per_sec;
      } in
      let (t, read, nanos) =
        Times.from_nanos_in_range (n / nanos_per_sec * nanos_per_sec) (omega arith) in
      let back = prost.decode-encode raw (id.1, omega arith) in
      let small : ltb (n / nanos_per_sec * nanos_per_sec) (2 ^ 128) ≡ true = ground arith in
      (
        record { type_url = lcp_consensus_state_type_url; value = prost.encode raw },
        rw secs refl,
        (omega arith, prost.encode-IsBytes raw (id.1, omega arith), type_url-utf8),
        (t, rw (==_refl lcp_consensus_state_type_url, back, id.0, small, read) refl, nanos),
      )
