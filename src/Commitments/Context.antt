-- ===== src/Commitments/Context.antt =====
-- modules/commitments/src/context.rs: the condition on the clock under which a proved message holds.
pub mod Validate
pub mod Aggregate
pub mod Codec
use lcp.Base.{
  ℕ, ◌≡◌, true, Bool, not, List, [], ◌∷◌, ◌++◌, Result, ok, err, panic, ◌>>=◌, ◌>>◌, ensure, assert,
  ok_or, map_err, length, take, drop, replicate, if◌then◌else◌, ◌&&◌, ◌↔◌, arith,
}
use lcp.Base.Equality.{PartialEq, ◌==◌, ℕ_PartialEq}
use lcp.Base.Bytes.{Bytes, to_be_bytes, from_be_bytes}
use lcp.Types.Time.{
  Duration, TmTime, as_nanos, add, as_unix_timestamp_nanos, from_unix_timestamp_nanos,
  nanos_to_duration,
}
use lcp.Commitments.Errors.{
  Error, lcp_time, out_of_trusting_period, header_from_future, context_aggregation_failed,
  eth_abi_decode, invalid_validation_context_header,
}
use lcp.Commitments.Abi.{Libs, EthAbiValidationContext}

pub record TrustingPeriodContext (T : Type 0) : Type 0 where
  pub trusting_period : Duration
  pub clock_drift : Duration
  pub untrusted_header_timestamp : T
  pub trusted_state_timestamp : T

pub data ValidationContext (T : Type 0) : Type 0 where
  empty : ValidationContext T
  within : TrustingPeriodContext T → ValidationContext T

-- the derived `PartialEq` of `Duration`
abbrev pub duration_eq : Duration → Duration → Bool
duration_eq a b = a.secs == b.secs && a.subsec_nanos == b.subsec_nanos

pub duration_eq_iff : (a b : Duration) → (duration_eq a b ≡ true) ↔ (a ≡ b)
duration_eq_iff a b = ground arith

instance abbrev pub duration_PartialEq : PartialEq Duration
duration_PartialEq = record { eq = duration_eq; eq_iff = duration_eq_iff }

module _ {T : Type 0} ⦃tm : TmTime T⦄ where
  unfoldable pub ensure_within_trust_period : T → T → Duration → Result (Error T) (Unit {0})
  ensure_within_trust_period now trusted_state_time trusting_period = do
    trusting_period_end ← map_err lcp_time (add trusted_state_time trusting_period)
    ensure (tm.lt now trusting_period_end) (out_of_trusting_period now trusting_period_end)

  unfoldable pub ensure_header_from_past : T → T → Duration → Result (Error T) (Unit {0})
  ensure_header_from_past now untrusted_header_time clock_drift = do
    current ← map_err lcp_time (add now clock_drift)
    ensure (tm.lt untrusted_header_time current) (header_from_future now untrusted_header_time)

  -- `TrustingPeriodContext::validate`
  unfoldable pub validate_within : TrustingPeriodContext T → T → Result (Error T) (Unit {0})
  validate_within ctx current_timestamp = do
    ensure_within_trust_period current_timestamp ctx.trusted_state_timestamp ctx.trusting_period
    ensure_header_from_past current_timestamp ctx.untrusted_header_timestamp ctx.clock_drift

  -- `ValidationContext::validate`
  unfoldable pub validate : ValidationContext T → T → Result (Error T) (Unit {0})
  validate empty current_timestamp = ok tt
  validate (within ctx) current_timestamp = validate_within ctx current_timestamp

  unfoldable pub aggregate :
      ValidationContext T → ValidationContext T → Result (Error T) (ValidationContext T)
  aggregate empty empty = ok empty
  aggregate empty (within ctx) = ok (within ctx)
  aggregate (within ctx) empty = ok (within ctx)
  aggregate (within ctx1) (within ctx2) = do
    ensure (ctx1.trusting_period == ctx2.trusting_period) context_aggregation_failed
    ensure (ctx1.clock_drift == ctx2.clock_drift) context_aggregation_failed
    ok (
        within (record {
          trusting_period = ctx1.trusting_period;
          clock_drift = ctx1.clock_drift;
          untrusted_header_timestamp =
              if tm.lt ctx2.untrusted_header_timestamp ctx1.untrusted_header_timestamp
              then ctx1.untrusted_header_timestamp
              else ctx2.untrusted_header_timestamp;
          trusted_state_timestamp =
              if tm.lt ctx1.trusted_state_timestamp ctx2.trusted_state_timestamp
              then ctx1.trusted_state_timestamp
              else ctx2.trusted_state_timestamp;
        }))

abbrev pub validation_context_type_empty_empty : ℕ
validation_context_type_empty_empty = 0

abbrev pub validation_context_type_empty_within_trusting_period : ℕ
validation_context_type_empty_within_trusting_period = 1

-- The type in the first two bytes of 32, and zeros.
unfoldable pub header : {T : Type 0} → ValidationContext T → Bytes
header empty = to_be_bytes 2 validation_context_type_empty_empty ++ replicate 30 0
header (within ctx) =
    to_be_bytes 2 validation_context_type_empty_within_trusting_period ++ replicate 30 0

unfoldable pub parse_context_type_from_header : {T : Type 0} → Bytes → Result (Error T) ℕ
parse_context_type_from_header header_bytes = do
  ensure (length header_bytes == 32) invalid_validation_context_header
  ok (from_be_bytes (take 2 header_bytes))

module _ {T : Type 0} ⦃tm : TmTime T⦄ (libs : Libs) where
  -- Each time as 16 bytes of nanoseconds, the header's first, and then the two durations.
  unfoldable pub encode_within : TrustingPeriodContext T → Result (Error T) Bytes
  encode_within ctx = do
    untrusted ← as_unix_timestamp_nanos ctx.untrusted_header_timestamp
    trusted ← as_unix_timestamp_nanos ctx.trusted_state_timestamp
    ok (
        libs.trusting_period_context.encode (record {
          timestamps = to_be_bytes 16 untrusted ++ to_be_bytes 16 trusted;
          params =
              to_be_bytes 16 (as_nanos ctx.trusting_period)
              ++ to_be_bytes 16 (as_nanos ctx.clock_drift);
        }))

  unfoldable pub decode_within : Bytes → Result (Error T) (TrustingPeriodContext T)
  decode_within bz = do
    c ← ok_or (libs.trusting_period_context.decode bz) eth_abi_decode
    trusting_period ← map_err lcp_time (nanos_to_duration (from_be_bytes (take 16 c.params)))
    clock_drift ← map_err lcp_time (nanos_to_duration (from_be_bytes (drop 16 c.params)))
    untrusted ← map_err lcp_time (from_unix_timestamp_nanos (from_be_bytes (take 16 c.timestamps)))
    trusted ← map_err lcp_time (from_unix_timestamp_nanos (from_be_bytes (drop 16 c.timestamps)))
    ok (record {
      trusting_period = trusting_period;
      clock_drift = clock_drift;
      untrusted_header_timestamp = untrusted;
      trusted_state_timestamp = trusted;
    })

  unfoldable pub ethabi_encode : ValidationContext T → Result (Error T) Bytes
  ethabi_encode empty = ok (
      libs.validation_context.encode (record { header = header {T = T} empty; context_bytes = [] }))
  ethabi_encode (within ctx) = do
    context_bytes ← encode_within ctx
    ok (
        libs.validation_context.encode
          (record { header = header (within ctx); context_bytes = context_bytes }))

  -- The payload by the type that the header names.
  unfoldable pub decode_payload : ℕ → Bytes → Result (Error T) (ValidationContext T)
  decode_payload type_ context_bytes =
      if type_ == validation_context_type_empty_empty
      then (do assert (length context_bytes == 0); ok empty)
      else if type_ == validation_context_type_empty_within_trusting_period
      then (do ctx ← decode_within context_bytes; ok (within ctx))
      else err invalid_validation_context_header

  unfoldable pub ethabi_decode : Bytes → Result (Error T) (ValidationContext T)
  ethabi_decode bz = do
    c ← ok_or (libs.validation_context.decode bz) eth_abi_decode
    type_ ← parse_context_type_from_header c.header
    decode_payload type_ c.context_bytes
