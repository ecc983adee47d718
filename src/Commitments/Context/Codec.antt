-- ===== src/Commitments/Context/Codec.antt =====
-- The ABI round trip of a validation context (modules/commitments/src/context.rs).
use lcp.Base.{
  ℕ, ◌^◌, ◌<◌, ◌≡◌, refl, [], ◌++◌, ok, take, drop, All-append, length-append, take-append_length,
  drop-append_length, arith,
}
use lcp.Base.Bytes.{
  Bytes, IsBytes, IsArray, to_be_bytes, from_be_bytes, to_be_bytes-IsArray, length-to_be_bytes,
  from_be_bytes-to_be_bytes,
}
use lcp.Types.Time.{Duration, IsDuration, as_nanos, TmTime, Nanos}
use lcp.Types.Time.Nanos.{
  nanos_to_duration-as_nanos, from_unix_timestamp_nanos-Nanos, as_unix_timestamp_nanos-Nanos,
}
use lcp.Commitments.Abi.{
  Libs, EthAbiValidationContext, IsEthAbiValidationContext, EthAbiTrustingPeriodContext,
  IsEthAbiTrustingPeriodContext,
}
use lcp.Commitments.Context.{
  TrustingPeriodContext, ValidationContext, empty, within, header, parse_context_type_from_header,
  encode_within, decode_within, decode_payload, ethabi_encode, ethabi_decode,
}

-- Two parts of 16 bytes are read back from the 32 that they make.
pub take_be :
    (n m : ℕ) → n < 2 ^ 128 → from_be_bytes (take 16 (to_be_bytes 16 n ++ to_be_bytes 16 m)) ≡ n
take_be n m h =
    rw (take-append_length 16 (to_be_bytes 16 n) (to_be_bytes 16 m) (length-to_be_bytes 16 n))
      (from_be_bytes-to_be_bytes 16 n h)

pub drop_be :
    (n m : ℕ) → m < 2 ^ 128 → from_be_bytes (drop 16 (to_be_bytes 16 n ++ to_be_bytes 16 m)) ≡ m
drop_be n m h =
    rw (drop-append_length 16 (to_be_bytes 16 n) (to_be_bytes 16 m) (length-to_be_bytes 16 n))
      (from_be_bytes-to_be_bytes 16 m h)

pair-IsArray : (n m : ℕ) → IsArray 32 (to_be_bytes 16 n ++ to_be_bytes 16 m)
pair-IsArray n m = (
  omega (
    arith,
    length-append (to_be_bytes 16 n) (to_be_bytes 16 m),
    length-to_be_bytes 16 n,
    length-to_be_bytes 16 m,
  ),
  All-append (λ b. b < 256) (to_be_bytes 16 n) (to_be_bytes 16 m) (to_be_bytes-IsArray 16 n).1
      (to_be_bytes-IsArray 16 m).1,
)

pub header-IsArray : {T : Type 0} (ctx : ValidationContext T) → IsArray 32 (header ctx)
unfolding header to_be_bytes
header-IsArray empty = omega arith
header-IsArray (within ctx) = omega arith

pub parse-header_empty :
    {T : Type 0} → parse_context_type_from_header {T = T} (header {T = T} empty) ≡ ok 0
unfolding header to_be_bytes parse_context_type_from_header from_be_bytes
parse-header_empty = refl

pub parse-header_within :
    {T : Type 0} (ctx : TrustingPeriodContext T)
    → parse_context_type_from_header {T = T} (header (within ctx)) ≡ ok 1
unfolding header to_be_bytes parse_context_type_from_header from_be_bytes
parse-header_within ctx = refl

params_in_range : (d : Duration) → IsDuration d → as_nanos d < 2 ^ 128
params_in_range d v = omega arith

module _ {T : Type 0} ⦃tm : TmTime T⦄ where
  -- A context with durations of the standard library and times from the epoch on.
  pub record IsValidWithin (ctx : TrustingPeriodContext T) : Type 0 where
    pub trusting_period : IsDuration ctx.trusting_period
    pub clock_drift : IsDuration ctx.clock_drift
    pub untrusted : ℕ
    pub trusted : ℕ
    pub untrusted_at : Nanos tm.ops ctx.untrusted_header_timestamp untrusted
    pub trusted_at : Nanos tm.ops ctx.trusted_state_timestamp trusted

  abbrev pub IsValid : ValidationContext T → Type 0
  IsValid empty = Unit
  IsValid (within ctx) = IsValidWithin ctx

  module _ (libs : Libs) where
    within_round_trip :
        (ctx : TrustingPeriodContext T)
        → IsValidWithin ctx
        → (bz : Bytes) × (encode_within libs ctx ≡ ok bz)
          × IsBytes bz
          × (decode_within libs bz ≡ ok ctx)
    unfolding encode_within decode_within
    within_round_trip ctx v =
        let untrusted = v.untrusted in
        let trusted = v.trusted in
        let period = as_nanos ctx.trusting_period in
        let drift = as_nanos ctx.clock_drift in
        let c : EthAbiTrustingPeriodContext = record {
          timestamps = to_be_bytes 16 untrusted ++ to_be_bytes 16 trusted;
          params = to_be_bytes 16 period ++ to_be_bytes 16 drift;
        } in
        let valid : IsEthAbiTrustingPeriodContext c =
          (pair-IsArray untrusted trusted, pair-IsArray period drift) in
        let hu = tm.nanos_in_range ctx.untrusted_header_timestamp untrusted v.untrusted_at in
        let ht = tm.nanos_in_range ctx.trusted_state_timestamp trusted v.trusted_at in
        (
          libs.trusting_period_context.encode c,
          rw
              (
                as_unix_timestamp_nanos-Nanos ctx.untrusted_header_timestamp untrusted
                    v.untrusted_at,
                as_unix_timestamp_nanos-Nanos ctx.trusted_state_timestamp trusted v.trusted_at,
              )
              refl,
          libs.trusting_period_context.encode-IsBytes c valid,
          rw
              (
                libs.trusting_period_context.decode-encode c valid,
                take_be period drift (params_in_range ctx.trusting_period v.trusting_period),
                drop_be period drift (params_in_range ctx.clock_drift v.clock_drift),
                nanos_to_duration-as_nanos ctx.trusting_period v.trusting_period,
                nanos_to_duration-as_nanos ctx.clock_drift v.clock_drift,
                take_be untrusted trusted (omega arith),
                drop_be untrusted trusted (omega arith),
                from_unix_timestamp_nanos-Nanos ctx.untrusted_header_timestamp untrusted
                    v.untrusted_at,
                from_unix_timestamp_nanos-Nanos ctx.trusted_state_timestamp trusted v.trusted_at,
              )
              refl,
        )

    -- A valid context is encoded to bytes, with no panic, and decoding these bytes gives the context
    -- back, to the nanosecond.
    pub ethabi_decode-ethabi_encode :
        (ctx : ValidationContext T)
        → IsValid ctx
        → (bz : Bytes) × (ethabi_encode libs ctx ≡ ok bz)
          × IsBytes bz
          × (ethabi_decode libs bz ≡ ok ctx)
    unfolding ethabi_encode ethabi_decode decode_payload
    ethabi_decode-ethabi_encode empty v =
        let c : EthAbiValidationContext = record {
          header = header {T = T} empty;
          context_bytes = [];
        } in
        let valid : IsEthAbiValidationContext c = (header-IsArray {T = T} empty, tt) in
        (
          libs.validation_context.encode c,
          refl,
          libs.validation_context.encode-IsBytes c valid,
          rw (libs.validation_context.decode-encode c valid, parse-header_empty {T = T}) refl,
        )
    ethabi_decode-ethabi_encode (within ctx) v =
        let (payload, encoded, bytes, decoded) = within_round_trip ctx v in
        let c : EthAbiValidationContext = record {
          header = header (within ctx);
          context_bytes = payload;
        } in
        let valid : IsEthAbiValidationContext c = (header-IsArray (within ctx), bytes) in
        (
          libs.validation_context.encode c,
          rw encoded refl,
          libs.validation_context.encode-IsBytes c valid,
          rw (libs.validation_context.decode-encode c valid, parse-header_within ctx, decoded) refl,
        )
