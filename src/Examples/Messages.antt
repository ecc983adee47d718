-- ===== src/Examples/Messages.antt =====
-- Two proxy messages in a row, with contexts of a trusting period.
use lcp.Base.{
  ℕ, suc, ◌+◌, ◌<◌, ◌≤◌, ◌≡◌, ◌↔◌, refl, true, some, [], ◌∷◌, ok, err, length, All-replicate,
  replicate, arith,
}
use lcp.Base.Bytes.{Bytes, IsBytes}
use lcp.Base.Equality
use lcp.Types.Time.{Duration, Nanos, as_nanos, max_unix_timestamp_nanos}
use lcp.Types.Height.{Height}
use lcp.Crypto.{
  enclave_sign, enclave_signer, verify_signature, verify_signature_address, verify, as_address,
}
use lcp.Crypto.Signing.{verify_signature-enclave_sign}
use lcp.Commitments.Errors.{out_of_trusting_period}
use lcp.Commitments.StateId.{IsStateId}
use lcp.Commitments.Context
use lcp.Commitments.Context.{TrustingPeriodContext, ValidationContext, within, validate}
use lcp.Commitments.Context.Validate.{validate_within_iff, validate_expired}
use lcp.Commitments.Context.Aggregate.{IsDatedWithin, aggregate-validate}
use lcp.Commitments.Context.Codec.{IsValidWithin, ethabi_decode-ethabi_encode}
use lcp.Commitments.Message.UpdateState
use lcp.Commitments.Message.UpdateState.{
  UpdateStateProxyMessage, aggregate_from, aggregate_messages,
}
use lcp.Commitments.Message.UpdateState.Chain.{
  Chain, Spans, aggregate_messages-Spans, aggregate_from-validate,
}
use lcp.Commitments.Message.UpdateState.Total.{aggregate_messages_total}
use lcp.Commitments.Message.UpdateState.Codec.{IsMessage}
use lcp.Commitments.Message.Proxy
use lcp.Commitments.Message.Proxy.{ProxyMessage, to_bytes, from_bytes}
use lcp.Commitments.Message.Proxy.Codec.{keep, from_bytes-to_bytes}
use lcp.Commitments.Proof.{CommitmentProof, is_proven, prove_commitment, prove_commitment-ok}
use lcp.Examples.Abi.{libs}
use lcp.Examples.Clock.{clock, ops, at}
use lcp.Examples.Keys.{secp}

abbrev seconds : ℕ → Duration
seconds n = record { secs = n; subsec_nanos = 0 }

abbrev context : ℕ → ℕ → TrustingPeriodContext ℕ
context trusted untrusted = record {
  trusting_period = seconds 100;
  clock_drift = seconds 1;
  untrusted_header_timestamp = untrusted;
  trusted_state_timestamp = trusted;
}

abbrev height : ℕ → Height
height n = record { revision_number = 0; revision_height = n }

abbrev state_id : ℕ → Bytes
state_id n = replicate 32 n

abbrev update : ℕ → TrustingPeriodContext ℕ → UpdateStateProxyMessage ℕ
update n c = record {
  prev_height = some (height n);
  prev_state_id = some (state_id n);
  post_height = height (suc n);
  post_state_id = state_id (suc n);
  timestamp = 30000000000;
  context = within c;
  emitted_states = [];
}

abbrev c1 : TrustingPeriodContext ℕ
c1 = context 10000000000 20000000000

abbrev c2 : TrustingPeriodContext ℕ
c2 = context 15000000001 30000000000

abbrev c12 : TrustingPeriodContext ℕ
c12 = context 10000000000 30000000000

abbrev m1 : UpdateStateProxyMessage ℕ
m1 = update 1 c1

abbrev m2 : UpdateStateProxyMessage ℕ
m2 = update 2 c2

abbrev m12 : UpdateStateProxyMessage ℕ
m12 = record m2 {
  prev_height = some (height 1);
  prev_state_id = some (state_id 1);
  context = within c12;
}

abbrev now : ℕ
now = 50000000000

now_at : Nanos ops now now
now_at = at now (omega arith)

dated :
    (trusted untrusted : ℕ)
    → trusted ≤ now
    → untrusted ≤ now
    → IsDatedWithin (context trusted untrusted)
dated trusted untrusted h k = record {
  trusted = trusted;
  untrusted = untrusted;
  trusted_at = at trusted (omega arith);
  untrusted_at = at untrusted (omega arith);
  fits = omega arith;
}

joined :
    (aggregate_messages (m1 ∷ m2 ∷ []) ≡ ok m12)
    × (aggregate_from m1 (m2 ∷ []) ≡ ok m12)
    × (Context.aggregate (within c1) (within c2) ≡ ok (within c12))
unfolding aggregate_messages aggregate_from UpdateState.aggregate Context.aggregate Equality.list_eq
joined = (refl, refl, refl)

aggregate_messages-Spans_example : Chain m1 (m2 ∷ []) × Spans m1 (m2 ∷ []) m12
aggregate_messages-Spans_example = aggregate_messages-Spans m1 (m2 ∷ []) joined.0

aggregate_messages_total_example :
    (r : UpdateStateProxyMessage ℕ) × (aggregate_messages (m1 ∷ m2 ∷ []) ≡ ok r)
aggregate_messages_total_example =
    aggregate_messages_total (seconds 100) (seconds 1) m1 (m2 ∷ []) ((refl, refl), tt)
      ((refl, refl), ((refl, refl), tt))

aggregate_from-validate_example :
    (validate (within c12) now ≡ ok tt)
    ↔ ((validate (within c1) now ≡ ok tt) × ((validate (within c2) now ≡ ok tt) × Unit {0}))
aggregate_from-validate_example =
    aggregate_from-validate m1 (m2 ∷ []) now
      (
        dated 10000000000 20000000000 (omega arith) (omega arith),
        (dated 15000000001 30000000000 (omega arith) (omega arith), tt),
      )
      now_at joined.1

aggregate-validate_example :
    (validate (within c12) now ≡ ok tt)
    ↔ ((validate (within c1) now ≡ ok tt) × (validate (within c2) now ≡ ok tt))
aggregate-validate_example =
    aggregate-validate (within c1) (within c2) now
      (dated 10000000000 20000000000 (omega arith) (omega arith))
      (dated 15000000001 30000000000 (omega arith) (omega arith)) now_at joined.2

validate_within_iff_example : (validate (within c1) now ≡ ok tt) ↔ (
    (10000000000 + as_nanos (seconds 100) ≤ max_unix_timestamp_nanos)
    × (now < 10000000000 + as_nanos (seconds 100))
    × (now + as_nanos (seconds 1) ≤ max_unix_timestamp_nanos)
    × (20000000000 < now + as_nanos (seconds 1)))
validate_within_iff_example =
    validate_within_iff c1 now now_at (at 10000000000 (omega arith)) (at 20000000000 (omega arith))

validate_expired_example :
    (end_ : ℕ) × Nanos ops end_ (10000000000 + as_nanos (seconds 100))
    × (validate (within c1) 110000000000 ≡ err (out_of_trusting_period 110000000000 end_))
validate_expired_example =
    validate_expired c1 110000000000 (at 110000000000 (omega arith)) (at 10000000000 (omega arith))
      (omega arith)

valid_c2 : IsValidWithin c2
valid_c2 = record {
  trusting_period = (omega arith, omega arith);
  clock_drift = (omega arith, omega arith);
  untrusted = 30000000000;
  trusted = 15000000001;
  untrusted_at = at 30000000000 (omega arith);
  trusted_at = at 15000000001 (omega arith);
}

ethabi_decode-ethabi_encode_example :
    (bz : Bytes) × (Context.ethabi_encode libs (within c2) ≡ ok bz)
    × IsBytes bz
    × (Context.ethabi_decode libs bz ≡ ok (within c2))
ethabi_decode-ethabi_encode_example = ethabi_decode-ethabi_encode libs (within c2) valid_c2

state_id-IsStateId : (n : ℕ) → n < 256 → IsStateId (state_id n)
state_id-IsStateId n h = (refl, All-replicate (λ b. b < 256) 32 n h)

valid_m2 : IsMessage m2
valid_m2 = record {
  prev_height = (omega arith, omega arith);
  prev_state_id = state_id-IsStateId 2 (omega arith);
  post_height = (omega arith, omega arith);
  post_state_id = state_id-IsStateId 3 (omega arith);
  nanos = 30000000000;
  timestamp = at 30000000000 (omega arith);
  context = valid_c2;
  emitted_states = tt;
}

from_bytes-to_bytes_example :
    (bz : Bytes) × (to_bytes libs (Proxy.update_state m2) ≡ ok bz)
    × IsBytes bz
    × (from_bytes libs bz ≡ ok (keep (Proxy.update_state m2)))
from_bytes-to_bytes_example = from_bytes-to_bytes libs (Proxy.update_state m2) valid_m2

verify_signature-enclave_sign_example :
    (sig : Bytes) × (enclave_sign secp 7 (1 ∷ 2 ∷ []) ≡ ok sig)
    × (length sig ≡ 65)
    × (verify_signature secp (1 ∷ 2 ∷ []) sig ≡ ok 7)
    × (verify_signature_address secp (1 ∷ 2 ∷ []) sig ≡ ok (as_address secp 7))
    × (verify secp 7 (1 ∷ 2 ∷ []) sig ≡ ok tt)
verify_signature-enclave_sign_example = verify_signature-enclave_sign secp 7 (1 ∷ 2 ∷ [])

proof_of :
    (m : ProxyMessage ℕ) (bz sig signer : Bytes)
    → Proxy.validate m ≡ ok tt
    → to_bytes libs m ≡ ok bz
    → enclave_sign secp 7 bz ≡ ok sig
    → prove_commitment libs (enclave_signer secp 7) signer m
      ≡ ok (record { message = bz; signer = signer; signature = sig })
unfolding prove_commitment
proof_of m bz sig signer v made signed = rw (v, made, signed) refl

m2_valid : Proxy.validate (Proxy.update_state m2) ≡ ok tt
unfolding Proxy.validate UpdateState.validate
m2_valid = refl

proved :
    (proof : CommitmentProof) × (prove_commitment libs
        (enclave_signer secp 7)
        (as_address secp 7)
        (Proxy.update_state m2)
      ≡ ok proof)
proved =
    let (bz, made, _, _) = from_bytes-to_bytes libs (Proxy.update_state m2) valid_m2 in
    let (sig, signed, _, _, _, _) = verify_signature-enclave_sign secp 7 bz in
    (
      record { message = bz; signer = as_address secp 7; signature = sig },
      proof_of (Proxy.update_state m2) bz sig (as_address secp 7) m2_valid made signed,
    )

prove_commitment-ok_example :
    (Proxy.validate (Proxy.update_state m2) ≡ ok tt)
    × (to_bytes libs (Proxy.update_state m2) ≡ ok proved.0.message)
    × (is_proven proved.0 ≡ true)
    × (verify_signature_address secp proved.0.message proved.0.signature ≡ ok proved.0.signer)
prove_commitment-ok_example = prove_commitment-ok libs secp 7 (Proxy.update_state m2) proved.1
