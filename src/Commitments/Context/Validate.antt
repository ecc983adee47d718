-- ===== src/Commitments/Context/Validate.antt =====
-- When `ValidationContext::validate` accepts, in nanoseconds since the epoch
-- (modules/commitments/src/context.rs).
use native.Mathlib.Decide.{dec_le}
use lcp.Base.{ℕ, ◌+◌, ◌≤◌, ◌<◌, ◌≡◌, ◌↔◌, ok, err, >>_iff, arith}
use lcp.Types.Time.{Duration, as_nanos, max_unix_timestamp_nanos, TmTime, Nanos, add}
use lcp.Commitments.Errors.{out_of_trusting_period}
use lcp.Commitments.Context.{
  TrustingPeriodContext, within, ensure_within_trust_period, ensure_header_from_past,
  validate_within, validate,
}

module _ {T : Type 0} ⦃tm : TmTime T⦄ where
  -- The trusting period's end: within the range of times and after `now`.
  trust_period_iff :
      (now trusted : T) (period : Duration) {c t : ℕ}
      → Nanos tm.ops now c
      → Nanos tm.ops trusted t
      → (ensure_within_trust_period now trusted period ≡ ok tt)
        ↔ ((t + as_nanos period ≤ max_unix_timestamp_nanos) × (c < t + as_nanos period))
  unfolding ensure_within_trust_period add
  trust_period_iff now trusted period {c} {t} hc ht =
      elim (dec_le (t + as_nanos period) max_unix_timestamp_nanos) [
        | yes p ↦
            let (u, made, at) = tm.add_in_range trusted t period ht p in
            rw (made, tm.lt_nanos now u c (t + as_nanos period) hc at) (ground arith)
        | no p ↦ rw (tm.add_out_of_range trusted t period ht (omega arith)) (ground arith)
      ]

  header_from_past_iff :
      (now header : T) (drift : Duration) {c u : ℕ}
      → Nanos tm.ops now c
      → Nanos tm.ops header u
      → (ensure_header_from_past now header drift ≡ ok tt)
        ↔ ((c + as_nanos drift ≤ max_unix_timestamp_nanos) × (u < c + as_nanos drift))
  unfolding ensure_header_from_past add
  header_from_past_iff now header drift {c} {u} hc hu =
      elim (dec_le (c + as_nanos drift) max_unix_timestamp_nanos) [
        | yes p ↦
            let (v, made, at) = tm.add_in_range now c drift hc p in
            rw (made, tm.lt_nanos header v u (c + as_nanos drift) hu at) (ground arith)
        | no p ↦ rw (tm.add_out_of_range now c drift hc (omega arith)) (ground arith)
      ]

  -- At a clock reading `c`, a context with a trusted state of time `t` and a header of time `u` is
  -- accepted exactly if the clock is before the end of the trusting period, the header is before
  -- the clock plus the drift, and neither sum passes year 9999.
  pub validate_within_iff :
      (ctx : TrustingPeriodContext T) (now : T) {c t u : ℕ}
      → Nanos tm.ops now c
      → Nanos tm.ops ctx.trusted_state_timestamp t
      → Nanos tm.ops ctx.untrusted_header_timestamp u
      → (validate (within ctx) now ≡ ok tt) ↔ (
          (t + as_nanos ctx.trusting_period ≤ max_unix_timestamp_nanos)
          × (c < t + as_nanos ctx.trusting_period)
          × (c + as_nanos ctx.clock_drift ≤ max_unix_timestamp_nanos)
          × (u < c + as_nanos ctx.clock_drift))
  unfolding validate validate_within
  validate_within_iff ctx now hc ht hu =
      let a = trust_period_iff now ctx.trusted_state_timestamp ctx.trusting_period hc ht in
      let b = header_from_past_iff now ctx.untrusted_header_timestamp ctx.clock_drift hc hu in
      let both =
        >>_iff (ensure_within_trust_period now ctx.trusted_state_timestamp ctx.trusting_period)
          (ensure_header_from_past now ctx.untrusted_header_timestamp ctx.clock_drift) in
      (
        λ h. let (p, q) = both.0 h in ((a.0 p).0, (a.0 p).1, (b.0 q).0, (b.0 q).1),
        λ h. both.1 (a.1 (h.0, h.1), b.1 (h.2, h.3)),
      )

  -- Past the end of the trusting period the error names the clock and that end.
  pub validate_expired :
      (ctx : TrustingPeriodContext T) (now : T) {c t : ℕ}
      → Nanos tm.ops now c
      → Nanos tm.ops ctx.trusted_state_timestamp t
      → t + as_nanos ctx.trusting_period ≤ c
      → (end_ : T) × Nanos tm.ops end_ (t + as_nanos ctx.trusting_period)
        × (validate (within ctx) now ≡ err (out_of_trusting_period now end_))
  unfolding validate validate_within ensure_within_trust_period add
  validate_expired ctx now {c} {t} hc ht late =
      let p : t + as_nanos ctx.trusting_period ≤ max_unix_timestamp_nanos =
        omega (arith, tm.nanos_in_range now c hc) in
      let (u, made, at) = tm.add_in_range ctx.trusted_state_timestamp t ctx.trusting_period ht p in
      (
        u,
        at,
        rw (made, tm.lt_nanos now u c (t + as_nanos ctx.trusting_period) hc at) (ground arith),
      )
