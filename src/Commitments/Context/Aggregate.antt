-- ===== src/Commitments/Context/Aggregate.antt =====
-- What aggregating two validation contexts keeps (modules/commitments/src/context.rs).
use Prim.Native.Nat.{min, max}
use lcp.Base.{
  ℕ, ◌+◌, ◌≤◌, ◌≡◌, refl, ap, ◌∙◌, ◌↔◌, ◌⊎◌, inl, inr, ok, ltb, Bool-cases, if◌then◌else◌, arith,
}
use lcp.Base.Equality.{◌==◌}
use lcp.Types.Time.{as_nanos, max_unix_timestamp_nanos, TmTime, Nanos}
use lcp.Commitments.Context.{
  TrustingPeriodContext, ValidationContext, empty, within, duration_PartialEq, duration_eq_iff,
  validate, aggregate,
}
use lcp.Commitments.Context.Validate.{validate_within_iff}

module _ {T : Type 0} ⦃tm : TmTime T⦄ where
  -- The times of a context as nanoseconds since the epoch, with the end of the trusting period in
  -- the range of times.
  pub record IsDatedWithin (ctx : TrustingPeriodContext T) : Type 0 where
    pub trusted : ℕ
    pub untrusted : ℕ
    pub trusted_at : Nanos tm.ops ctx.trusted_state_timestamp trusted
    pub untrusted_at : Nanos tm.ops ctx.untrusted_header_timestamp untrusted
    pub fits : trusted + as_nanos ctx.trusting_period ≤ max_unix_timestamp_nanos

  abbrev pub IsDated : ValidationContext T → Type 0
  IsDated empty = Unit
  IsDated (within ctx) = IsDatedWithin ctx

  at_nanos : (t : T) {n m : ℕ} → Nanos tm.ops t n → n ≡ m → Nanos tm.ops t m
  at_nanos t (d, since, v, e) p = (d, since, v, e ∙ p)

  earlier-Nanos :
      (t u : T) {n m : ℕ}
      → Nanos tm.ops t n
      → Nanos tm.ops u m
      → Nanos tm.ops (if tm.lt t u then t else u) (min n m)
  earlier-Nanos t u {n} {m} ht hu = elim (Bool-cases (ltb n m)) [
    | inl e ↦ rw (tm.lt_nanos t u n m ht hu, e) (at_nanos t ht (ground arith))
    | inr e ↦ rw (tm.lt_nanos t u n m ht hu, e) (at_nanos u hu (ground arith))
  ]

  later-Nanos :
      (t u : T) {n m : ℕ}
      → Nanos tm.ops t n
      → Nanos tm.ops u m
      → Nanos tm.ops (if tm.lt u t then t else u) (max n m)
  later-Nanos t u {n} {m} ht hu = elim (Bool-cases (ltb m n)) [
    | inl e ↦ rw (tm.lt_nanos u t m n hu ht, e) (at_nanos t ht (ground arith))
    | inr e ↦ rw (tm.lt_nanos u t m n hu ht, e) (at_nanos u hu (ground arith))
  ]

  -- The aggregate of two trusting period contexts: their common periods, the earlier trusted time
  -- and the later header time.
  pub record Joins (x y z : TrustingPeriodContext T) (dx : IsDatedWithin x) (dy : IsDatedWithin y)
      : Type 0 where
    pub same_period : x.trusting_period ≡ y.trusting_period
    pub same_drift : x.clock_drift ≡ y.clock_drift
    pub period : z.trusting_period ≡ x.trusting_period
    pub drift : z.clock_drift ≡ x.clock_drift
    pub trusted_at : Nanos tm.ops z.trusted_state_timestamp (min dx.trusted dy.trusted)
    pub untrusted_at : Nanos tm.ops z.untrusted_header_timestamp (max dx.untrusted dy.untrusted)

  aggregate-Joins :
      (x y : TrustingPeriodContext T) {c : ValidationContext T} (dx : IsDatedWithin x)
      (dy : IsDatedWithin y)
      → aggregate (within x) (within y) ≡ ok c
      → (z : TrustingPeriodContext T) × (c ≡ within z) × Joins x y z dx dy
  unfolding aggregate
  aggregate-Joins x y {c} dx dy h = elim (Bool-cases (x.trusting_period == y.trusting_period)) [
    | inr e ↦ absurd (ground arith)
    | inl e ↦ elim (Bool-cases (x.clock_drift == y.clock_drift)) [
      | inr f ↦ absurd (ground arith)
      | inl f ↦ (
        record {
          trusting_period = x.trusting_period;
          clock_drift = x.clock_drift;
          untrusted_header_timestamp =
              if tm.lt y.untrusted_header_timestamp x.untrusted_header_timestamp
              then x.untrusted_header_timestamp
              else y.untrusted_header_timestamp;
          trusted_state_timestamp =
              if tm.lt x.trusted_state_timestamp y.trusted_state_timestamp
              then x.trusted_state_timestamp
              else y.trusted_state_timestamp;
        },
        ground arith,
        record {
          same_period = (duration_eq_iff x.trusting_period y.trusting_period).0 e;
          same_drift = (duration_eq_iff x.clock_drift y.clock_drift).0 f;
          period = refl;
          drift = refl;
          trusted_at =
              earlier-Nanos x.trusted_state_timestamp y.trusted_state_timestamp dx.trusted_at
                dy.trusted_at;
          untrusted_at =
              later-Nanos x.untrusted_header_timestamp y.untrusted_header_timestamp dx.untrusted_at
                dy.untrusted_at;
        },
      )
    ]
  ]

  joined-validate :
      (x y z : TrustingPeriodContext T) (now : T) {n : ℕ} (dx : IsDatedWithin x)
      (dy : IsDatedWithin y)
      → Nanos tm.ops now n
      → Joins x y z dx dy
      → (validate (within z) now ≡ ok tt)
        ↔ ((validate (within x) now ≡ ok tt) × (validate (within y) now ≡ ok tt))
  joined-validate x y z now {n} dx dy hn j =
      let vx = validate_within_iff x now hn dx.trusted_at dx.untrusted_at in
      let vy = validate_within_iff y now hn dy.trusted_at dy.untrusted_at in
      let vz = validate_within_iff z now hn j.trusted_at j.untrusted_at in
      let px = ap as_nanos j.period in
      let py = ap as_nanos j.same_period in
      let qx = ap as_nanos j.drift in
      let qy = ap as_nanos j.same_drift in
      (
        λ h.
            let k = vz.0 h in
            (vx.1 (omega (arith, k, px, py, qx, qy)), vy.1 (omega (arith, k, px, py, qx, qy))),
        λ h. let kx = vx.0 h.0 in let ky = vy.0 h.1 in vz.1 (omega (arith, kx, ky, px, py, qx, qy)),
      )

  joined-IsDated :
      (x y z : TrustingPeriodContext T) (dx : IsDatedWithin x) (dy : IsDatedWithin y)
      → Joins x y z dx dy
      → IsDatedWithin z
  joined-IsDated x y z dx dy j = record {
    trusted = min dx.trusted dy.trusted;
    untrusted = max dx.untrusted dy.untrusted;
    trusted_at = j.trusted_at;
    untrusted_at = j.untrusted_at;
    fits = omega (arith, dx.fits, ap as_nanos j.period);
  }

  -- The empty context is the unit of `aggregate`.
  aggregate_empty :
      (a c : ValidationContext T)
      → ((aggregate empty a ≡ ok c) ⊎ (aggregate a empty ≡ ok c))
      → a ≡ c
  unfolding aggregate
  aggregate_empty empty c (inl h) = cc
  aggregate_empty empty c (inr h) = cc
  aggregate_empty (within x) c (inl h) = cc
  aggregate_empty (within x) c (inr h) = cc

  validate_empty : (now : T) → validate empty now ≡ ok tt
  unfolding validate
  validate_empty now = refl

  -- For contexts whose times are dated from the epoch and whose trusting periods end within the
  -- range of times: where two contexts aggregate, the result is accepted at a clock reading from
  -- the epoch on exactly if both are.
  pub aggregate-validate :
      (a b : ValidationContext T) {c : ValidationContext T} (now : T) {n : ℕ}
      → IsDated a
      → IsDated b
      → Nanos tm.ops now n
      → aggregate a b ≡ ok c
      → (validate c now ≡ ok tt) ↔ ((validate a now ≡ ok tt) × (validate b now ≡ ok tt))
  aggregate-validate empty empty {c} now da db hn h =
      rw (← aggregate_empty empty c (inl h)) (λ v. (v, v), λ v. v.0)
  aggregate-validate empty (within y) {c} now da db hn h =
      rw (← aggregate_empty (within y) c (inl h)) (λ v. (validate_empty now, v), λ v. v.1)
  aggregate-validate (within x) empty {c} now da db hn h =
      rw (← aggregate_empty (within x) c (inr h)) (λ v. (v, validate_empty now), λ v. v.0)
  aggregate-validate (within x) (within y) {c} now da db hn h =
      let (z, e, j) = aggregate-Joins x y da db h in rw e (joined-validate x y z now da db hn j)

  -- The aggregate of dated contexts is dated, so that it can be aggregated further.
  pub aggregate-IsDated :
      (a b : ValidationContext T) {c : ValidationContext T}
      → IsDated a
      → IsDated b
      → aggregate a b ≡ ok c
      → IsDated c
  aggregate-IsDated empty empty {c} da db h = rw (← aggregate_empty empty c (inl h)) tt
  aggregate-IsDated empty (within y) {c} da db h = rw (← aggregate_empty (within y) c (inl h)) db
  aggregate-IsDated (within x) empty {c} da db h = rw (← aggregate_empty (within x) c (inr h)) da
  aggregate-IsDated (within x) (within y) {c} da db h =
      let (z, e, j) = aggregate-Joins x y da db h in rw e (joined-IsDated x y z da db j)
