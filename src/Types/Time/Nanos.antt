-- ===== src/Types/Time/Nanos.antt =====
-- Times counted in nanoseconds since the Unix epoch (modules/types/src/time.rs).
use lcp.Base.{ℕ, ◌/◌, ◌%◌, ◌^◌, ◌≤◌, ◌<◌, ◌≡◌, ap, ◌∙◌, ◌⊎◌, inl, inr, ok, err, Option-cases, arith}
use native.Mathlib.Decide.{dec_lt}
use lcp.Types.Errors.{TimeError, tendermint, try_from_int_error}
use lcp.Types.Time.{
  Duration, IsDuration, as_nanos, nanos_per_sec, max_unix_timestamp_nanos, TmTime, Nanos,
  nanos_to_duration, from_unix_timestamp_nanos, as_unix_timestamp_nanos, as_unix_timestamp_secs,
}

-- A count of nanoseconds whose seconds fit a `u64` is the duration of that many nanoseconds.
pub as_nanos-nanos_to_duration :
    (n : ℕ)
    → n / nanos_per_sec < 2 ^ 64
    → (d : Duration) × (nanos_to_duration n ≡ ok d) × IsDuration d × (as_nanos d ≡ n)
unfolding nanos_to_duration
as_nanos-nanos_to_duration n h = (
  record { secs = n / nanos_per_sec; subsec_nanos = n % nanos_per_sec },
  ground arith,
  (h, omega arith),
  omega arith,
)

-- A duration is read back from its nanoseconds.
pub nanos_to_duration-as_nanos :
    (d : Duration) → IsDuration d → nanos_to_duration (as_nanos d) ≡ ok d
unfolding nanos_to_duration
nanos_to_duration-as_nanos d v = ground arith

module _ {T : Type 0} ⦃tm : TmTime T⦄ where
  pub from_nanos_in_range :
      (n : ℕ)
      → n ≤ max_unix_timestamp_nanos
      → (t : T) × (from_unix_timestamp_nanos n ≡ ok t) × Nanos tm.ops t n
  unfolding from_unix_timestamp_nanos
  from_nanos_in_range n h =
      let (t, made, at) =
        tm.from_in_range (n / nanos_per_sec) (n % nanos_per_sec) (omega arith) (omega arith) in
      (t, ground arith, (at.0, at.1, at.2, omega (arith, at.3)))

  from_nanos_out_of_range :
      (n : ℕ)
      → max_unix_timestamp_nanos < n
      → (e : TimeError) × (from_unix_timestamp_nanos {T = T} n ≡ err e)
  unfolding from_unix_timestamp_nanos
  from_nanos_out_of_range n h = elim (dec_lt (n / nanos_per_sec) (2 ^ 63)) [
    | yes p ↦ (
      tendermint,
      ground (arith, tm.from_out_of_range (n / nanos_per_sec) (n % nanos_per_sec) (omega arith)),
    )
    | no p ↦ (try_from_int_error, ground arith)
  ]

  pub as_unix_timestamp_nanos-Nanos {ℓ} :
      {E : Type ℓ} (t : T) (n : ℕ) → Nanos tm.ops t n → as_unix_timestamp_nanos {E = E} t ≡ ok n
  unfolding as_unix_timestamp_nanos
  as_unix_timestamp_nanos-Nanos t n (d, since, v, e) = rw since (ap ok e)

  -- A count that is no later than year 9999 is the time of that many nanoseconds; a later one is
  -- refused with an error, never a panic.
  pub from_nanos-as_nanos :
      (n : ℕ)
      → ((t : T) × (from_unix_timestamp_nanos n ≡ ok t)
          × (as_unix_timestamp_nanos {E = TimeError} t ≡ ok n))
        ⊎ ((max_unix_timestamp_nanos < n)
            × ((e : TimeError) × (from_unix_timestamp_nanos {T = T} n ≡ err e)))
  from_nanos-as_nanos n = elim (dec_lt max_unix_timestamp_nanos n) [
    | yes p ↦ inr (p, from_nanos_out_of_range n p)
    | no p ↦
        let (t, made, at) = from_nanos_in_range n (omega arith) in
        inl (t, made, as_unix_timestamp_nanos-Nanos t n at)
  ]

  -- A time from the epoch on is read back from its nanoseconds.
  pub from_unix_timestamp_nanos-Nanos :
      (t : T) (n : ℕ) → Nanos tm.ops t n → from_unix_timestamp_nanos n ≡ ok t
  from_unix_timestamp_nanos-Nanos t n h =
      let (u, made, at) = from_nanos_in_range n (tm.nanos_in_range t n h) in
      made ∙ ap ok (tm.nanos_injective u t n at h)

  pub as_unix_timestamp_secs-Nanos {ℓ} :
      {E : Type ℓ} (t : T) (n : ℕ)
      → Nanos tm.ops t n
      → as_unix_timestamp_secs {E = E} t ≡ ok (n / nanos_per_sec)
  unfolding as_unix_timestamp_secs
  as_unix_timestamp_secs-Nanos t n (d, since, v, e) = rw since (ap ok (omega arith))

  pub as_unix_timestamp_secs-bound {ℓ} :
      {E : Type ℓ} (t : T) {n : ℕ} → as_unix_timestamp_secs {E = E} t ≡ ok n → n < 2 ^ 64
  unfolding as_unix_timestamp_secs
  as_unix_timestamp_secs-bound t h = elim (Option-cases (tm.duration_since t tm.unix_epoch)) [
    | inl e ↦ absurd (ground arith)
    | inr (d, e) ↦ let small = tm.since_IsDuration t tm.unix_epoch d e in ground arith
  ]
