-- ===== src/Types/Time.antt =====
-- modules/types/src/time.rs. `Time` wraps `tendermint::Time`, which is another crate's: it is the
-- parameter `TmTime`, with the documented behaviour on times from the Unix epoch on.
pub mod Nanos
use lcp.Base.{
  ℕ, ◌+◌, ◌*◌, ◌/◌, ◌%◌, ◌^◌, ◌≤◌, ◌<◌, ◌≡◌, refl, Bool, Option, none, some, Result, ok, err, ◌>>=◌,
  ok_or, expect, ltb, if◌then◌else◌, arith,
}
use lcp.Types.Errors.{TimeError, tendermint, try_from_int_error}

-- `core::time::Duration`
pub record Duration : Type 0 where
  pub secs : ℕ
  pub subsec_nanos : ℕ

abbrev pub nanos_per_sec : ℕ
nanos_per_sec = 1000000000

abbrev pub as_nanos : Duration → ℕ
as_nanos d = d.secs * nanos_per_sec + d.subsec_nanos

-- What the standard library keeps of every `Duration`.
abbrev pub IsDuration : Duration → Type 0
IsDuration d = (d.secs < 2 ^ 64) × (d.subsec_nanos < nanos_per_sec)

-- 9999-12-31T23:59:59.999999999Z
abbrev pub max_unix_timestamp_nanos : ℕ
max_unix_timestamp_nanos = 253402300799999999999

abbrev pub max_unix_timestamp_secs : ℕ
max_unix_timestamp_secs = 253402300799

pub record TmOps (T : Type 0) : Type 0 where
  pub unix_epoch : T
  -- the seconds of the source are an `i64` that is not negative
  pub from_unix_timestamp : ℕ → ℕ → Option T
  pub duration_since : T → T → Option Duration
  pub checked_add : T → Duration → Option T
  pub checked_sub : T → Duration → Option T
  -- `PartialOrd`
  pub lt : T → T → Bool

-- `t` lies `n` nanoseconds after the Unix epoch.
abbrev pub Nanos : {T : Type 0} → TmOps T → T → ℕ → Type 0
Nanos ops t n =
    (d : Duration) × (ops.duration_since t ops.unix_epoch ≡ some d)
    × IsDuration d
    × (as_nanos d ≡ n)

pub record TmTime (T : Type 0) : Type 0 where
  pub ops : TmOps T
  pub open ops use *
  pub since_IsDuration : (t u : T) (d : Duration) → duration_since t u ≡ some d → IsDuration d
  pub unix_epoch_nanos : Nanos ops unix_epoch 0
  pub from_in_range :
      (secs nanos : ℕ)
      → secs ≤ max_unix_timestamp_secs
      → nanos < nanos_per_sec
      → (t : T) × (from_unix_timestamp secs nanos ≡ some t)
        × Nanos ops t (secs * nanos_per_sec + nanos)
  pub from_out_of_range :
      (secs nanos : ℕ) → max_unix_timestamp_secs < secs → from_unix_timestamp secs nanos ≡ none
  pub nanos_in_range : (t : T) (n : ℕ) → Nanos ops t n → n ≤ max_unix_timestamp_nanos
  pub nanos_injective : (t u : T) (n : ℕ) → Nanos ops t n → Nanos ops u n → t ≡ u
  pub lt_nanos : (t u : T) (n m : ℕ) → Nanos ops t n → Nanos ops u m → lt t u ≡ ltb n m
  pub add_in_range :
      (t : T) (n : ℕ) (d : Duration)
      → Nanos ops t n
      → n + as_nanos d ≤ max_unix_timestamp_nanos
      → (u : T) × (checked_add t d ≡ some u) × Nanos ops u (n + as_nanos d)
  pub add_out_of_range :
      (t : T) (n : ℕ) (d : Duration)
      → Nanos ops t n
      → max_unix_timestamp_nanos < n + as_nanos d
      → checked_add t d ≡ none

-- `Duration::new(secs, nanos)` after `secs: u64 = try_into()?`; the nanoseconds never carry.
unfoldable pub nanos_to_duration : ℕ → Result TimeError Duration
nanos_to_duration nanos =
    if ltb (nanos / nanos_per_sec) (2 ^ 64)
    then ok (record { secs = nanos / nanos_per_sec; subsec_nanos = nanos % nanos_per_sec })
    else err try_from_int_error

module _ {T : Type 0} ⦃tm : TmTime T⦄ where
  unfoldable pub from_unix_timestamp_nanos : ℕ → Result TimeError T
  unfolding nanos_to_duration
  from_unix_timestamp_nanos timestamp = do
    d ← nanos_to_duration timestamp
    secs ← if ltb d.secs (2 ^ 63) then ok d.secs else err try_from_int_error
    ok_or (tm.from_unix_timestamp secs d.subsec_nanos) tendermint

  -- `duration_since(unix_epoch()).unwrap()`, which panics before the epoch
  unfoldable pub as_unix_timestamp_secs {ℓ} : {E : Type ℓ} → T → Result E ℕ
  as_unix_timestamp_secs t = do d ← expect (tm.duration_since t tm.unix_epoch); ok d.secs

  unfoldable pub as_unix_timestamp_nanos {ℓ} : {E : Type ℓ} → T → Result E ℕ
  as_unix_timestamp_nanos t = do d ← expect (tm.duration_since t tm.unix_epoch); ok (as_nanos d)

  -- `impl Add<Duration> for Time`, `impl Sub<Duration> for Time`
  unfoldable pub add : T → Duration → Result TimeError T
  add t d = ok_or (tm.checked_add t d) tendermint

  unfoldable pub sub : T → Duration → Result TimeError T
  sub t d = ok_or (tm.checked_sub t d) tendermint
