-- ===== src/Examples/Clock.antt =====
-- Concrete times: nanoseconds since the Unix epoch. A number past the year 9999 is no time.
use lcp.Base.{
  ℕ, ◌+◌, ◌-◌, ◌*◌, ◌/◌, ◌%◌, ◌<◌, ◌≤◌, ◌≡◌, ◌&&◌, none, some, leb, ltb, if◌then◌else◌, arith,
}
use lcp.Types.Time.{
  TmOps, TmTime, Nanos, Duration, IsDuration, as_nanos, nanos_per_sec, max_unix_timestamp_nanos,
  max_unix_timestamp_secs,
}

abbrev pub of_nanos : ℕ → Duration
of_nanos n = record { secs = n / nanos_per_sec; subsec_nanos = n % nanos_per_sec }

abbrev pub ops : TmOps ℕ
ops = record {
  unix_epoch = 0;
  from_unix_timestamp = λ secs nanos.
      if leb secs max_unix_timestamp_secs then some (secs * nanos_per_sec + nanos) else none;
  duration_since =
      λ t u. if leb u t && leb t max_unix_timestamp_nanos then some (of_nanos (t - u)) else none;
  checked_add =
      λ t d. if leb (t + as_nanos d) max_unix_timestamp_nanos then some (t + as_nanos d) else none;
  checked_sub = λ t d. if leb (as_nanos d) t then some (t - as_nanos d) else none;
  lt = ltb;
}

pub at : (t : ℕ) → t ≤ max_unix_timestamp_nanos → Nanos ops t t
at t h = (of_nanos t, ground arith, (omega arith, omega arith), omega arith)

pub Nanos-eq : (t n : ℕ) → Nanos ops t n → (t ≡ n) × (n ≤ max_unix_timestamp_nanos)
Nanos-eq t n (d, since, v, e) = (ground arith, ground arith)

pub from_in_range :
    (secs nanos : ℕ)
    → secs ≤ max_unix_timestamp_secs
    → nanos < nanos_per_sec
    → (t : ℕ) × (ops.from_unix_timestamp secs nanos ≡ some t)
      × Nanos ops t (secs * nanos_per_sec + nanos)
from_in_range secs nanos h k =
    (secs * nanos_per_sec + nanos, ground arith, at (secs * nanos_per_sec + nanos) (omega arith))

pub add_in_range :
    (t n : ℕ) (d : Duration)
    → Nanos ops t n
    → n + as_nanos d ≤ max_unix_timestamp_nanos
    → (u : ℕ) × (ops.checked_add t d ≡ some u) × Nanos ops u (n + as_nanos d)
add_in_range t n d h k =
    let (e, b) = Nanos-eq t n h in (n + as_nanos d, ground arith, at (n + as_nanos d) k)

pub since_IsDuration : (t u : ℕ) (d : Duration) → ops.duration_since t u ≡ some d → IsDuration d
since_IsDuration t u d h = ground arith

instance abbrev pub clock : TmTime ℕ
clock = record {
  ops = ops;
  since_IsDuration = since_IsDuration;
  unix_epoch_nanos = at 0 (omega arith);
  from_in_range = from_in_range;
  from_out_of_range = λ secs nanos h. ground arith;
  nanos_in_range = λ t n h. (Nanos-eq t n h).1;
  nanos_injective = λ t u n h k. let e = Nanos-eq t n h in let f = Nanos-eq u n k in omega arith;
  lt_nanos = λ t u n m h k. let e = Nanos-eq t n h in let f = Nanos-eq u m k in ground arith;
  add_in_range = add_in_range;
  add_out_of_range = λ t n d h k. let e = Nanos-eq t n h in ground arith;
}
