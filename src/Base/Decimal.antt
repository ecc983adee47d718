-- ===== src/Base/Decimal.antt =====
-- `u64` in decimal: `Display` of the standard library, and its `parse::<u64>`.
use native.Mathlib.Nat.{pow-suc}
use Prim.Native.Nat.{ℕ, zero, suc, ◌+◌, ◌-◌, ◌*◌, ◌/◌, ◌%◌, ◌^◌, ◌<◌, ◌≤◌}
use mathlib.Core.Path.{◌≡◌, refl, ap, ◌∙◌}
use mathlib.Core.Logic.{◌≢◌, inl, inr}
use mathlib.Core.Bool.{Bool, ◌&&◌, ◌||◌}
use mathlib.Core.Option.{Option, none, some}
use mathlib.Core.List.{[], ◌∷◌}
use native.Mathlib.Omega.{arith}
use lcp.Base.Tests.{ltb, leb, if◌then◌else◌, Bool-cases}
use lcp.Base.Equality.{◌==◌, ℕ_PartialEq}
use lcp.Base.Lists.{All}
use lcp.Base.Bytes.{Bytes, codes}

abbrev pub u64_bound : ℕ
u64_bound = 2 ^ 64

-- The digits of `n` before `out`; twenty rounds are enough for a `u64`.
unfoldable pub emit : ℕ → ℕ → Bytes → Bytes
emit zero n out = out
emit (suc f) n out =
    let rest = emit f (n / 10) ((48 + n % 10) ∷ out) in if n == 0 then out else rest

unfoldable pub to_string : ℕ → Bytes
to_string n = if n == 0 then b'0' ∷ [] else emit 20 n []

is_digit : ℕ → Bool
is_digit c = leb 48 c && leb c 57

-- `checked_mul(10)` and `checked_add(digit)` for each character
scan : Bytes → ℕ → Option ℕ
unfolding is_digit
scan [] acc = some acc
scan (c ∷ s) acc =
    let rest = scan s (acc * 10 + (c - 48)) in
    if is_digit c && ltb (acc * 10 + (c - 48)) u64_bound then rest else none

-- A single sign is no number; one leading `+` is skipped.
unfoldable pub parse_u64 : Bytes → Option ℕ
unfolding scan
parse_u64 [] = none
parse_u64 (c ∷ []) = if c == b'+' || c == b'-' then none else scan (c ∷ []) 0
parse_u64 (c ∷ d ∷ s) = if c == b'+' then scan (d ∷ s) 0 else scan (c ∷ d ∷ s) 0

abbrev pub IsDigit : ℕ → Type 0
IsDigit c = (48 ≤ c) × (c ≤ 57)

emit-IsDigit : (f n : ℕ) (out : Bytes) → All IsDigit out → All IsDigit (emit f n out)
unfolding emit
emit-IsDigit zero n out h = h
emit-IsDigit (suc f) n out h = elim (Bool-cases (n == 0)) [
  | inl e ↦ rw e h
  | inr e ↦ rw e (emit-IsDigit f (n / 10) ((48 + n % 10) ∷ out) ((omega arith, omega arith), h))
]

pub to_string-IsDigit : (n : ℕ) → All IsDigit (to_string n)
unfolding to_string
to_string-IsDigit n = elim (Bool-cases (n == 0)) [
  | inl e ↦ rw e (omega arith)
  | inr e ↦ rw e (emit-IsDigit 20 n [] tt)
]

scan_digit :
    (n : ℕ) (out : Bytes) → n < u64_bound → scan ((48 + n % 10) ∷ out) (n / 10) ≡ scan out n
unfolding scan
scan_digit n out b = ground (arith)

-- Reading the digits of `n` brings the accumulator to `n`.
scan-emit :
    (f n : ℕ) (out : Bytes) → n < 10 ^ f → n < u64_bound → scan (emit f n out) 0 ≡ scan out n
unfolding emit
scan-emit zero n out h b = ap (scan out) (omega arith)
scan-emit (suc f) n out h b = elim (Bool-cases (n == 0)) [
  | inl e ↦ rw e (ap (scan out) (ground arith))
  | inr e ↦ rw e (
      scan-emit f (n / 10) ((48 + n % 10) ∷ out) (omega (arith, pow-suc 10 f)) (omega arith)
      ∙ scan_digit n out b)
]

-- Digits alone are read with no regard to signs.
parse_u64-digits : (s : Bytes) → All IsDigit s → s ≢ [] → parse_u64 s ≡ scan s 0
unfolding parse_u64
parse_u64-digits [] h ne = absurd (ne refl)
parse_u64-digits (c ∷ []) h ne = unfold scan in ground arith
parse_u64-digits (c ∷ d ∷ s) h ne = unfold scan in ground arith

scan-to_string : (n : ℕ) → n < u64_bound → scan (to_string n) 0 ≡ some n
unfolding to_string
scan-to_string n h = elim (Bool-cases (n == 0)) [
  | inl e ↦ rw e (unfold scan in ground arith)
  | inr e ↦ rw e (scan-emit 20 n [] (omega arith) h ∙ (unfold scan in refl))
]

to_string-ne-nil : (n : ℕ) → n < u64_bound → to_string n ≢ []
unfolding scan to_string
to_string-ne-nil zero h e = cc
to_string-ne-nil (suc n) h e = cc (rw e at (scan-to_string (suc n) h))

-- A printed `u64` is read back.
pub parse_u64-to_string : (n : ℕ) → n < u64_bound → parse_u64 (to_string n) ≡ some n
parse_u64-to_string n h =
    parse_u64-digits (to_string n) (to_string-IsDigit n) (to_string-ne-nil n h) ∙ scan-to_string n h

max_u64 : parse_u64 (codes "18446744073709551615") ≡ some 18446744073709551615
unfolding parse_u64
max_u64 = refl

past_u64 : parse_u64 (codes "18446744073709551616") ≡ none
unfolding parse_u64
past_u64 = refl

signed : (parse_u64 (codes "+7") ≡ some 7) × (parse_u64 (codes "-7") ≡ none)
unfolding parse_u64
signed = (refl, refl)

printed : to_string 1500 ≡ codes "1500"
unfolding to_string emit
printed = refl
