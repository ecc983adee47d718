-- ===== src/Base/Utf8.antt =====
-- UTF-8 as the standard library reads it: `String::from_utf8` and `str::chars`.
use Prim.Native.Nat.{ℕ, ◌+◌, ◌-◌, ◌*◌}
use mathlib.Core.Path.{◌≡◌, refl}
use mathlib.Core.Bool.{Bool, true, false, ◌&&◌}
use mathlib.Core.Option.{Option, none, some}
use mathlib.Core.Option
use mathlib.Core.List.{List, [], ◌∷◌, ◌++◌}
use lcp.Base.Tests.{ltb, leb, if◌then◌else◌}
use lcp.Base.Equality.{◌==◌, ℕ_PartialEq}
use lcp.Base.Bytes.{Bytes}

-- What a first byte announces: the continuation bytes to come, the range of the next one, and the
-- bits read so far.
record Lead : Type 0 where
  more : ℕ
  lo : ℕ
  hi : ℕ
  bits : ℕ

lead : ℕ → Option Lead
lead b =
    if leb 0xc2 b && leb b 0xdf
    then some (record { more = 1; lo = 0x80; hi = 0xbf; bits = b - 0xc0 })
    else if b == 0xe0
    then some (record { more = 2; lo = 0xa0; hi = 0xbf; bits = 0 })
    else if b == 0xed
    then some (record { more = 2; lo = 0x80; hi = 0x9f; bits = 13 })
    else if leb 0xe1 b && leb b 0xef
    then some (record { more = 2; lo = 0x80; hi = 0xbf; bits = b - 0xe0 })
    else if b == 0xf0
    then some (record { more = 3; lo = 0x90; hi = 0xbf; bits = 0 })
    else if leb 0xf1 b && leb b 0xf3
    then some (record { more = 3; lo = 0x80; hi = 0xbf; bits = b - 0xf0 })
    else if b == 0xf4
    then some (record { more = 3; lo = 0x80; hi = 0x8f; bits = 4 })
    else none

-- The state between two bytes: a character is complete, or `Lead` says what is missing.
step : Option Lead → ℕ → Option (Option Lead × List ℕ)
unfolding lead
step none b =
    if ltb b 0x80
    then some (none, b ∷ [])
    else elim (lead b) [ none ↦ none | some l ↦ some (some l, []) ]
step (some l) b =
    if leb l.lo b && leb b l.hi
    then (if l.more == 1
        then some (none, (l.bits * 64 + (b - 0x80)) ∷ [])
        else some (
          some
              (record { more = l.more - 1; lo = 0x80; hi = 0xbf; bits = l.bits * 64 + (b - 0x80) }),
          [],
        ))
    else none

-- The characters of a byte string, if it is UTF-8.
decode_from : Option Lead → Bytes → Option (List ℕ)
decode_from none [] = some []
decode_from (some l) [] = none
decode_from st (b ∷ bz) = elim (step st b) [
  | none ↦ none
  | some (st', out) ↦ Option.map (λ cs. out ++ cs) (decode_from st' bz)
]

unfoldable pub chars : Bytes → Option (List ℕ)
unfolding decode_from step
chars bz = decode_from none bz

unfoldable pub is_utf8 : Bytes → Bool
unfolding chars
is_utf8 bz = elim (chars bz) [ none ↦ false | some _ ↦ true ]

-- é is one character of two bytes, and € of three.
two_chars : chars (0xc3 ∷ 0xa9 ∷ 0xe2 ∷ 0x82 ∷ 0xac ∷ []) ≡ some (0xe9 ∷ 0x20ac ∷ [])
unfolding chars
two_chars = refl

-- An overlong form, a surrogate and a cut character are refused.
not_utf8 :
    (is_utf8 (0xc0 ∷ 0xaf ∷ []) ≡ false)
    × (is_utf8 (0xed ∷ 0xa0 ∷ 0x80 ∷ []) ≡ false)
    × (is_utf8 (0xe2 ∷ 0x82 ∷ []) ≡ false)
unfolding is_utf8
not_utf8 = (refl, refl, refl)
