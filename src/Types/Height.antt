-- ===== src/Types/Height.antt =====
-- modules/types/src/height.rs: a revision number and a height, both `u64`.
pub mod Order
pub mod Text
use lcp.Base.{
  ℕ, ◌+◌, ◌-◌, ◌<◌, ◌≡◌, ◌↔◌, refl, Bool, true, false, ◌&&◌, Result, ok, err, panic, ◌>>=◌, ok_or,
  List, [], ◌∷◌, ◌++◌, Option, none, some, ltb, leb, if◌then◌else◌, arith,
}
use lcp.Base.Equality.{PartialEq, ◌==◌, ℕ_PartialEq}
use lcp.Base.Bytes.{Bytes}
use lcp.Base.Decimal.{u64_bound, to_string, parse_u64}
use lcp.Types.Errors.{TypeError, invalid_height_result, height_conversion}
use Prim.Native.Nat.{Ordering}

pub record Height : Type 0 where
  pub revision_number : ℕ
  pub revision_height : ℕ

-- Both fields are a `u64`.
abbrev pub IsHeight : Height → Type 0
IsHeight h = (h.revision_number < u64_bound) × (h.revision_height < u64_bound)

abbrev pub zero_height : Height
zero_height = record { revision_number = 0; revision_height = 0 }

-- `checked_add`
unfoldable pub add : Height → ℕ → Result TypeError Height
add h delta =
    if ltb (h.revision_height + delta) u64_bound
    then ok (record h { revision_height = h.revision_height + delta })
    else err invalid_height_result

-- `checked_sub`
unfoldable pub sub : Height → ℕ → Result TypeError Height
sub h delta =
    if leb delta h.revision_height
    then ok (record h { revision_height = h.revision_height - delta })
    else err invalid_height_result

abbrev pub is_zero : Height → Bool
is_zero h = h.revision_number == 0 && h.revision_height == 0

-- `Ord::cmp`
unfoldable pub cmp : Height → Height → Ordering
cmp h k =
    if ltb h.revision_number k.revision_number
    then Ordering.lt
    else if ltb k.revision_number h.revision_number
    then Ordering.gt
    else if ltb h.revision_height k.revision_height
    then Ordering.lt
    else if ltb k.revision_height h.revision_height
    then Ordering.gt
    else Ordering.eq

-- `h < k`, by `partial_cmp`
unfoldable pub lt : Height → Height → Bool
unfolding cmp
lt h k = elim (cmp h k) [ Ordering.lt ↦ true | _ ↦ false ]

-- the derived `PartialEq`
abbrev pub height_eq : Height → Height → Bool
height_eq h k = h.revision_number == k.revision_number && h.revision_height == k.revision_height

pub height_eq_iff : (h k : Height) → (height_eq h k ≡ true) ↔ (h ≡ k)
height_eq_iff h k = ground arith

instance abbrev pub height_PartialEq : PartialEq Height
height_PartialEq = record { eq = height_eq; eq_iff = height_eq_iff }

-- `Display`: the two numbers with a dash between them
unfoldable pub display : Height → Bytes
display h = to_string h.revision_number ++ b'-' ∷ to_string h.revision_height

-- `value.split('-')`: the pieces, of which there is at least one
unfoldable pub split : ℕ → Bytes → Bytes × List Bytes
split sep [] = ([], [])
split sep (c ∷ s) =
    let (piece, rest) = split sep s in if c == sep then ([], piece ∷ rest) else (c ∷ piece, rest)

-- `TryFrom<&str>`; `split[1]` panics where there is no dash, and pieces past the second are dropped.
unfoldable pub try_from : Bytes → Result TypeError Height
unfolding split
try_from value =
    let (first, rest) = split b'-' value in
    do
      revision_number ← ok_or (parse_u64 first) (height_conversion value)
      second ← elim rest [ [] ↦ panic | piece ∷ _ ↦ ok piece ]
      revision_height ← ok_or (parse_u64 second) (height_conversion value)
      ok (record { revision_number = revision_number; revision_height = revision_height })
