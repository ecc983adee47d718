-- ===== src/Types/Height/Order.antt =====
-- `Ord` and the checked arithmetic of modules/types/src/height.rs.
use Prim.Native.Nat.{Ordering}
use native.Mathlib.Decide.{dec_lt}
use lcp.Base.{ℕ, ◌+◌, ◌<◌, ◌≤◌, ◌≡◌, ◌⊎◌, inl, inr, ◌↔◌, refl, true, false, ok, err, arith}
use lcp.Base.Decimal.{u64_bound}
use lcp.Types.Errors.{invalid_height_result}
use lcp.Types.Height.{Height, IsHeight, add, sub, cmp, lt}

-- The order that `cmp` computes: by revision number first, then by height.
abbrev pub Lex : Height → Height → Type 0
Lex h k =
    (h.revision_number < k.revision_number)
    ⊎ ((h.revision_number ≡ k.revision_number) × (h.revision_height < k.revision_height))

-- `cmp` says `Less`, `Greater` and `Equal` exactly where the first height is lexicographically
-- below, above and equal to the second.
pub cmp-Lex :
    (h k : Height)
    → ((cmp h k ≡ Ordering.lt) ↔ Lex h k)
      × ((cmp h k ≡ Ordering.gt) ↔ Lex k h)
      × ((cmp h k ≡ Ordering.eq) ↔ (h ≡ k))
unfolding cmp
cmp-Lex h k = (ground arith, ground arith, ground arith)

pub lt_iff : (h k : Height) → (lt h k ≡ true) ↔ Lex h k
unfolding lt
lt_iff h k = ground arith

pub lt_trans : (h k l : Height) → lt h k ≡ true → lt k l ≡ true → lt h l ≡ true
unfolding lt
lt_trans h k l p q = ground arith

pub lt_irrefl : (h : Height) → lt h h ≡ false
unfolding lt
lt_irrefl h = ground arith

-- A height that is not below another is above it or is it.
pub lt_total : (h k : Height) → lt h k ≡ false → (lt k h ≡ true) ⊎ (h ≡ k)
unfolding lt
lt_total h k p = ground arith

-- For a height of `u64` numbers, `add` returns a height from which `sub` returns the first, which
-- is no smaller and of the same revision; it fails exactly where the sum passes `u64`.
pub sub-add :
    (h : Height) (delta : ℕ)
    → IsHeight h
    → ((h.revision_height + delta < u64_bound)
        × ((k : Height) × (add h delta ≡ ok k)
            × IsHeight k
            × (sub k delta ≡ ok h)
            × (lt k h ≡ false)
            × (k.revision_number ≡ h.revision_number)))
      ⊎ ((u64_bound ≤ h.revision_height + delta) × (add h delta ≡ err invalid_height_result))
unfolding add sub lt
sub-add h delta v = elim (dec_lt (h.revision_height + delta) u64_bound) [
  | yes p ↦ inl (
    p,
    (
      record h { revision_height = h.revision_height + delta },
      ground arith,
      (v.0, p),
      ground arith,
      ground arith,
      refl,
    ),
  )
  | no p ↦ inr (ground arith, ground arith)
]
