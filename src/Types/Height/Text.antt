-- ===== src/Types/Height/Text.antt =====
-- `Display` and `TryFrom<&str>` of modules/types/src/height.rs.
use lcp.Base.{ℕ, ◌≤◌, ◌≢◌, ◌≡◌, refl, [], ◌∷◌, ◌++◌, some, ok, panic, All, arith}
use lcp.Base.Bytes.{Bytes, codes}
use lcp.Base.Decimal.{to_string, parse_u64, to_string-IsDigit, parse_u64-to_string}
use lcp.Types.Height.{Height, IsHeight, display, split, try_from}

abbrev Lacks : ℕ → Bytes → Type 0
Lacks c = All (λ b. b ≢ c)

digits-Lacks : (s : Bytes) → All (λ c. (48 ≤ c) × (c ≤ 57)) s → Lacks b'-' s
digits-Lacks [] h = tt
digits-Lacks (c ∷ s) h = (omega arith, digits-Lacks s h.1)

split-Lacks : (sep : ℕ) (s : Bytes) → Lacks sep s → split sep s ≡ (s, [])
unfolding split
split-Lacks sep [] h = refl
split-Lacks sep (c ∷ s) h = ground (arith, split-Lacks sep s h.1)

split-append :
    (sep : ℕ) (s r : Bytes) → Lacks sep s → Lacks sep r → split sep (s ++ sep ∷ r) ≡ (s, r ∷ [])
unfolding split
split-append sep [] r h k = ground (arith, split-Lacks sep r k)
split-append sep (c ∷ s) r h k = ground (arith, split-append sep s r h.1 k)

to_string-Lacks : (n : ℕ) → Lacks b'-' (to_string n)
to_string-Lacks n = digits-Lacks (to_string n) (to_string-IsDigit n)

split-display :
    (h : Height)
    → split b'-' (display h) ≡ (to_string h.revision_number, to_string h.revision_height ∷ [])
unfolding display
split-display h =
    split-append b'-' (to_string h.revision_number) (to_string h.revision_height)
      (to_string-Lacks h.revision_number) (to_string-Lacks h.revision_height)

-- A height of `u64` numbers is read back from what `Display` prints.
pub try_from-display : (h : Height) → IsHeight h → try_from (display h) ≡ ok h
unfolding try_from
try_from-display h v =
    rw
      (
        split-display h,
        parse_u64-to_string h.revision_number v.0,
        parse_u64-to_string h.revision_height v.1,
      )
      refl

-- A text with no dash that is a `u64` is not refused with an error: the conversion panics.
pub try_from_panics : (s : Bytes) {n : ℕ} → Lacks b'-' s → parse_u64 s ≡ some n → try_from s ≡ panic
unfolding try_from
try_from_panics s h e = rw (split-Lacks b'-' s h, e) refl

reads : try_from (codes "12-345") ≡ ok (record { revision_number = 12; revision_height = 345 })
unfolding try_from parse_u64
reads = refl
