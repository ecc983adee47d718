-- ===== src/Base/Outcome.antt =====
-- Rust's `Result`, with a third case for a panic (`assert!`, `unwrap`, an index out of range).
use mathlib.Core.Path.{◌≡◌, refl}
use mathlib.Core.Logic.{◌↔◌, ◌⊎◌, inl, inr}
use mathlib.Core.Bool.{Bool, true, false}
use mathlib.Core.Option.{Option, none, some}
use native.Mathlib.Omega.{arith}

pub data Result {ℓ κ} (E : Type ℓ) (A : Type κ) : Type (ℓ ⊔ κ) where
  ok : A → Result E A
  err : E → Result E A
  panic : Result E A

module _ {ℓ κ μ} {E : Type ℓ} {A : Type κ} {B : Type μ} where
  infixl 5 ◌>>=◌
  -- the operator `?`
  abbrev pub ◌>>=◌ : Result E A → (A → Result E B) → Result E B
  ok a >>= f = f a
  err e >>= f = err e
  panic >>= f = panic

  -- What a block that returned did on the way.
  pub >>=-eq-ok :
      (r : Result E A) (next : A → Result E B) {y : B}
      → (r >>= next) ≡ ok y
      → (x : A) × (r ≡ ok x) × (next x ≡ ok y)
  >>=-eq-ok (err e) next h = cc
  >>=-eq-ok panic next h = cc
  >>=-eq-ok (ok x) next h = (x, refl, h)

infixl 5 ◌>>◌
abbrev pub ◌>>◌ {ℓ κ} : {E : Type ℓ} {B : Type κ} → Result E (Unit {0}) → Result E B → Result E B
m >> k = m >>= λ _. k

module _ {ℓ κ μ} {E : Type ℓ} {F : Type μ} {A : Type κ} where
  -- `map_err`, and the conversion that `?` makes by `From`
  abbrev pub map_err : (E → F) → Result E A → Result F A
  map_err f (ok a) = ok a
  map_err f (err e) = err (f e)
  map_err f panic = panic

  -- `unwrap`
  abbrev pub unwrap : Result E A → Result F A
  unwrap (ok a) = ok a
  unwrap (err e) = panic
  unwrap panic = panic

  pub map_err-eq-ok : (f : E → F) (r : Result E A) {a : A} → map_err f r ≡ ok a → r ≡ ok a
  map_err-eq-ok f (ok b) h = cc
  map_err-eq-ok f (err e) h = cc
  map_err-eq-ok f panic h = cc

-- `Result::map`
abbrev pub map_ok {ℓ κ μ} :
    {E : Type ℓ} {A : Type κ} {B : Type μ} → (A → B) → Result E A → Result E B
map_ok f (ok a) = ok (f a)
map_ok f (err e) = err e
map_ok f panic = panic

pub map_ok-eq-ok {ℓ κ μ} :
    {E : Type ℓ} {A : Type κ} {B : Type μ} (f : A → B) (r : Result E A) {y : B}
    → map_ok f r ≡ ok y
    → (x : A) × (r ≡ ok x) × (f x ≡ y)
map_ok-eq-ok f (ok a) h = (a, refl, ground arith)
map_ok-eq-ok f (err e) h = cc
map_ok-eq-ok f panic h = cc

module _ {ℓ κ} {E : Type ℓ} {A : Type κ} where
  abbrev pub ok_or : Option A → E → Result E A
  ok_or none e = err e
  ok_or (some a) e = ok a

  -- `Option::unwrap`
  abbrev pub expect : Option A → Result E A
  expect none = panic
  expect (some a) = ok a

  pub ok_or-eq-ok : (o : Option A) (e : E) {a : A} → ok_or o e ≡ ok a → o ≡ some a
  ok_or-eq-ok o e h = ground arith

  pub expect-eq-ok : (o : Option A) {a : A} → expect o ≡ ok a → o ≡ some a
  expect-eq-ok o h = ground arith

module _ {ℓ} {E : Type ℓ} where
  -- `if !b { return Err(e) }`
  abbrev pub ensure : Bool → E → Result E (Unit {0})
  ensure true e = ok tt
  ensure false e = err e

  -- `assert!(b)`
  abbrev pub assert : Bool → Result E (Unit {0})
  assert true = ok tt
  assert false = panic

-- Two checks in a row pass exactly if both do.
pub >>_iff {ℓ} :
    {E : Type ℓ} (m k : Result E (Unit {0})) → ((m >> k) ≡ ok tt) ↔ ((m ≡ ok tt) × (k ≡ ok tt))
>>_iff (ok u) k = (λ h. (refl, h), λ h. h.1)
>>_iff (err e) k = (λ h. cc, λ h. cc (h.0))
>>_iff panic k = (λ h. cc, λ h. cc (h.0))

-- To split on a result and keep the equation.
pub Result-cases {ℓ κ} :
    {E : Type ℓ} {A : Type κ} (r : Result E A)
    → ((a : A) × (r ≡ ok a)) ⊎ ((e : E) × (r ≡ err e)) ⊎ (r ≡ panic)
Result-cases (ok a) = inl (a, refl)
Result-cases (err e) = inr (inl (e, refl))
Result-cases panic = inr (inr refl)
