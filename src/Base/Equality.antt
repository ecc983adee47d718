-- ===== src/Base/Equality.antt =====
-- Rust's `PartialEq` as an interface: a test, and that it decides equality.

use Prim.Native.Nat.{ℕ, compare, Ordering}
use mathlib.Core.Path.{◌≡◌, refl, ap}
use mathlib.Core.Option.{Option, none, some}
use mathlib.Core.Logic.{◌↔◌}
use mathlib.Core.Bool.{Bool, true, false, ◌&&◌}
use mathlib.Core.List.{List, [], ◌∷◌}
use native.Mathlib.Omega.{arith}

pub record PartialEq {ℓ} (A : Type ℓ) : Type ℓ where
  pub eq : A → A → Bool
  pub eq_iff : (x y : A) → (eq x y ≡ true) ↔ (x ≡ y)

-- the operators `==` and `!=` of `PartialEq`, here only the first
infix 50 ◌==◌
abbrev pub ◌==◌ {κ} : {T : Type κ} ⦃partial_eq : PartialEq T⦄ → T → T → Bool
◌==◌ ⦃partial_eq⦄ = partial_eq.eq

pub ==_iff {ℓ} : {A : Type ℓ} ⦃e : PartialEq A⦄ (a b : A) → ((a == b) ≡ true) ↔ (a ≡ b)
==_iff ⦃e⦄ = e.eq_iff

pub ==_refl {ℓ} : {A : Type ℓ} ⦃e : PartialEq A⦄ (a : A) → (a == a) ≡ true
==_refl ⦃e⦄ a = (e.eq_iff a a).1 refl

abbrev pub ℕ_eq : ℕ → ℕ → Bool
ℕ_eq a b = elim (compare a b) [ Ordering.eq ↦ true | _ ↦ false ]

pub ℕ_eq_iff : (a b : ℕ) → (ℕ_eq a b ≡ true) ↔ (a ≡ b)
ℕ_eq_iff a b = ground arith

instance abbrev pub ℕ_PartialEq : PartialEq ℕ
ℕ_PartialEq = record { eq = ℕ_eq; eq_iff = ℕ_eq_iff }

unfoldable pub list_eq : List ℕ → List ℕ → Bool
list_eq [] [] = true
list_eq (x ∷ xs) (y ∷ ys) = ℕ_eq x y && list_eq xs ys
list_eq _ _ = false

list_eq_sound : (xs ys : List ℕ) → list_eq xs ys ≡ true → xs ≡ ys
unfolding list_eq
list_eq_sound [] [] h = refl
list_eq_sound [] (y ∷ ys) h = cc
list_eq_sound (x ∷ xs) [] h = cc
list_eq_sound (x ∷ xs) (y ∷ ys) h = ground (arith, list_eq_sound xs ys)

list_eq_refl : (xs : List ℕ) → list_eq xs xs ≡ true
unfolding list_eq
list_eq_refl [] = refl
list_eq_refl (x ∷ xs) = ground (arith, list_eq_refl xs)

pub list_eq_iff : (xs ys : List ℕ) → (list_eq xs ys ≡ true) ↔ (xs ≡ ys)
list_eq_iff xs ys = (list_eq_sound xs ys, λ e. rw e (list_eq_refl ys))

module _ {ℓ} {A : Type ℓ} ⦃e : PartialEq A⦄ where
  unfoldable pub option_eq : Option A → Option A → Bool
  option_eq none none = true
  option_eq (some a) (some b) = e.eq a b
  option_eq _ _ = false

  pub option_eq_iff : (a b : Option A) → (option_eq a b ≡ true) ↔ (a ≡ b)
  unfolding option_eq
  option_eq_iff none none = (λ _. refl, λ _. refl)
  option_eq_iff none (some b) = (λ h. cc, λ h. cc)
  option_eq_iff (some a) none = (λ h. cc, λ h. cc)
  option_eq_iff (some a) (some b) =
      (λ h. ap some ((e.eq_iff a b).0 h), λ h. (e.eq_iff a b).1 (cc h))

instance abbrev pub option_PartialEq {ℓ} : {A : Type ℓ} ⦃e : PartialEq A⦄ → PartialEq (Option A)
option_PartialEq = record { eq = option_eq; eq_iff = option_eq_iff }
