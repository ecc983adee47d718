-- ===== src/Base/Action.antt =====
-- Code that changes a state and may fail: the state comes back beside an error or a panic too,
-- since what was written stays written.
use mathlib.Core.Path.{◌≡◌, refl}
use lcp.Base.Outcome.{Result, ok, err, panic, map_ok}

abbrev pub Action : Type 0 → Type 0 → Type 0 → Type 0
Action S E A = S → Result E A × S

module _ {S E A : Type 0} where
  abbrev pub pure : A → Action S E A
  pure a s = (ok a, s)

  -- a part that only reads the state
  abbrev pub gets : (S → Result E A) → Action S E A
  gets f s = (f s, s)

  -- a part that does not look at the state
  abbrev pub lift : Result E A → Action S E A
  lift r s = (r, s)

  abbrev pub fail : E → Action S E A
  fail e s = (err e, s)

abbrev pub modify : {S E : Type 0} → (S → S) → Action S E Unit
modify f s = (ok tt, f s)

abbrev pub continue : {S E A B : Type 0} → Result E A → (A → Action S E B) → Action S E B
continue (ok a) f s = f a s
continue (err e) f s = (err e, s)
continue panic f s = (panic, s)

infixl 5 ◌>>=◌ ◌>>◌
abbrev pub ◌>>=◌ : {S E A B : Type 0} → Action S E A → (A → Action S E B) → Action S E B
◌>>=◌ m f s = let (r, s') = m s in continue r f s'

abbrev pub ◌>>◌ : {S E B : Type 0} → Action S E Unit → Action S E B → Action S E B
m >> k = m >>= λ _. k

-- A block that ends by a computation which leaves the state.
pub lift-pure :
    {S E A B : Type 0} (r : Result E A) (f : A → B) (s : S)
    → (lift r >>= λ a. pure (f a)) s ≡ (map_ok f r, s)
lift-pure (ok a) f s = refl
lift-pure (err e) f s = refl
lift-pure panic f s = refl

-- A computation that leaves the state as it is.
abbrev pub Keeps : {S E A : Type 0} → Action S E A → Type 0
Keeps {S} m = (s : S) → (m s).1 ≡ s
