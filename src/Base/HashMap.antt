-- ===== src/Base/HashMap.antt =====
-- The standard library's `HashMap` and `BTreeMap` with byte string keys, as an association list in
-- which each key stands once.
use mathlib.Core.Path.{◌≡◌, refl}
use mathlib.Core.Option.{Option, none, some}
use mathlib.Core.List.{List, [], ◌∷◌}
use native.Mathlib.Omega.{arith}
use lcp.Base.Tests.{if◌then◌else◌}
use lcp.Base.Equality.{◌==◌, ==_iff}
use lcp.Base.Bytes.{Bytes, bytes_PartialEq}

abbrev pub HashMap : Type 0 → Type 0
HashMap V = List (Bytes × V)

module _ {V : Type 0} where
  unfoldable pub get : Bytes → HashMap V → Option V
  get k [] = none
  get k ((j, v) ∷ m) = if j == k then some v else get k m

  unfoldable pub insert : Bytes → V → HashMap V → HashMap V
  insert key value [] = (key, value) ∷ []
  insert key value (entry ∷ rest) =
      if entry.0 == key then (key, value) ∷ rest else entry ∷ insert key value rest

  unfoldable pub remove : Bytes → HashMap V → HashMap V
  remove k [] = []
  remove k ((j, w) ∷ m) = let rest = remove k m in if j == k then rest else (j, w) ∷ rest

  pub get-insert :
      (j k : Bytes) (v : V) (m : HashMap V)
      → get j (insert k v m) ≡ (if k == j then some v else get j m)
  unfolding get insert
  get-insert j k v [] = refl
  get-insert j k v ((i, w) ∷ m) =
      ground (arith, ==_iff k j, ==_iff i k, ==_iff i j, get-insert j k v m)

  pub get-remove :
      (j k : Bytes) (m : HashMap V) → get j (remove k m) ≡ (if k == j then none else get j m)
  unfolding get remove
  get-remove j k [] = ground arith
  get-remove j k ((i, w) ∷ m) = ground (arith, ==_iff k j, ==_iff i k, ==_iff i j, get-remove j k m)

  -- Each key stands once.
  abbrev pub IsMap : HashMap V → Type 0
  IsMap [] = Unit
  IsMap ((k, v) ∷ m) = (get k m ≡ none) × IsMap m

  pub insert-IsMap : (k : Bytes) (v : V) (m : HashMap V) → IsMap m → IsMap (insert k v m)
  unfolding get insert
  insert-IsMap k v [] h = (refl, tt)
  insert-IsMap k v ((j, w) ∷ m) h =
      ground (arith, ==_iff j k, ==_iff k j, insert-IsMap k v m h.1, get-insert j k v m)

pub ruleset map_laws = (get-insert, get-remove)
