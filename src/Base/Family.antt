-- ===== src/Base/Family.antt =====
-- A map as a function of its keys, with one entry changed.
use mathlib.Core.Path.{◌≡◌, refl}
use mathlib.Core.Logic.{◌≢◌}
use native.Mathlib.Omega.{arith}
use lcp.Base.Tests.{if◌then◌else◌}
use lcp.Base.Equality.{PartialEq, ◌==◌, ==_iff, ==_refl}

module _ {K V : Type 0} ⦃eq : PartialEq K⦄ where
  unfoldable pub update : (K → V) → K → V → K → V
  update f k v j = if k == j then v else f j

  pub update-same : (f : K → V) (k : K) (v : V) → update f k v k ≡ v
  unfolding update
  update-same f k v = rw (==_refl k) refl

  pub update-other : (f : K → V) (k : K) (v : V) (j : K) → k ≢ j → update f k v j ≡ f j
  unfolding update
  update-other f k v j ne = ground (arith, ==_iff k j)
