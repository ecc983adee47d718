-- ===== src/Store/Cache.antt =====
-- modules/store/src/cache.rs: a cache of reads before another store. `get` fills the cache through a
-- `RefCell`, so it returns the new state beside the value.
use lcp.Base.{
  ◌≡◌, refl, sym, ap, ◌∙◌, List, [], ◌∷◌, Option, none, some, Option-cases, inl, inr, arith,
}
use lcp.Base.Equality.{==_iff}
use lcp.Base.Bytes.{Bytes, bytes_PartialEq}
use lcp.Base.HashMap
use lcp.Base.HashMap.{HashMap, get-insert}
use lcp.Store.KvStore.{KvStore}

pub record CacheKvs (S : Type 0) : Type 0 where
  pub parent : S
  pub cache : HashMap (Option Bytes)

unfoldable pub new : {S : Type 0} → S → CacheKvs S
new parent = record { parent = parent; cache = [] }

module _ {S : Type 0} ⦃kv : KvStore S⦄ where
  unfoldable pub set : CacheKvs S → Bytes → Bytes → CacheKvs S
  set c key value = record {
    parent = kv.set c.parent key value;
    cache = HashMap.insert key (some value) c.cache;
  }

  unfoldable pub remove : CacheKvs S → Bytes → CacheKvs S
  remove c key = record { parent = kv.remove c.parent key; cache = HashMap.insert key none c.cache }

  unfoldable pub get : CacheKvs S → Bytes → Option Bytes × CacheKvs S
  get c key = elim (HashMap.get key c.cache) [
    | some v ↦ (v, c)
    | none ↦ let v = kv.get c.parent key in (v, record c { cache = HashMap.insert key v c.cache })
  ]

  -- What is cached is what the parent holds.
  pub record IsCoherent (c : CacheKvs S) : Type 0 where
    pub at : (k : Bytes) (o : Option Bytes) → HashMap.get k c.cache ≡ some o → kv.get c.parent k ≡ o

  -- Over a coherent cache a read returns the parent's value, leaves the parent, and keeps the cache
  -- coherent.
  pub get-IsCoherent :
      (c : CacheKvs S) (key : Bytes)
      → IsCoherent c
      → ((get c key).0 ≡ kv.get c.parent key)
        × ((get c key).1.parent ≡ c.parent)
        × IsCoherent (get c key).1
  unfolding get
  get-IsCoherent c key h = elim (Option-cases (HashMap.get key c.cache)) [
    | inr (v, e) ↦ rw (e, get) (sym (h.at key v e), refl, h)
    | inl e ↦
        rw (e, get)
          (
            refl,
            refl,
            record {
              at = λ k o p. ground (
                arith,
                h.at k o,
                get-insert k key (kv.get c.parent key) c.cache,
                ==_iff key k,
                p,
              );
            },
          )
  ]

  -- Writes and removals through the cache reach the parent and keep the cache coherent.
  pub set-IsCoherent :
      (c : CacheKvs S) (key value : Bytes)
      → IsCoherent c
      → ((set c key value).parent ≡ kv.set c.parent key value) × IsCoherent (set c key value)
  unfolding set
  set-IsCoherent c key value h = (
    refl,
    record {
      at = λ k o p.
          ground (
            arith,
            h.at k o,
            get-insert k key (some value) c.cache,
            kv.get-set c.parent key k value,
          );
    },
  )

  pub remove-IsCoherent :
      (c : CacheKvs S) (key : Bytes)
      → IsCoherent c
      → ((remove c key).parent ≡ kv.remove c.parent key) × IsCoherent (remove c key)
  unfolding remove
  remove-IsCoherent c key h = (
    refl,
    record {
      at = λ k o p.
          ground (arith, h.at k o, get-insert k key none c.cache, kv.get-remove c.parent key k);
    },
  )

-- What a client does with a store.
pub data Request : Type 0 where
  get_request : Bytes → Request
  set_request : Bytes → Bytes → Request
  remove_request : Bytes → Request

module _ {S : Type 0} ⦃kv : KvStore S⦄ where
  -- The answers of the store itself, and the store after the requests.
  pub run : List Request → S → List (Option Bytes) × S
  run [] s = ([], s)
  run (get_request k ∷ rs) s = let (out, s') = run rs s in (kv.get s k ∷ out, s')
  run (set_request k v ∷ rs) s = run rs (kv.set s k v)
  run (remove_request k ∷ rs) s = run rs (kv.remove s k)

  -- The answers through the cache.
  pub run_cached : List Request → CacheKvs S → List (Option Bytes) × CacheKvs S
  run_cached [] c = ([], c)
  run_cached (get_request k ∷ rs) c =
      let (v, c') = get c k in let (out, c'') = run_cached rs c' in (v ∷ out, c'')
  run_cached (set_request k v ∷ rs) c = run_cached rs (set c k v)
  run_cached (remove_request k ∷ rs) c = run_cached rs (remove c k)

  run_cached-IsCoherent :
      (rs : List Request) (c : CacheKvs S)
      → IsCoherent c
      → ((run_cached rs c).0 ≡ (run rs c.parent).0)
        × ((run_cached rs c).1.parent ≡ (run rs c.parent).1)
  unfolding run run_cached set remove
  run_cached-IsCoherent [] c h = (refl, refl)
  run_cached-IsCoherent (get_request k ∷ rs) c h =
      let (value, parent, coherent) = get-IsCoherent c k h in
      let (out, end_) = run_cached-IsCoherent rs (get c k).1 coherent in
      (ground (arith), end_ ∙ ap (λ s. (run rs s).1) parent)
  run_cached-IsCoherent (set_request k v ∷ rs) c h =
      run_cached-IsCoherent rs (set c k v) (set-IsCoherent c k v h).1
  run_cached-IsCoherent (remove_request k ∷ rs) c h =
      run_cached-IsCoherent rs (remove c k) (remove-IsCoherent c k h).1

  -- Through a new cache, any requests have the answers that the store itself gives, and leave the
  -- store itself in the same state.
  pub run_cached-new :
      (rs : List Request) (s : S)
      → ((run_cached rs (new s)).0 ≡ (run rs s).0)
        × ((run_cached rs (new s)).1.parent ≡ (run rs s).1)
  unfolding new
  run_cached-new rs s =
      run_cached-IsCoherent rs (new s) (record { at = λ k o p. unfold HashMap.get in cc p })
