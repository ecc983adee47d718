-- ===== src/LightClient/Registry/Calls.antt =====
-- Any sequence of calls of a registry (modules/light-client/src/registry.rs).
use lcp.Base.{
  ◌≡◌, refl, ap, ◌∙◌, Bool-cases, Option-cases, inl, inr, true, some, List, [], ◌∷◌, ok, arith,
}
use lcp.Base.Equality.{==_iff}
use lcp.Base.Bytes.{Bytes, bytes_PartialEq}
use lcp.Base.HashMap.{get-insert}
use lcp.LightClient.Registry.{MapLightClientRegistry, seal, get_light_client, put_light_client}

pub data Call (L : Type 0) : Type 0 where
  puts : Bytes → L → Call L
  seals : Call L

module _ {L : Type 0} where
  -- the registry after a call, whether it succeeds or not
  abbrev pub call : Call L → MapLightClientRegistry L → MapLightClientRegistry L
  call (puts url lc) r = (put_light_client url lc r).1
  call seals r = (seal r).1

  abbrev pub calls : List (Call L) → MapLightClientRegistry L → MapLightClientRegistry L
  calls [] r = r
  calls (c ∷ cs) r = calls cs (call c r)

  call-get :
      (c : Call L) (r : MapLightClientRegistry L) (url : Bytes) {lc : L}
      → get_light_client url r ≡ some lc
      → get_light_client url (call c r) ≡ some lc
  unfolding get_light_client put_light_client seal
  call-get (puts u l) r url h = elim (Bool-cases r.sealed) [
    | inl e ↦ ground arith
    | inr e ↦ elim (Option-cases (get_light_client u r)) [
      | inl f ↦ ground (arith, get-insert url u l r.registry, ==_iff u url)
      | inr (x, f) ↦ ground arith
    ]
  ]
  call-get seals r url h = ground arith

  calls-get :
      (cs : List (Call L)) (r : MapLightClientRegistry L) (url : Bytes) {lc : L}
      → get_light_client url r ≡ some lc
      → get_light_client url (calls cs r) ≡ some lc
  calls-get [] r url h = h
  calls-get (c ∷ cs) r url h = calls-get cs (call c r) url (call-get c r url h)

  put-get :
      (r : MapLightClientRegistry L) (url : Bytes) (lc : L)
      → (put_light_client url lc r).0 ≡ ok tt
      → get_light_client url (put_light_client url lc r).1 ≡ some lc
  unfolding get_light_client put_light_client
  put-get r url lc h = ground (arith, get-insert url url lc r.registry, ==_iff url url)

  -- A light client that `put_light_client` has accepted is the one that its type URL names after any
  -- further calls, accepted, refused or panicking.
  pub put-lasting :
      (r : MapLightClientRegistry L) (url : Bytes) (lc : L) (cs : List (Call L))
      → (put_light_client url lc r).0 ≡ ok tt
      → get_light_client url (calls cs (put_light_client url lc r).1) ≡ some lc
  put-lasting r url lc cs h = calls-get cs (put_light_client url lc r).1 url (put-get r url lc h)

  call-sealed : (c : Call L) (r : MapLightClientRegistry L) → r.sealed ≡ true → call c r ≡ r
  unfolding put_light_client seal
  call-sealed (puts url lc) r h = ground arith
  call-sealed seals r h = ground arith

  -- No call changes a sealed registry.
  pub calls-sealed :
      (r : MapLightClientRegistry L) (cs : List (Call L)) → r.sealed ≡ true → calls cs r ≡ r
  calls-sealed r [] h = refl
  calls-sealed r (c ∷ cs) h = ap (calls cs) (call-sealed c r h) ∙ calls-sealed r cs h
