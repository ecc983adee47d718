-- ===== src/LightClient/Context/Laws.antt =====
-- What is read back from the store after a client's data has been written to it.
use lcp.Base.{◌≡◌, ◌≢◌, refl, sym, some, ok, arith}
use lcp.Base.Equality.{==_iff, ==_refl}
use lcp.Base.Bytes.{Bytes, codes, bytes_PartialEq}
use lcp.Base.Codec.{Codec}
use lcp.Types.Any.{Any, IsAny}
use lcp.Types.Height.{Height}
use lcp.Store.KvStore.{KvStore}
use lcp.LightClient.Path.{
  ClientId, NoSlash, client_type_path, client_path, client_path-injective, client_path-counter,
  client_state_path, next_client_sequence, client_consensus_state_path-counter,
  client_consensus_state_path-ne, client_consensus_state_path,
}
use lcp.LightClient.Context.{
  Context, get, set, client_state, consensus_state, store_client_type, store_any_client_state,
  store_any_consensus_state,
}

module _ {T S : Type 0} ⦃kv : KvStore S⦄ where
  pub get-set_same : (ctx : Context T S) (k v : Bytes) → get (set ctx k v) k ≡ some v
  unfolding set
  get-set_same ctx k v = rw (kv.get-set ctx.store k k v, ==_refl k) refl

  pub get-set_other : (ctx : Context T S) (k j v : Bytes) → k ≢ j → get (set ctx k v) j ≡ get ctx j
  unfolding set
  get-set_other ctx k j v ne = ground (arith, kv.get-set ctx.store k j v, ==_iff k j)

  -- The part of the store that belongs to a client.
  abbrev pub SamePart : ClientId → Context T S → Context T S → Type 0
  SamePart id ctx ctx' =
      (rest : Bytes) → get ctx' (client_path id rest) ≡ get ctx (client_path id rest)

  -- A write to a client's part leaves another client's.
  pub set-SamePart :
      (ctx : Context T S) (id other : ClientId) (rest v : Bytes)
      → NoSlash id
      → NoSlash other
      → id ≢ other
      → SamePart other ctx (set ctx (client_path id rest) v)
  set-SamePart ctx id other rest v h k ne r =
      get-set_other ctx (client_path id rest) (client_path other r) v
        (λ e. ne (client_path-injective id other rest r h k e).0)

  pub client_state-store :
      (bincode : Codec IsAny) (ctx : Context T S) (id : ClientId) (any : Any)
      → IsAny any
      → client_state bincode (store_any_client_state bincode id any ctx) id ≡ ok any
  unfolding client_state store_any_client_state
  client_state-store bincode ctx id any v =
      rw (get-set_same ctx (client_state_path id) (bincode.encode any), bincode.decode-encode any v)
        refl

  pub consensus_state-store :
      (bincode : Codec IsAny) (ctx : Context T S) (id : ClientId) (height : Height) (any : Any)
      → IsAny any
      → consensus_state bincode (store_any_consensus_state bincode id height any ctx) id height
        ≡ ok any
  unfolding consensus_state store_any_consensus_state
  consensus_state-store bincode ctx id height any v =
      rw
        (
          get-set_same ctx (client_consensus_state_path id height) (bincode.encode any),
          bincode.decode-encode any v,
        )
        refl

  pub client_state-consensus :
      (bincode : Codec IsAny) (ctx : Context T S) (id : ClientId) (height : Height) (any : Any)
      → NoSlash id
      → client_state bincode (store_any_consensus_state bincode id height any ctx) id
        ≡ client_state bincode ctx id
  unfolding client_state store_any_consensus_state
  client_state-consensus bincode ctx id height any h =
      rw
        (get-set_other ctx (client_consensus_state_path id height) (client_state_path id)
          (bincode.encode any) (client_consensus_state_path-ne id height h))
        refl

  -- The three writes to a client's part.
  pub store_client_type-SamePart :
      (ctx : Context T S) (id other : ClientId) (client_type : Bytes)
      → NoSlash id
      → NoSlash other
      → id ≢ other
      → SamePart other ctx (store_client_type id client_type ctx)
  unfolding store_client_type client_type_path
  store_client_type-SamePart ctx id other client_type h k ne =
      set-SamePart ctx id other (codes "clientType") client_type h k ne

  pub store_any_client_state-SamePart :
      (bincode : Codec IsAny) (ctx : Context T S) (id other : ClientId) (any : Any)
      → NoSlash id
      → NoSlash other
      → id ≢ other
      → SamePart other ctx (store_any_client_state bincode id any ctx)
  unfolding store_any_client_state client_state_path
  store_any_client_state-SamePart bincode ctx id other any h k ne =
      set-SamePart ctx id other (codes "clientState") (bincode.encode any) h k ne

  pub store_any_consensus_state-SamePart :
      (bincode : Codec IsAny) (ctx : Context T S) (id other : ClientId) (height : Height)
      (any : Any)
      → NoSlash id
      → NoSlash other
      → id ≢ other
      → SamePart other ctx (store_any_consensus_state bincode id height any ctx)
  unfolding store_any_consensus_state client_consensus_state_path
  store_any_consensus_state-SamePart bincode ctx id other height any h k ne =
      set-SamePart ctx id other _ (bincode.encode any) h k ne

  -- The counter's entry is no client's.
  pub client_state-counter :
      (bincode : Codec IsAny) (ctx : Context T S) (id : ClientId) (v : Bytes)
      → client_state bincode (set ctx next_client_sequence v) id ≡ client_state bincode ctx id
  unfolding client_state client_state_path
  client_state-counter bincode ctx id v =
      rw
        (get-set_other ctx next_client_sequence (client_path id (codes "clientState")) v
          (λ e. client_path-counter id (codes "clientState") (sym e)))
        refl

  pub consensus_state-counter :
      (bincode : Codec IsAny) (ctx : Context T S) (id : ClientId) (height : Height) (v : Bytes)
      → consensus_state bincode (set ctx next_client_sequence v) id height
        ≡ consensus_state bincode ctx id height
  unfolding consensus_state
  consensus_state-counter bincode ctx id height v =
      rw
        (get-set_other ctx next_client_sequence (client_consensus_state_path id height) v
          (λ e. client_consensus_state_path-counter id height (sym e)))
        refl
