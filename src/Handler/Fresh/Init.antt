-- ===== src/Handler/Fresh/Init.antt =====
-- What `init_client` does to the names and to the other clients
-- (enclave-modules/ecall-handler/src/light_client/init_client.rs).
use lcp.Base.{
  ℕ, suc, ◌+◌, ◌%◌, ◌^◌, ◌<◌, ◌≡◌, ◌≢◌, refl, sym, ◌∙◌, some, ok, inl, inr, Result-cases, arith,
}
use lcp.Base.Bytes.{Bytes, codes}
use lcp.Base.Decimal.{u64_bound}
use lcp.Types.Time.{TmTime}
use lcp.Types.Any.{Any}
use lcp.Types.Height.{Height}
use lcp.Types.Host.{from_str, from_str-ok}
use lcp.Crypto.{Signer}
use lcp.Store.KvStore.{KvStore}
use lcp.LightClient.Path.{
  ClientId, NoSlash, client_path, client_path-counter, next_client_sequence, client_state_path,
}
use lcp.LightClient.Path.Names.{before-eq, client_name, client_name-injective}
use lcp.LightClient.Context.{
  Context, get, set_timestamp, client_counter, store_client_type, store_any_client_state,
}
use lcp.LightClient.Context.Laws.{
  SamePart, get-set_other, store_client_type-SamePart, store_any_client_state-SamePart,
  store_any_consensus_state-SamePart,
}
use lcp.Commands.{InitClientInput}
use lcp.Handler.{Env}
use lcp.Handler.Init.{gen_client_id, init_client}
use lcp.Handler.Init.Cases.{write_client, Creates, after_init, init_client-cases}
use lcp.Handler.Fresh.{
  Unused, Fresh, IsUsed, store_client_type-Unused, store_any_client_state-Unused,
  store_any_consensus_state-Unused, Unused-counter, client_counter-next,
}

module _ {T PK SK S : Type 0} ⦃tm : TmTime T⦄ ⦃kv : KvStore S⦄ (env : Env T PK SK S) where
  -- A generated identifier is the name with its counter, and has no slash.
  pub gen_client_id-ok :
      (client_type : Bytes) (n : ℕ) {id : ClientId}
      → gen_client_id env client_type n ≡ ok id
      → (id ≡ client_name client_type n) × NoSlash id
  unfolding gen_client_id
  gen_client_id-ok client_type n h =
      elim (Result-cases (from_str env.unicode_alphanumeric (client_name client_type n))) [
        | inr e ↦ absurd (ground arith)
        | inl (s, e) ↦
            let (same, least, most, clean, cs) =
              from_str-ok env.unicode_alphanumeric (client_name client_type n) e in
            let eq : _ ≡ client_name client_type n = ground arith in (eq, rw eq clean)
      ]

  name-IsUsed :
      (client_type : Bytes) (n : ℕ)
      → NoSlash (client_name client_type n)
      → n < u64_bound
      → IsUsed (client_name client_type n) (n + 1)
  name-IsUsed client_type n safe small other m safe_m le lt e =
      let f =
        client_name-injective client_type other n m small lt
          (sym (before-eq (client_name client_type n) safe) ∙ e) in
      omega arith

  write_client-Unused :
      (ctx : Context T S) (n : ℕ) (id : ClientId) (client_type : Bytes) (any : Any)
      (height : Height) (consensus : Any)
      → IsUsed id n
      → Unused ctx n
      → Unused (write_client env id client_type any height consensus ctx) n
  write_client-Unused ctx n id client_type any height consensus used u =
      let typed = store_client_type id client_type ctx in
      store_any_consensus_state-Unused env.bincode (store_any_client_state env.bincode id any typed)
        n id height consensus used
        (store_any_client_state-Unused env.bincode typed n id any used
          (store_client_type-Unused ctx n id client_type used u))

  write_client-SamePart :
      (ctx : Context T S) (id other : ClientId) (client_type : Bytes) (any : Any) (height : Height)
      (consensus : Any)
      → NoSlash id
      → NoSlash other
      → id ≢ other
      → SamePart other ctx (write_client env id client_type any height consensus ctx)
  write_client-SamePart ctx id other client_type any height consensus h k ne r =
      let typed = store_client_type id client_type ctx in
      store_any_consensus_state-SamePart env.bincode
        (store_any_client_state env.bincode id any typed) id other height consensus h k ne r
      ∙ (store_any_client_state-SamePart env.bincode typed id other any h k ne r
          ∙ store_client_type-SamePart ctx id other client_type h k ne r)

  -- Creating a client uses up one name and leaves the later ones free.
  after_init-Fresh :
      (ctx : Context T S) (input : InitClientInput T) (k : ℕ) (c : Creates env ctx input)
      → suc k < u64_bound
      → Fresh k ctx
      → Fresh (suc k) (after_init env ctx input c)
  unfolding set_timestamp client_counter
  after_init-Fresh ctx input k c small f =
      let n = c.counter in
      let same : f.counter ≡ n = ground (arith, f.counted, c.counted) in
      let (name, safe) = gen_client_id-ok c.lc.client_type n c.named in
      let next : (n + 1) % 2 ^ 64 ≡ n + 1 = omega (arith, f.few) in
      let ctx1 = set_timestamp ctx input.current_timestamp in
      let ctx2 =
        write_client env c.client_id c.lc.client_type input.any_client_state c.res.height
          input.any_consensus_state ctx1 in
      record {
        counter = n + 1;
        counted = rw next (client_counter-next ctx2 (n + 1) (omega (arith, f.few)));
        few = omega (arith, f.few);
        unused = Unused-counter ctx2 (n + 1) _ (
            write_client-Unused ctx1 (n + 1) c.client_id c.lc.client_type input.any_client_state
              c.res.height input.any_consensus_state
              (rw name (name-IsUsed c.lc.client_type n (rw name at safe) (omega (arith, f.few))))
              (λ t m r h le lt. f.unused t m r h (omega arith) lt));
      }

  pub init_client-Fresh :
      (ctx : Context T S) (ek : Signer PK) (input : InitClientInput T) (k : ℕ)
      → suc k < u64_bound
      → Fresh k ctx
      → Fresh (suc k) (init_client env ek input ctx).1
  unfolding set_timestamp client_counter
  init_client-Fresh ctx ek input k small f = elim (init_client-cases env ctx ek input) [
    | inr (same, none_) ↦ rw same (record {
      counter = f.counter;
      counted = f.counted;
      few = omega (arith, f.few);
      unused = f.unused;
    })
    | inl (c, same, made) ↦ rw same (after_init-Fresh ctx input k c small f)
  ]

  -- A client that has a state keeps its part of the store, since its name is not the new one.
  pub init_client-SamePart :
      (ctx : Context T S) (ek : Signer PK) (input : InitClientInput T) (k : ℕ) (other : ClientId)
      {v : Bytes}
      → suc k < u64_bound
      → Fresh k ctx
      → NoSlash other
      → get ctx (client_state_path other) ≡ some v
      → SamePart other ctx (init_client env ek input ctx).1
  unfolding client_state_path client_counter set_timestamp
  init_client-SamePart ctx ek input k other small f safe there r =
      elim (init_client-cases env ctx ek input) [
        | inr (same, none_) ↦ rw same refl
        | inl (c, same, made) ↦
            let (name, clean) = gen_client_id-ok c.lc.client_type c.counter c.named in
            let count : f.counter ≡ c.counter = ground (arith, f.counted, c.counted) in
            let ne : c.client_id ≢ other = λ e.
              let free =
                f.unused c.lc.client_type c.counter (codes "clientState") (rw name at clean)
                  (omega arith) (omega (arith, f.few)) in
              cc (there, rw (← name, e) at free) in
            let ctx1 = set_timestamp ctx input.current_timestamp in
            let ctx2 =
              write_client env c.client_id c.lc.client_type input.any_client_state c.res.height
                input.any_consensus_state ctx1 in
            rw same (
              get-set_other ctx2 next_client_sequence (client_path other r) _
                (λ e. client_path-counter other r (sym e))
              ∙ write_client-SamePart ctx1 c.client_id other c.lc.client_type input.any_client_state
                  c.res.height input.any_consensus_state clean safe ne r)
      ]
