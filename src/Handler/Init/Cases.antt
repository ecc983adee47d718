-- ===== src/Handler/Init/Cases.antt =====
-- Every way in which `init_client` can end
-- (enclave-modules/ecall-handler/src/light_client/init_client.rs).
use lcp.Base.{
  ℕ, ◌+◌, ◌%◌, ◌^◌, ◌≡◌, ◌≢◌, ◌⊎◌, refl, ◌∙◌, ap, inl, inr, some, Option-cases, Result-cases, ok,
  map_ok, arith,
}
use lcp.Base.Bytes.{Bytes, to_be_bytes}
use lcp.Base.Action.{lift-pure}
use lcp.Types.Time.{TmTime}
use lcp.Types.Any.{Any}
use lcp.Types.Height.{Height}
use lcp.Crypto.{Signer}
use lcp.Commitments.Proof.{CommitmentProof}
use lcp.Store.KvStore.{KvStore}
use lcp.LightClient.Path.{
  ClientId, client_path, client_path-counter, next_client_sequence, client_type_path,
  client_state_path, client_consensus_state_path,
}
use lcp.LightClient.Client.{LightClient, CreateClientResult}
use lcp.LightClient.Context.{
  Context, set, set_timestamp, client_counter, store_client_type, store_any_client_state,
  store_any_consensus_state, increase_client_counter,
}
use lcp.LightClient.Context.Laws.{get-set_other}
use lcp.Commands.{InitClientInput, LightClientResponse, init_client_response}
use lcp.Handler.{Env, make_proof}
use lcp.Handler.Init.{gen_client_id, advance_counter, init_client}

abbrev pub answer : ClientId → CommitmentProof → LightClientResponse
answer id proof = init_client_response (record { client_id = id; proof = proof })

module _ {T S : Type 0} ⦃kv : KvStore S⦄ where
  -- the write of the counter after `n`
  abbrev pub next_counter : ℕ → Context T S → Context T S
  next_counter n ctx = set ctx next_client_sequence (to_be_bytes 8 ((n + 1) % 2 ^ 64))

  -- The counter is no client's.
  pub client_counter-set :
      (ctx : Context T S) (id : ClientId) (rest v : Bytes)
      → client_counter (set ctx (client_path id rest) v) ≡ client_counter ctx
  unfolding client_counter
  client_counter-set ctx id rest v =
      rw
        (
          get-set_other ctx (client_path id rest) next_client_sequence v
              (client_path-counter id rest),
          client_counter,
        )
        refl

module _ {T PK SK S : Type 0} ⦃tm : TmTime T⦄ ⦃kv : KvStore S⦄ (env : Env T PK SK S) where
  -- the three writes of a new client's data
  abbrev pub write_client : ClientId → Bytes → Any → Height → Any → Context T S → Context T S
  write_client id client_type any height consensus ctx =
      store_any_consensus_state env.bincode id height consensus
        (store_any_client_state env.bincode id any (store_client_type id client_type ctx))

  client_counter-write_client :
      (ctx : Context T S) (id : ClientId) (client_type : Bytes) (any : Any) (height : Height)
      (consensus : Any)
      → client_counter (write_client id client_type any height consensus ctx) ≡ client_counter ctx
  unfolding store_any_consensus_state store_any_client_state store_client_type client_type_path
      client_state_path client_consensus_state_path
  client_counter-write_client ctx id client_type any height consensus =
      client_counter-set _ id _ _ ∙ (client_counter-set _ id _ _ ∙ client_counter-set ctx id _ _)

  advance-write_client :
      (ctx : Context T S) (id : ClientId) (client_type : Bytes) (any : Any) (height : Height)
      (consensus : Any) {n : ℕ}
      → client_counter ctx ≡ ok n
      → let ctx' = write_client id client_type any height consensus ctx in
        advance_counter ctx' ≡ (ok tt, next_counter n ctx')
  unfolding advance_counter increase_client_counter
  advance-write_client ctx id client_type any height consensus h =
      rw
        (
          client_counter-write_client ctx id client_type any height consensus ∙ h,
          advance_counter,
          increase_client_counter,
        )
        refl

  -- A run that has written: the light client it has asked, what that answered, and the identifier.
  pub record Creates (ctx : Context T S) (input : InitClientInput T) : Type 0 where
    pub lc : LightClient T S
    pub res : CreateClientResult T
    pub counter : ℕ
    pub client_id : ClientId
    pub found : env.get_light_client input.any_client_state.type_url ≡ some lc
    pub created :
        lc.create_client
          (set_timestamp ctx input.current_timestamp)
          input.any_client_state
          input.any_consensus_state
        ≡ ok res
    pub counted : client_counter ctx ≡ ok counter
    pub named : gen_client_id env lc.client_type counter ≡ ok client_id

  abbrev pub after_init :
      (ctx : Context T S) (input : InitClientInput T) → Creates ctx input → Context T S
  after_init ctx input c = next_counter c.counter (
      write_client c.client_id c.lc.client_type input.any_client_state c.res.height
        input.any_consensus_state (set_timestamp ctx input.current_timestamp))

  -- Either all four entries are written and what is left is to make the proof, or nothing is
  -- written and there is no response.
  pub init_client-cases :
      (ctx : Context T S) (ek : Signer PK) (input : InitClientInput T)
      → let (r, ctx') = init_client env ek input ctx in
        ((c : Creates ctx input) × (ctx' ≡ after_init ctx input c)
          × (r
              ≡ map_ok
                  (answer c.client_id)
                  (make_proof env ek input.signer c.res.message c.res.prove)))
        ⊎ ((ctx' ≡ set_timestamp ctx input.current_timestamp)
            × ((response : LightClientResponse) → r ≢ ok response))
  unfolding init_client client_counter set_timestamp
  init_client-cases ctx ek input =
      let ctx1 = set_timestamp ctx input.current_timestamp in
      elim (Option-cases (env.get_light_client input.any_client_state.type_url)) [
        | inl a ↦ inr (ground arith)
        | inr (lc, a) ↦
            elim (Result-cases
              (lc.create_client ctx1 input.any_client_state input.any_consensus_state)) [
                | inr b ↦ inr (ground arith)
                | inl (res, b) ↦ elim (Result-cases (client_counter ctx1)) [
                  | inr c ↦ inr (ground arith)
                  | inl (n, c) ↦ elim (Result-cases (gen_client_id env lc.client_type n)) [
                    | inr d ↦ inr (ground arith)
                    | inl (id, d) ↦
                        let e =
                          advance-write_client ctx1 id lc.client_type input.any_client_state
                            res.height input.any_consensus_state c in
                        let f =
                          lift-pure (make_proof env ek input.signer res.message res.prove)
                            (answer id)
                            (next_counter n (
                              write_client id lc.client_type input.any_client_state res.height
                                input.any_consensus_state ctx1)) in
                        inl (
                          record {
                            lc = lc;
                            res = res;
                            counter = n;
                            client_id = id;
                            found = a;
                            created = b;
                            counted = c;
                            named = d;
                          },
                          rw (a, b, c, d, e) (ap (λ x. x.1) f),
                          rw (a, b, c, d, e) (ap (λ x. x.0) f),
                        )
                  ]
                ]
              ]
      ]
