-- ===== src/Handler/Init/Stored.antt =====
-- What a successful `init_client` leaves in the store
-- (enclave-modules/ecall-handler/src/light_client/init_client.rs).
use lcp.Base.{ℕ, ◌<◌, none, ◌+◌, ◌%◌, ◌^◌, ◌≡◌, sym, ◌∙◌, inl, inr, ok, map_ok-eq-ok, arith}
use lcp.Base.Bytes.{Bytes}
use lcp.Base.Decimal.{u64_bound}
use lcp.Types.Time.{TmTime}
use lcp.Types.Any.{IsAny}
use lcp.Crypto.{Signer}
use lcp.Commitments.Proof.{CommitmentProof}
use lcp.Store.KvStore.{KvStore}
use lcp.LightClient.Path.{client_path}
use lcp.LightClient.Path.Names.{client_name}
use lcp.LightClient.Context.{
  Context, get, set_timestamp, client_state, consensus_state, client_counter, store_client_type,
  store_any_client_state, store_any_consensus_state,
}
use lcp.LightClient.Context.Laws.{
  client_state-store, consensus_state-store, client_state-consensus, client_state-counter,
  consensus_state-counter,
}
use lcp.Commands.{InitClientInput, LightClientResponse}
use lcp.Handler.{Env, make_proof}
use lcp.Handler.Init.{init_client}
use lcp.Handler.Init.Cases.{answer, Creates, init_client-cases}
use lcp.Handler.Fresh.{Fresh, client_counter-next}
use lcp.Handler.Fresh.Init.{gen_client_id-ok}

module _ {T PK SK S : Type 0} ⦃tm : TmTime T⦄ ⦃kv : KvStore S⦄ (env : Env T PK SK S) where
  pub record Created (ctx ctx' : Context T S) (ek : Signer PK) (input : InitClientInput T)
      (response : LightClientResponse) : Type 0 where
    pub run : Creates env ctx input
    pub named : run.client_id ≡ client_name run.lc.client_type run.counter
    pub unused : (rest : Bytes) → get ctx (client_path run.client_id rest) ≡ none
    pub proof : CommitmentProof
    pub proved : make_proof env ek input.signer run.res.message run.res.prove ≡ ok proof
    pub answered : response ≡ answer run.client_id proof
    pub client : client_state env.bincode ctx' run.client_id ≡ ok input.any_client_state
    pub consensus :
        consensus_state env.bincode ctx' run.client_id run.res.height ≡ ok input.any_consensus_state
    pub counted : client_counter ctx' ≡ ok ((run.counter + 1) % 2 ^ 64)

  -- For states of the Rust type, in a store where the names from its counter on are free, a response
  -- of `init_client` names a new client, under which nothing was stored, by the type of the light
  -- client that the state's type URL selects and the counter. After it both states are read back under
  -- this identifier, the consensus state at the height that the light client named, and the counter is
  -- one higher, or zero after the last `u64`; the response's proof is of the light client's message.
  pub init_client-ok :
      (ctx : Context T S) (ek : Signer PK) (input : InitClientInput T) (k : ℕ)
      {response : LightClientResponse}
      → k < u64_bound
      → Fresh k ctx
      → IsAny input.any_client_state
      → IsAny input.any_consensus_state
      → (init_client env ek input ctx).0 ≡ ok response
      → Created ctx (init_client env ek input ctx).1 ek input response
  init_client-ok ctx ek input k small f valid_client valid_consensus h =
      elim (init_client-cases env ctx ek input) [
        | inr (same, refused) ↦ absurd (refused _ h)
        | inl (c, same, made) ↦
            let (proof, proved, e) =
              map_ok-eq-ok (answer c.client_id)
                (make_proof env ek input.signer c.res.message c.res.prove) (sym made ∙ h) in
            let (name, safe) = gen_client_id-ok env c.lc.client_type c.counter c.named in
            let count : f.counter ≡ c.counter = ground (arith, f.counted, c.counted) in
            let typed =
              store_client_type c.client_id c.lc.client_type
                (set_timestamp ctx input.current_timestamp) in
            let stated =
              store_any_client_state env.bincode c.client_id input.any_client_state typed in
            let ctx2 =
              store_any_consensus_state env.bincode c.client_id c.res.height
                input.any_consensus_state stated in
            rw same (record {
              run = c;
              named = name;
              unused = λ rest. rw name (
                  f.unused c.lc.client_type c.counter rest (rw name at safe) (omega arith)
                    (omega (arith, f.few)));
              proof = proof;
              proved = proved;
              answered = sym e;
              client =
                  client_state-counter env.bincode ctx2 c.client_id _
                  ∙ (client_state-consensus env.bincode stated c.client_id c.res.height
                        input.any_consensus_state safe
                      ∙ client_state-store env.bincode typed c.client_id input.any_client_state
                          valid_client);
              consensus =
                  consensus_state-counter env.bincode ctx2 c.client_id c.res.height _
                  ∙ consensus_state-store env.bincode stated c.client_id c.res.height
                      input.any_consensus_state valid_consensus;
              counted = client_counter-next ctx2 ((c.counter + 1) % 2 ^ 64) (omega arith);
            })
      ]
