-- ===== src/Handler/Router/Signed.antt =====
-- What the enclave hands out under its key
-- (enclave-modules/ecall-handler/src/light_client/router.rs).
use lcp.Base.{
  ◌≡◌, ◌⊎◌, refl, sym, ap, map_err-eq-ok, map_ok-eq-ok, ◌∙◌, inl, inr, true, false, none, some,
  Option, Bool, Result-cases, Result, ok, arith,
}
use lcp.Types.Time.{TmTime}
use lcp.Crypto.{
  Address, CryptoError, Signer, sealed_signer, enclave_signer, verify_signature_address, as_address,
}
use lcp.Commitments.Message.VerifyMembership.{VerifyMembershipProxyMessage}
use lcp.Commitments.Message.Proxy
use lcp.Commitments.Message.Proxy.{ProxyMessage}
use lcp.Commitments.Proof.{
  CommitmentProof, is_proven, prove_commitment, prove_commitment-ok, prove_commitment-signer,
  new_with_no_signature,
}
use lcp.Store.KvStore.{KvStore, TxId}
use lcp.LightClient.Context
use lcp.LightClient.Context.{Context}
use lcp.LightClient.Client.{UpdateClientResult, state_updated, misbehaved}
use lcp.Commands.{
  CommandContext, UpdateClientInput, LightClientExecuteCommand, execute, init_client, update_client,
  aggregate_messages, verify_membership, verify_non_membership, LightClientResponse,
  init_client_response, update_client_response, aggregate_messages_response,
  verify_membership_response, verify_non_membership_response, query_client_response, signer_of,
}
use lcp.Handler.{Env, make_proof}
use lcp.Handler.Errors.{Error, commitment}
use lcp.Handler.Aggregate.Sound.{aggregate_messages-ok}
use lcp.Handler.Init.Cases.{answer, init_client-cases}
use lcp.Handler.Update.Cases.{prove_result, update_client-cases}
use lcp.Handler.State.Cases.{prove_state, verify_membership-cases, verify_non_membership-cases}
use lcp.Handler.Router.{dispatch_execute, dispatch}

-- the proof in a response
abbrev pub proof_of : LightClientResponse → Option CommitmentProof
proof_of (init_client_response response) = some response.proof
proof_of (update_client_response proof) = some proof
proof_of (aggregate_messages_response proof) = some proof
proof_of (verify_membership_response proof) = some proof
proof_of (verify_non_membership_response proof) = some proof
proof_of (query_client_response response) = none

module _ {T PK SK S : Type 0} ⦃tm : TmTime T⦄ (env : Env T PK SK S) where
  -- The proof holds the bytes of a message, and is either without signature and signer, or it names
  -- the signer, who is whom its signature recovers, and the message is valid.
  pub record Vouched (signer : Address) (proof : CommitmentProof) : Type 0 where
    pub message : ProxyMessage T
    pub encoded : Proxy.to_bytes env.abi message ≡ ok proof.message
    pub signed :
        (proof ≡ new_with_no_signature proof.message)
        ⊎ ((proof.signer ≡ signer)
            × (is_proven proof ≡ true)
            × (Proxy.validate message ≡ ok tt)
            × (verify_signature_address env.secp proof.message proof.signature ≡ ok signer))

  module _ {SealedKey : Type 0} (unseal : SealedKey → Result CryptoError SK) (sealed : SealedKey)
      (sk : SK) (opens : unseal sealed ≡ ok sk) where
    -- A sealed key proves what the key in it proves.
    prove_commitment-sealed :
        (signer : Address) (m : ProxyMessage T)
        → prove_commitment env.abi (sealed_signer env.secp unseal sealed) signer m
          ≡ prove_commitment env.abi (enclave_signer env.secp sk) signer m
    unfolding prove_commitment
    prove_commitment-sealed signer m = rw opens refl

    prove_commitment-Vouched :
        (signer : Address) (m : ProxyMessage T) {proof : CommitmentProof}
        → signer ≡ as_address env.secp (env.secp.from_secret_key sk)
        → prove_commitment env.abi (sealed_signer env.secp unseal sealed) signer m ≡ ok proof
        → Vouched signer proof
    prove_commitment-Vouched signer m {proof} own h =
        let h' = rw own at (sym (prove_commitment-sealed signer m) ∙ h) in
        let (valid, encoded, proven, recovered) = prove_commitment-ok env.abi env.secp sk m h' in
        let named : proof.signer ≡ signer =
          prove_commitment-signer env.abi (sealed_signer env.secp unseal sealed) signer m h in
        record {
          message = m;
          encoded = encoded;
          signed = inr (named, proven, valid, recovered ∙ ap ok named);
        }

    make_proof-Vouched :
        (signer : Address) (m : ProxyMessage T) (prove : Bool) {proof : CommitmentProof}
        → signer ≡ as_address env.secp (env.secp.from_secret_key sk)
        → make_proof env (sealed_signer env.secp unseal sealed) signer m prove ≡ ok proof
        → Vouched signer proof
    unfolding make_proof
    make_proof-Vouched signer m true {proof} own h =
        prove_commitment-Vouched signer m own (map_err-eq-ok {F = Error T} commitment _ h)
    make_proof-Vouched signer m false {proof} own h =
        elim (Result-cases (Proxy.to_bytes env.abi m)) [
          | inr e ↦ absurd (ground arith)
          | inl (bz, e) ↦
              let made : proof ≡ new_with_no_signature bz = ground arith in
              record { message = m; encoded = rw made e; signed = inl (rw made refl) }
        ]

module _ {T PK SK S SealedKey : Type 0} ⦃tm : TmTime T⦄ ⦃kv : KvStore S⦄ (env : Env T PK SK S)
    (unseal : SealedKey → Result CryptoError SK) (sealed : SealedKey) (sk : SK)
    (opens : unseal sealed ≡ ok sk) where
  abbrev ek : Signer PK
  ek = sealed_signer env.secp unseal sealed

  update-Vouched :
      (input : UpdateClientInput T) (res : UpdateClientResult T) {proof : CommitmentProof}
      → input.signer ≡ as_address env.secp (env.secp.from_secret_key sk)
      → prove_result env ek input res ≡ ok proof
      → Vouched env input.signer proof
  update-Vouched input (state_updated d) own h =
      make_proof-Vouched env unseal sealed sk opens input.signer _ d.prove own h
  update-Vouched input (misbehaved d) own h =
      prove_commitment-Vouched env unseal sealed sk opens input.signer _ own
        (map_err-eq-ok {F = Error T} commitment _ h)

  state-Vouched :
      (signer : Address) (m : VerifyMembershipProxyMessage) {proof : CommitmentProof}
      → signer ≡ as_address env.secp (env.secp.from_secret_key sk)
      → prove_state env ek signer m ≡ ok proof
      → Vouched env signer proof
  state-Vouched signer m own h =
      prove_commitment-Vouched env unseal sealed sk opens signer (Proxy.verify_membership m) own
        (map_err-eq-ok {F = Error T} commitment _ h)

  dispatch_execute-Vouched :
      (ctx : Context T S) (cmd : LightClientExecuteCommand T) {response : LightClientResponse}
      {proof : CommitmentProof}
      → signer_of cmd ≡ as_address env.secp (env.secp.from_secret_key sk)
      → (dispatch_execute env ek cmd ctx).0 ≡ ok response
      → proof_of response ≡ some proof
      → Vouched env (signer_of cmd) proof
  unfolding dispatch_execute signer_of
  dispatch_execute-Vouched ctx (init_client input) own h p =
      elim (init_client-cases env ctx ek input) [
        | inr (same, refused) ↦ absurd (refused _ h)
        | inl (c, same, made) ↦
            let (x, e, f) =
              map_ok-eq-ok (answer c.client_id)
                (make_proof env ek input.signer c.res.message c.res.prove) (sym made ∙ h) in
            make_proof-Vouched env unseal sealed sk opens input.signer c.res.message c.res.prove own
              (ground (arith, e, f, p))
      ]
  dispatch_execute-Vouched ctx (update_client input) own h p =
      elim (update_client-cases env ctx ek input) [
        | inr (same, refused) ↦ absurd (refused _ h)
        | inl (u, same, made) ↦
            let (x, e, f) =
              map_ok-eq-ok update_client_response (prove_result env ek input u.res)
                (sym made ∙ h) in
            update-Vouched input u.res own (ground (arith, e, f, p))
      ]
  dispatch_execute-Vouched ctx (aggregate_messages input) own h p =
      let a = aggregate_messages-ok env ctx ek input h in
      prove_commitment-Vouched env unseal sealed sk opens input.signer
        (Proxy.update_state a.message) own (ground (arith, a.proved, a.answer, p))
  dispatch_execute-Vouched ctx (verify_membership input) own h p =
      elim ((verify_membership-cases env ctx ek input).1) [
        | inr refused ↦ absurd (refused _ h)
        | inl (m, made) ↦
            let (x, e, f) =
              map_ok-eq-ok verify_membership_response (prove_state env ek input.signer m)
                (sym made ∙ h) in
            state-Vouched input.signer m own (ground (arith, e, f, p))
      ]
  dispatch_execute-Vouched ctx (verify_non_membership input) own h p =
      elim ((verify_non_membership-cases env ctx ek input).1) [
        | inr refused ↦ absurd (refused _ h)
        | inl (m, made) ↦
            let (x, e, f) =
              map_ok-eq-ok verify_non_membership_response (prove_state env ek input.signer m)
                (sym made ∙ h) in
            state-Vouched input.signer m own (ground (arith, e, f, p))
      ]

  -- Every proof that a successful command hands out, for a command whose signer is the address of
  -- the sealed key of the context, holds the bytes of a message; it either carries no signature and
  -- the zero signer, or names the command's signer, and then the message passed `validate` and the
  -- signature over these bytes recovers that signer.
  pub dispatch-Vouched :
      (cctx : CommandContext T SealedKey) (cmd : LightClientExecuteCommand T) (new_store : TxId → S)
      {response : LightClientResponse} {proof : CommitmentProof}
      → cctx.sealed_ek ≡ some sealed
      → signer_of cmd ≡ as_address env.secp (env.secp.from_secret_key sk)
      → (dispatch env unseal cctx (execute cmd) new_store).0 ≡ ok response
      → proof_of response ≡ some proof
      → Vouched env (signer_of cmd) proof
  unfolding dispatch
  dispatch-Vouched cctx cmd new_store has own h p =
      dispatch_execute-Vouched (Context.new (new_store cctx.tx_id)) cmd own (rw has at h) p
