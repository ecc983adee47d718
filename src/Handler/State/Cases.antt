-- ===== src/Handler/State/Cases.antt =====
-- Every way in which the commands that only read the store can end
-- (enclave-modules/ecall-handler/src/light_client/verify_state.rs and query.rs).
use lcp.Base.{◌≡◌, ◌≢◌, ◌⊎◌, ap, inl, inr, Result, Result-cases, ok, map_ok, map_err, arith}
use lcp.Base.Action.{Keeps, lift-pure}
use lcp.Types.Time.{TmTime}
use lcp.Crypto.{Address, Signer}
use lcp.Commitments.Message.Proxy
use lcp.Commitments.Message.VerifyMembership.{VerifyMembershipProxyMessage}
use lcp.Commitments.Proof.{CommitmentProof, prove_commitment}
use lcp.Store.KvStore.{KvStore}
use lcp.LightClient.Context.{Context, client_state, consensus_state}
use lcp.Commands.{
  VerifyMembershipInput, VerifyNonMembershipInput, QueryClientInput, LightClientResponse,
  verify_membership_response, verify_non_membership_response,
}
use lcp.Handler.{Env, get_light_client_by_client_id}
use lcp.Handler.Errors.{Error, commitment}
use lcp.Handler.State.{verify_membership, verify_non_membership, query_client}

module _ {T PK SK S : Type 0} ⦃tm : TmTime T⦄ ⦃kv : KvStore S⦄ (env : Env T PK SK S) where
  abbrev pub prove_state :
      Signer PK → Address → VerifyMembershipProxyMessage → Result (Error T) CommitmentProof
  prove_state ek signer m =
      map_err commitment (prove_commitment env.abi ek signer (Proxy.verify_membership m))

  pub verify_membership-cases :
      (ctx : Context T S) (ek : Signer PK) (input : VerifyMembershipInput)
      → let (r, ctx') = verify_membership env ek input ctx in
        (ctx' ≡ ctx)
        × (((m : VerifyMembershipProxyMessage) × (r
                ≡ map_ok verify_membership_response (prove_state ek input.signer m)))
            ⊎ ((response : LightClientResponse) → r ≢ ok response))
  unfolding verify_membership
  verify_membership-cases ctx ek input =
      elim (Result-cases (get_light_client_by_client_id env ctx input.client_id)) [
        | inr a ↦ (ground arith, inr (ground arith))
        | inl (lc, a) ↦
            elim (Result-cases (
              lc.verify_membership ctx input.client_id input.prefix input.path input.value
                input.proof.height input.proof.proof)) [
                  | inr b ↦ (ground arith, inr (ground arith))
                  | inl (res, b) ↦
                      let e =
                        lift-pure (prove_state ek input.signer res.message)
                          verify_membership_response ctx in
                      (rw (a, b) (ap (λ x. x.1) e), inl (res.message, rw (a, b) (ap (λ x. x.0) e)))
                ]
      ]

  pub verify_non_membership-cases :
      (ctx : Context T S) (ek : Signer PK) (input : VerifyNonMembershipInput)
      → let (r, ctx') = verify_non_membership env ek input ctx in
        (ctx' ≡ ctx)
        × (((m : VerifyMembershipProxyMessage) × (r
                ≡ map_ok verify_non_membership_response (prove_state ek input.signer m)))
            ⊎ ((response : LightClientResponse) → r ≢ ok response))
  unfolding verify_non_membership
  verify_non_membership-cases ctx ek input =
      elim (Result-cases (get_light_client_by_client_id env ctx input.client_id)) [
        | inr a ↦ (ground arith, inr (ground arith))
        | inl (lc, a) ↦
            elim (Result-cases (
              lc.verify_non_membership ctx input.client_id input.prefix input.path
                input.proof.height input.proof.proof)) [
                  | inr b ↦ (ground arith, inr (ground arith))
                  | inl (res, b) ↦
                      let e =
                        lift-pure (prove_state ek input.signer res.message)
                          verify_non_membership_response ctx in
                      (rw (a, b) (ap (λ x. x.1) e), inl (res.message, rw (a, b) (ap (λ x. x.0) e)))
                ]
      ]

  pub query_client-Keeps : (input : QueryClientInput) → Keeps (query_client env input)
  unfolding query_client
  query_client-Keeps input ctx =
      elim (Result-cases (get_light_client_by_client_id env ctx input.client_id)) [
        | inr a ↦ ground arith
        | inl (lc, a) ↦ elim (Result-cases (client_state env.bincode ctx input.client_id)) [
          | inr b ↦ ground arith
          | inl (any, b) ↦ elim (Result-cases (lc.latest_height ctx input.client_id)) [
            | inr c ↦ ground arith
            | inl (height, c) ↦
                elim (Result-cases (consensus_state env.bincode ctx input.client_id height)) [
                  | inr d ↦ ground arith
                  | inl (x, d) ↦ ground arith
                ]
          ]
        ]
      ]
