-- ===== src/LcpClient/Client/Freeze.antt =====
-- What `submit_misbehaviour` checks before it freezes the client, and that it freezes it.
use lcp.Base.{
  ◌≡◌, ◌≢◌, ◌⊎◌, All, [], ap, ◌∙◌, true, false, Bool-cases, some, Option-cases, ok, Result-cases,
  inl, inr, arith,
}
use lcp.Base.Equality.{◌==◌, ==_iff}
use lcp.Base.Bytes.{Bytes, codes, bytes_PartialEq}
use lcp.Types.Time.{TmTime}
use lcp.Crypto.{Address, verify_signature_address}
use lcp.Commitments.Context
use lcp.Commitments.Message.Misbehaviour
use lcp.Commitments.Message.Misbehaviour.{MisbehaviourProxyMessage}
use lcp.Commitments.Message.Proxy
use lcp.Store.KvStore.{KvStore}
use lcp.LightClient.Path.{ClientId, NoSlash, client_path, client_state_path}
use lcp.LightClient.Context.{Context, get, host_timestamp, store_any_client_state}
use lcp.LightClient.Context.Laws.{SamePart, set-SamePart, client_state-store}
use lcp.LcpClient.ClientState
use lcp.LcpClient.ClientState.{ClientState, with_frozen, whole_seconds}
use lcp.LcpClient.ClientState.RoundTrip.{IsClientState, try_from-to_any}
use lcp.LcpClient.Reader.{ClientLibs, client_state, check_prev_states, contains_enclave_key}
use lcp.LcpClient.Client.{submit_misbehaviour}
use lcp.LcpClient.Client.Checks.{
  Stored, Registered, contains_enclave_key-Registered, check_prev_states-Stored,
  validate-prev_states,
}
use lcp.LcpClient.Client.Writes.{to_any-IsAny}

module _ {T PK SK S : Type 0} ⦃tm : TmTime T⦄ ⦃kv : KvStore S⦄ (libs : ClientLibs T PK SK) where
  -- All that `submit_misbehaviour` asks, at the time `now` and with the message's bytes `bz`.
  pub record AcceptsMisbehaviour (ctx : Context T S) (id : ClientId) (state : ClientState)
      (m : MisbehaviourProxyMessage T) (signer : Address) (signature : Bytes) : Type 0 where
    pub now : T
    pub bz : Bytes
    pub valid : m.prev_states ≢ []
    pub not_frozen : state.frozen ≡ false
    pub prev : All (λ p. Stored libs ctx id p.height p.state_id) m.prev_states
    pub registered : Registered libs ctx id signer
    pub timestamp : ctx.current_timestamp ≡ some now
    pub in_context : Context.validate m.context now ≡ ok tt
    pub signed_bytes : Proxy.to_bytes libs.abi (Proxy.misbehaviour m) ≡ ok bz
    pub signed : verify_signature_address libs.secp bz signature ≡ ok signer

  abbrev pub freeze : ClientId → ClientState → Context T S → Context T S
  freeze id state ctx =
      store_any_client_state libs.bincode id
        (ClientState.to_any libs.client_state (with_frozen state)) ctx

  -- Either the message is accepted and the frozen state is written, or nothing is.
  pub submit_misbehaviour-cases :
      (ctx : Context T S) (id : ClientId) (state : ClientState) (m : MisbehaviourProxyMessage T)
      (signer : Address) (signature : Bytes)
      → let (r, ctx') = submit_misbehaviour libs id state m signer signature ctx in
        (AcceptsMisbehaviour ctx id state m signer signature
          × (r ≡ ok tt)
          × (ctx' ≡ freeze id state ctx))
        ⊎ ((ctx' ≡ ctx) × (r ≢ ok tt))
  unfolding submit_misbehaviour host_timestamp
  submit_misbehaviour-cases ctx id state m signer signature =
      elim (Result-cases (Misbehaviour.validate m)) [
        | inr e ↦ inr (ground arith)
        | inl (u, valid) ↦ elim (Bool-cases state.frozen) [
          | inl e ↦ inr (ground arith)
          | inr not_frozen ↦ elim (Result-cases (check_prev_states libs ctx id m.prev_states)) [
            | inr e ↦ inr (ground arith)
            | inl (u2, prev) ↦ elim (Bool-cases (contains_enclave_key libs ctx id signer)) [
              | inr e ↦ inr (ground arith)
              | inl registered ↦ elim (Option-cases ctx.current_timestamp) [
                | inl e ↦ inr (ground arith)
                | inr (now, timestamp) ↦ elim (Result-cases (Context.validate m.context now)) [
                  | inr e ↦ inr (ground arith)
                  | inl (u3, in_context) ↦
                      elim (Result-cases (Proxy.to_bytes libs.abi (Proxy.misbehaviour m))) [
                        | inr e ↦ inr (ground arith)
                        | inl (bz, signed_bytes) ↦
                            elim (Result-cases (verify_signature_address libs.secp bz signature)) [
                              | inr e ↦ inr (ground arith)
                              | inl (signer2, signed) ↦ elim (Bool-cases (signer == signer2)) [
                                | inr e ↦ inr (ground arith)
                                | inl same ↦ inl (
                                  record {
                                    now = now;
                                    bz = bz;
                                    valid = validate-prev_states m valid;
                                    not_frozen = not_frozen;
                                    prev = check_prev_states-Stored libs ctx id m.prev_states prev;
                                    registered =
                                        contains_enclave_key-Registered libs ctx id signer
                                          registered;
                                    timestamp = timestamp;
                                    in_context = in_context;
                                    signed_bytes = signed_bytes;
                                    signed = ground (arith, ==_iff signer signer2);
                                  },
                                  ground arith,
                                  ground arith,
                                )
                              ]
                            ]
                      ]
                ]
              ]
            ]
          ]
        ]
      ]

  -- A `submit_misbehaviour` that succeeds has passed every check: the message names previous states,
  -- each of which is the one stored for its height, the client was not frozen, the signer is a
  -- registered enclave key, which signed the message's bytes, and the context is valid at the host's
  -- time. It leaves the well-formed client's state frozen, and otherwise as it was up to the fraction
  -- of a second of the expiration.
  pub submit_misbehaviour-ok :
      (ctx : Context T S) (id : ClientId) (state : ClientState) (m : MisbehaviourProxyMessage T)
      (signer : Address) (signature : Bytes)
      → IsClientState state
      → (submit_misbehaviour libs id state m signer signature ctx).0 ≡ ok tt
      → AcceptsMisbehaviour ctx id state m signer signature
        × (client_state libs (submit_misbehaviour libs id state m signer signature ctx).1 id
            ≡ ok (record {
              mr_enclave = state.mr_enclave;
              key_expiration = record { secs = state.key_expiration.secs; subsec_nanos = 0 };
              latest_height = state.latest_height;
              frozen = true;
            }))
  unfolding client_state with_frozen whole_seconds
  submit_misbehaviour-ok ctx id state m signer signature valid h =
      elim (submit_misbehaviour-cases ctx id state m signer signature) [
        | inl (a, r, e) ↦ (
          a,
          ap (λ x. client_state libs x id) e
              ∙ rw
                  (client_state-store libs.bincode ctx id
                    (ClientState.to_any libs.client_state (with_frozen state))
                    (to_any-IsAny libs.client_state (with_frozen state) valid))
                  (try_from-to_any libs.client_state (with_frozen state) valid),
        )
        | inr (same, ne) ↦ absurd (ne h)
      ]

  -- A `submit_misbehaviour` that does not succeed leaves the context as it was.
  pub submit_misbehaviour-unchanged :
      (ctx : Context T S) (id : ClientId) (state : ClientState) (m : MisbehaviourProxyMessage T)
      (signer : Address) (signature : Bytes)
      → (submit_misbehaviour libs id state m signer signature ctx).0 ≢ ok tt
      → (submit_misbehaviour libs id state m signer signature ctx).1 ≡ ctx
  submit_misbehaviour-unchanged ctx id state m signer signature h =
      elim (submit_misbehaviour-cases ctx id state m signer signature) [
        | inl (a, r, e) ↦ absurd (h r)
        | inr (same, ne) ↦ same
      ]

  pub submit_misbehaviour-SamePart :
      (ctx : Context T S) (id other : ClientId) (state : ClientState)
      (m : MisbehaviourProxyMessage T) (signer : Address) (signature : Bytes)
      → NoSlash id
      → NoSlash other
      → id ≢ other
      → SamePart other ctx (submit_misbehaviour libs id state m signer signature ctx).1
  unfolding store_any_client_state client_state_path
  submit_misbehaviour-SamePart ctx id other state m signer signature h k ne rest =
      elim (submit_misbehaviour-cases ctx id state m signer signature) [
        | inl (a, r, e) ↦
            ap (λ x. get x (client_path other rest)) e
            ∙ set-SamePart ctx id other (codes "clientState") _ h k ne rest
        | inr (same, n) ↦ ap (λ x. get x (client_path other rest)) same
      ]
