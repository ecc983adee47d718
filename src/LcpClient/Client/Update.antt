-- ===== src/LcpClient/Client/Update.antt =====
-- What a successful `update_state` has checked and what it has written.
use lcp.Base.{
  ℕ, ◌/◌, ◌*◌, ◌∙◌, ap, ◌≡◌, refl, ◌≢◌, ◌⊎◌, false, Bool-cases, some, Option-cases, ok,
  Result-cases, inl, inr, arith,
}
use lcp.Base.Equality.{◌==◌, ==_iff}
use lcp.Base.Bytes.{Bytes, bytes_PartialEq}
use lcp.Types.Time.{TmTime, Nanos, nanos_per_sec}
use lcp.Types.Height
use lcp.Types.Height.{Height, IsHeight}
use lcp.Types.Height.Order.{Lex, lt_iff}
use lcp.Commitments.StateId.{IsStateId}
use lcp.LightClient.Context.Laws.{SamePart}
use lcp.Crypto.{Address, verify_signature_address}
use lcp.Commitments.Context
use lcp.Commitments.Message.UpdateState
use lcp.Commitments.Message.UpdateState.{UpdateStateProxyMessage}
use lcp.Commitments.Message.Proxy
use lcp.Store.KvStore.{KvStore}
use lcp.LightClient.Path.{ClientId, NoSlash, client_path}
use lcp.LightClient.Context.{Context, get, host_timestamp}
use lcp.LcpClient.ClientState.{ClientState, with_header, whole_seconds}
use lcp.LcpClient.Reader.{
  ClientLibs, client_state, consensus_state, check_prev, contains_enclave_key,
}
use lcp.LcpClient.ClientState.RoundTrip.{IsClientState}
use lcp.LcpClient.Client.{update_state, write_update}
use lcp.LcpClient.Client.Checks.{
  IsPaired, validate-IsPaired, Follows, check_prev-Follows, Registered,
  contains_enclave_key-Registered,
}
use lcp.LcpClient.Client.Writes.{write_update-stores, write_update-SamePart}

-- The client's state with the height `h`, neither frozen nor with a fraction of a second.
abbrev pub at_height : ClientState → Height → ClientState
at_height state h = record {
  mr_enclave = state.mr_enclave;
  key_expiration = record { secs = state.key_expiration.secs; subsec_nanos = 0 };
  latest_height = h;
  frozen = false;
}

-- The message's height if it is lexicographically higher than the client's.
abbrev pub Highest : {T : Type 0} → ClientState → UpdateStateProxyMessage T → Height → Type 0
Highest state m h =
    (Lex state.latest_height m.post_height × (h ≡ m.post_height))
    ⊎ ((¬ Lex state.latest_height m.post_height) × (h ≡ state.latest_height))

with_header-Highest :
    {T : Type 0} (state : ClientState) (m : UpdateStateProxyMessage T)
    → state.frozen ≡ false
    → (h : Height) × (whole_seconds (with_header state m) ≡ at_height state h) × Highest state m h
unfolding whole_seconds with_header
with_header-Highest state m f = elim (Bool-cases (Height.lt state.latest_height m.post_height)) [
  | inl e ↦
      (m.post_height, ground arith, inl ((lt_iff state.latest_height m.post_height).0 e, refl))
  | inr e ↦ (
    state.latest_height,
    ground arith,
    inr (λ l. ground (arith, (lt_iff state.latest_height m.post_height).1 l), refl),
  )
]

module _ {T PK SK S : Type 0} ⦃tm : TmTime T⦄ ⦃kv : KvStore S⦄ (libs : ClientLibs T PK SK) where
  -- All that `update_state` asks, at the time `now` and with the message's bytes `bz`.
  pub record Accepts (ctx : Context T S) (id : ClientId) (state : ClientState)
      (m : UpdateStateProxyMessage T) (signer : Address) (signature : Bytes) : Type 0 where
    pub now : T
    pub bz : Bytes
    pub valid : IsPaired m
    pub not_frozen : state.frozen ≡ false
    pub prev : Follows libs ctx id state m
    pub registered : Registered libs ctx id signer
    pub signed_bytes : Proxy.to_bytes libs.abi (Proxy.update_state m) ≡ ok bz
    pub signed : verify_signature_address libs.secp bz signature ≡ ok signer
    pub timestamp : ctx.current_timestamp ≡ some now
    pub in_context : Context.validate m.context now ≡ ok tt

  -- Either the message is accepted and both states are written, or it is not and nothing is.
  pub update_state-cases :
      (ctx : Context T S) (id : ClientId) (state : ClientState) (m : UpdateStateProxyMessage T)
      (signer : Address) (signature : Bytes)
      → let (r, ctx') = update_state libs id state m signer signature ctx in
        (Accepts ctx id state m signer signature × ((r, ctx') ≡ write_update libs id state m ctx))
        ⊎ ((ctx' ≡ ctx) × (r ≢ ok tt))
  unfolding update_state write_update host_timestamp
  update_state-cases ctx id state m signer signature =
      elim (Result-cases (UpdateState.validate m)) [
        | inr e ↦ inr (ground arith)
        | inl (u, valid) ↦ elim (Bool-cases state.frozen) [
          | inl e ↦ inr (ground arith)
          | inr not_frozen ↦ elim (Result-cases (check_prev libs ctx id state m)) [
            | inr e ↦ inr (ground arith)
            | inl (u2, prev) ↦ elim (Bool-cases (contains_enclave_key libs ctx id signer)) [
              | inr e ↦ inr (ground arith)
              | inl registered ↦
                  elim (Result-cases (Proxy.to_bytes libs.abi (Proxy.update_state m))) [
                    | inr e ↦ inr (ground arith)
                    | inl (bz, signed_bytes) ↦
                        elim (Result-cases (verify_signature_address libs.secp bz signature)) [
                          | inr e ↦ inr (ground arith)
                          | inl (signer2, signed) ↦ elim (Bool-cases (signer == signer2)) [
                            | inr e ↦ inr (ground arith)
                            | inl same ↦ elim (Option-cases ctx.current_timestamp) [
                              | inl e ↦ inr (ground arith)
                              | inr (now, timestamp) ↦
                                  elim (Result-cases (Context.validate m.context now)) [
                                    | inr e ↦ inr (ground arith)
                                    | inl (u3, in_context) ↦ inl (
                                      record {
                                        now = now;
                                        bz = bz;
                                        valid = validate-IsPaired m valid;
                                        not_frozen = not_frozen;
                                        prev = check_prev-Follows libs ctx id state m prev;
                                        registered =
                                            contains_enclave_key-Registered libs ctx id signer
                                              registered;
                                        signed_bytes = signed_bytes;
                                        signed = ground (arith, ==_iff signer signer2);
                                        timestamp = timestamp;
                                        in_context = in_context;
                                      },
                                      ground arith,
                                    )
                                  ]
                            ]
                          ]
                        ]
                  ]
            ]
          ]
        ]
      ]

  -- A successful `update_state` has passed every check: the message names both a previous height and
  -- a previous state or neither, the client is not frozen, either the client has no height yet and the
  -- message emits a state, or the previous state is the one stored for the previous height, the signer
  -- is a registered enclave key, which signed the message's bytes, and the context is valid at the
  -- host's time.
  pub update_state-ok :
      (ctx : Context T S) (id : ClientId) (state : ClientState) (m : UpdateStateProxyMessage T)
      (signer : Address) (signature : Bytes)
      → (update_state libs id state m signer signature ctx).0 ≡ ok tt
      → Accepts ctx id state m signer signature
  update_state-ok ctx id state m signer signature h =
      elim (update_state-cases ctx id state m signer signature) [
        | inl (a, e) ↦ a
        | inr (same, ne) ↦ absurd (ne h)
      ]

  -- For a client identifier without a slash, well-formed states and a time from the epoch on, after a
  -- successful `update_state` the client's state is read back with the message's height if that is
  -- lexicographically higher and with its own height otherwise, not frozen, with the same enclave and
  -- the expiration rounded down to the second, and the consensus state at the message's height has its
  -- identifier and its time, rounded down to the second.
  pub update_state-stores :
      (ctx : Context T S) (id : ClientId) (state : ClientState) (m : UpdateStateProxyMessage T)
      (signer : Address) (signature : Bytes) {n : ℕ}
      → NoSlash id
      → IsClientState state
      → IsHeight m.post_height
      → IsStateId m.post_state_id
      → Nanos tm.ops m.timestamp n
      → (update_state libs id state m signer signature ctx).0 ≡ ok tt
      → let ctx' = (update_state libs id state m signer signature ctx).1 in
        ((h : Height) × (client_state libs ctx' id ≡ ok (at_height state h)) × Highest state m h)
        × ((t : T) × (consensus_state libs ctx' id m.post_height
              ≡ ok (record { state_id = m.post_state_id; timestamp = t }))
            × Nanos tm.ops t (n / nanos_per_sec * nanos_per_sec))
  update_state-stores ctx id state m signer signature safe valid height state_id time h =
      elim (update_state-cases ctx id state m signer signature) [
        | inl (a, e) ↦
            let (r, c, s) =
              write_update-stores libs ctx id state m safe valid height state_id time in
            let same = ap (λ x. x.1) e in
            let (k, kept, highest) = with_header-Highest state m a.not_frozen in
            (
              (k, ap (λ x. client_state libs x id) same ∙ (c ∙ ap (λ x. ok x) kept), highest),
              (s.0, ap (λ x. consensus_state libs x id m.post_height) same ∙ s.1, s.2),
            )
        | inr (same, ne) ↦ absurd (ne h)
      ]

  -- For a client identifier without a slash, well-formed states and a time from the epoch on, an
  -- `update_state` that does not succeed, by an error or a panic, leaves the context as it was.
  pub update_state-unchanged :
      (ctx : Context T S) (id : ClientId) (state : ClientState) (m : UpdateStateProxyMessage T)
      (signer : Address) (signature : Bytes) {n : ℕ}
      → NoSlash id
      → IsClientState state
      → IsHeight m.post_height
      → IsStateId m.post_state_id
      → Nanos tm.ops m.timestamp n
      → (update_state libs id state m signer signature ctx).0 ≢ ok tt
      → (update_state libs id state m signer signature ctx).1 ≡ ctx
  update_state-unchanged ctx id state m signer signature safe valid height state_id time h =
      elim (update_state-cases ctx id state m signer signature) [
        | inl (a, e) ↦
            let (r, _, _) =
              write_update-stores libs ctx id state m safe valid height state_id time in
            absurd (h (ap (λ x. x.0) e ∙ r))
        | inr (same, ne) ↦ same
      ]

  -- Whatever comes of it, `update_state` leaves the part of the store of every other client.
  pub update_state-SamePart :
      (ctx : Context T S) (id other : ClientId) (state : ClientState)
      (m : UpdateStateProxyMessage T) (signer : Address) (signature : Bytes)
      → NoSlash id
      → NoSlash other
      → id ≢ other
      → SamePart other ctx (update_state libs id state m signer signature ctx).1
  update_state-SamePart ctx id other state m signer signature h k ne rest =
      elim (update_state-cases ctx id state m signer signature) [
        | inl (a, e) ↦
            ap (λ x. get x.1 (client_path other rest)) e
            ∙ write_update-SamePart libs ctx id other state m h k ne rest
        | inr (same, n) ↦ ap (λ x. get x (client_path other rest)) same
      ]
