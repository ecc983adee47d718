-- ===== src/Handler/Aggregate/Sound.antt =====
-- What the enclave has checked before it signs an aggregate
-- (enclave-modules/ecall-handler/src/light_client/aggregate_messages.rs).
use lcp.Base.{
  ◌≤◌, ◌≡◌, refl, false, Bool-cases, Result-cases, inl, inr, some, List, [], ◌∷◌, ok, ltb, length,
  arith,
}
use lcp.Base.Equality.{◌==◌, ==_iff, ℕ_PartialEq}
use lcp.Base.Bytes.{Bytes}
use lcp.Types.Time.{TmTime}
use lcp.Crypto.{Signer, verify}
use lcp.Commitments.Context
use lcp.Commitments.Message.UpdateState
use lcp.Commitments.Message.UpdateState.{UpdateStateProxyMessage}
use lcp.Commitments.Message.UpdateState.Chain.{Chain, Spans, aggregate_messages-Spans}
use lcp.Commitments.Message.Proxy
use lcp.Commitments.Proof.{CommitmentProof, prove_commitment}
use lcp.Store.KvStore.{KvStore}
use lcp.LightClient.Context.{Context, host_timestamp, set_timestamp}
use lcp.Commands.{AggregateMessagesInput, LightClientResponse, aggregate_messages_response}
use lcp.Handler.{Env}
use lcp.Handler.Messages.{verify_message, parse_messages, check_messages}
use lcp.Handler.Aggregate.{aggregate_messages}

module _ {T PK SK S : Type 0} ⦃tm : TmTime T⦄ (env : Env T PK SK S) (now : T) (pk : PK) where
  -- The bytes are an update message that the key has signed and whose context is valid at `now`.
  pub record Genuine (bz signature : Bytes) (m : UpdateStateProxyMessage T) : Type 0 where
    pub signed_bytes : Bytes
    pub parsed : Proxy.from_bytes env.abi bz ≡ ok (Proxy.update_state m)
    pub encoded : Proxy.to_bytes env.abi (Proxy.update_state m) ≡ ok signed_bytes
    pub verified : verify env.secp pk signed_bytes signature ≡ ok tt
    pub in_context : Context.validate m.context now ≡ ok tt

  pub data Received : List Bytes → List Bytes → List (UpdateStateProxyMessage T) → Type 0 where
    end_ : Received [] [] []
    then_ :
        {bz s : Bytes} {m : UpdateStateProxyMessage T} {bzs ss : List Bytes}
        {ms : List (UpdateStateProxyMessage T)}
        → Genuine bz s m
        → Received bzs ss ms
        → Received (bz ∷ bzs) (s ∷ ss) (m ∷ ms)

  Received-length :
      {bzs ss : List Bytes} {ms : List (UpdateStateProxyMessage T)}
      → Received bzs ss ms
      → length ms ≡ length bzs
  Received-length end_ = refl
  Received-length (then_ g r) = omega (arith, Received-length r)

  verify_message-ok :
      (m : UpdateStateProxyMessage T) (s : Bytes)
      → verify_message env pk m s ≡ ok tt
      → (bz : Bytes) × (Proxy.to_bytes env.abi (Proxy.update_state m) ≡ ok bz)
        × (verify env.secp pk bz s ≡ ok tt)
  unfolding verify_message
  verify_message-ok m s h = elim (Result-cases (Proxy.to_bytes env.abi (Proxy.update_state m))) [
    | inr e ↦ absurd (ground arith)
    | inl (bz, e) ↦ elim (Result-cases (verify env.secp pk bz s)) [
      | inr f ↦ absurd (ground arith)
      | inl (u, f) ↦ (bz, e, f)
    ]
  ]

  parse-step :
      (bz : Bytes) (bzs : List Bytes) {parsed : List (UpdateStateProxyMessage T)}
      → parse_messages env (bz ∷ bzs) ≡ ok parsed
      → (m : UpdateStateProxyMessage T) × (rest : List (UpdateStateProxyMessage T))
        × (Proxy.from_bytes env.abi bz ≡ ok (Proxy.update_state m))
        × (parse_messages env bzs ≡ ok rest)
        × (parsed ≡ m ∷ rest)
  unfolding parse_messages Proxy.to_update_state
  parse-step bz bzs h = elim (Result-cases (Proxy.from_bytes {T = T} env.abi bz)) [
    | inr e ↦ absurd (ground arith)
    | inl (Proxy.misbehaviour m, e) ↦ absurd (ground arith)
    | inl (Proxy.verify_membership m, e) ↦ absurd (ground arith)
    | inl (Proxy.update_state m, e) ↦ elim (Result-cases (parse_messages env bzs)) [
      | inr f ↦ absurd (ground arith)
      | inl (rest, f) ↦ (m, rest, e, f, ground arith)
    ]
  ]

  check-step :
      (ctx : Context T S) (m : UpdateStateProxyMessage T) (ms : List (UpdateStateProxyMessage T))
      (s : Bytes) (ss : List Bytes) {out : List (UpdateStateProxyMessage T)}
      → ctx.current_timestamp ≡ some now
      → check_messages env ctx pk (m ∷ ms) (s ∷ ss) ≡ ok out
      → (rest : List (UpdateStateProxyMessage T)) × (verify_message env pk m s ≡ ok tt)
        × (Context.validate m.context now ≡ ok tt)
        × (check_messages env ctx pk ms ss ≡ ok rest)
        × (out ≡ m ∷ rest)
  unfolding check_messages host_timestamp
  check-step ctx m ms s ss time h = elim (Result-cases (verify_message env pk m s)) [
    | inr e ↦ absurd (ground arith)
    | inl (u, e) ↦ elim (Result-cases (Context.validate m.context now)) [
      | inr f ↦ absurd (ground arith)
      | inl (v, f) ↦ elim (Result-cases (check_messages env ctx pk ms ss)) [
        | inr g ↦ absurd (ground arith)
        | inl (rest, g) ↦ (rest, e, f, g, ground arith)
      ]
    ]
  ]

  check-Received :
      (ctx : Context T S) (bzs ss : List Bytes) {parsed out : List (UpdateStateProxyMessage T)}
      → ctx.current_timestamp ≡ some now
      → length bzs ≡ length ss
      → parse_messages env bzs ≡ ok parsed
      → check_messages env ctx pk parsed ss ≡ ok out
      → Received bzs ss out
  unfolding parse_messages check_messages
  check-Received ctx [] [] {parsed} {out} time e p c = let q : out ≡ [] = ground arith in rw q end_
  check-Received ctx [] (s ∷ ss) time e p c = absurd (omega arith)
  check-Received ctx (bz ∷ bzs) [] time e p c = absurd (omega arith)
  check-Received ctx (bz ∷ bzs) (s ∷ ss) {parsed} {out} time e p c =
      let (m, ms, from, more, made) = parse-step bz bzs p in
      let (rest, verified, valid, checked, result) = check-step ctx m ms s ss time (rw made at c) in
      let (signed, encoded, good) = verify_message-ok m s verified in
      rw result (
        then_
          (record {
            signed_bytes = signed;
            parsed = from;
            encoded = encoded;
            verified = good;
            in_context = valid;
          })
          (check-Received ctx bzs ss time (omega arith) more checked))

module _ {T PK SK S : Type 0} ⦃tm : TmTime T⦄ ⦃kv : KvStore S⦄ (env : Env T PK SK S) where
  -- What stands behind an aggregate that the enclave signs.
  pub record Aggregated (ek : Signer PK) (input : AggregateMessagesInput T)
      (response : LightClientResponse) : Type 0 where
    pub pk : PK
    pub first : UpdateStateProxyMessage T
    pub others : List (UpdateStateProxyMessage T)
    pub message : UpdateStateProxyMessage T
    pub proof : CommitmentProof
    pub key : ek.pubkey ≡ ok pk
    pub many : 1 ≤ length others
    pub received :
        Received env input.current_timestamp pk input.messages input.signatures (first ∷ others)
    pub chain : Chain first others
    pub spans : Spans first others message
    pub proved : prove_commitment env.abi ek input.signer (Proxy.update_state message) ≡ ok proof
    pub answer : response ≡ aggregate_messages_response proof

  -- The parts of a run that has returned a response.
  run-parts :
      (ctx : Context T S) (ek : Signer PK) (input : AggregateMessagesInput T)
      {response : LightClientResponse}
      → (aggregate_messages env ek input ctx).0 ≡ ok response
      → (pk : PK) × (parsed : List (UpdateStateProxyMessage T)) × (messages : List
          (UpdateStateProxyMessage T))
        × (message : UpdateStateProxyMessage T) × (proof : CommitmentProof) × (ltb
              (length input.messages)
              2
            ≡ false)
        × (length input.messages ≡ length input.signatures)
        × (ek.pubkey ≡ ok pk)
        × (parse_messages env input.messages ≡ ok parsed)
        × (check_messages env (set_timestamp ctx input.current_timestamp) pk parsed input.signatures
            ≡ ok messages)
        × (UpdateState.aggregate_messages messages ≡ ok message)
        × (prove_commitment env.abi ek input.signer (Proxy.update_state message) ≡ ok proof)
        × (response ≡ aggregate_messages_response proof)
  unfolding aggregate_messages
  run-parts ctx ek input h =
      let ctx' = set_timestamp ctx input.current_timestamp in
      elim (Bool-cases (ltb (length input.messages) 2)) [
        | inl a ↦ absurd (ground arith)
        | inr a ↦ elim (Bool-cases (length input.messages == length input.signatures)) [
          | inr b ↦ absurd (ground arith)
          | inl b ↦ elim (Result-cases ek.pubkey) [
            | inr c ↦ absurd (ground arith)
            | inl (pk, c) ↦ elim (Result-cases (parse_messages env input.messages)) [
              | inr d ↦ absurd (ground arith)
              | inl (parsed, d) ↦
                  elim (Result-cases (check_messages env ctx' pk parsed input.signatures)) [
                    | inr e ↦ absurd (ground arith)
                    | inl (ms, e) ↦ elim (Result-cases (UpdateState.aggregate_messages ms)) [
                      | inr f ↦ absurd (ground arith)
                      | inl (m, f) ↦
                          elim (Result-cases
                            (prove_commitment env.abi ek input.signer (Proxy.update_state m))) [
                              | inr g ↦ absurd (ground arith)
                              | inl (proof, g) ↦ (
                                pk,
                                parsed,
                                ms,
                                m,
                                proof,
                                a,
                                (==_iff (length input.messages) _).0 b,
                                c,
                                d,
                                e,
                                f,
                                g,
                                ground arith,
                              )
                            ]
                    ]
                  ]
            ]
          ]
        ]
      ]

  -- The handler writes nothing, however it ends.
  pub aggregate_messages-context :
      (ctx : Context T S) (ek : Signer PK) (input : AggregateMessagesInput T)
      → (aggregate_messages env ek input ctx).1 ≡ set_timestamp ctx input.current_timestamp
  unfolding aggregate_messages
  aggregate_messages-context ctx ek input =
      let ctx' = set_timestamp ctx input.current_timestamp in
      elim (Bool-cases (ltb (length input.messages) 2)) [
        | inl a ↦ ground arith
        | inr a ↦ elim (Bool-cases (length input.messages == length input.signatures)) [
          | inr b ↦ ground arith
          | inl b ↦ elim (Result-cases ek.pubkey) [
            | inr c ↦ ground arith
            | inl (pk, c) ↦ elim (Result-cases (parse_messages env input.messages)) [
              | inr d ↦ ground arith
              | inl (parsed, d) ↦
                  elim (Result-cases (check_messages env ctx' pk parsed input.signatures)) [
                    | inr e ↦ ground arith
                    | inl (ms, e) ↦ elim (Result-cases (UpdateState.aggregate_messages ms)) [
                      | inr f ↦ ground arith
                      | inl (m, f) ↦
                          elim (Result-cases
                            (prove_commitment env.abi ek input.signer (Proxy.update_state m))) [
                              | inr g ↦ ground arith
                              | inl (proof, g) ↦ ground arith
                            ]
                    ]
                  ]
            ]
          ]
        ]
      ]

  nonempty :
      (ms : List (UpdateStateProxyMessage T)) {r : UpdateStateProxyMessage T}
      → UpdateState.aggregate_messages ms ≡ ok r
      → (m : UpdateStateProxyMessage T) × (rest : List (UpdateStateProxyMessage T)) × (ms
          ≡ m ∷ rest)
  unfolding UpdateState.aggregate_messages
  nonempty [] h = cc
  nonempty (m ∷ rest) h = (m, rest, refl)

  -- Where the handler answers with an aggregate, it was given at least two messages and as many
  -- signatures; each is an update message whose context is valid at the input's time and which the
  -- enclave's own key has signed; each starts where the one before ends; and what the key now signs
  -- is one message from the start of the first to the end of the last.
  pub aggregate_messages-ok :
      (ctx : Context T S) (ek : Signer PK) (input : AggregateMessagesInput T)
      {response : LightClientResponse}
      → (aggregate_messages env ek input ctx).0 ≡ ok response
      → Aggregated ek input response
  unfolding set_timestamp
  aggregate_messages-ok ctx ek input h =
      let (pk, parsed, ms, message, proof, two, lengths, key, p, c, made, proved, answer) =
        run-parts ctx ek input h in
      let (first, others, e) = nonempty ms made in
      let all =
        check-Received env input.current_timestamp pk (set_timestamp ctx input.current_timestamp)
          input.messages input.signatures refl lengths p c in
      let (chain, spans) = aggregate_messages-Spans first others (rw e at made) in
      record {
        pk = pk;
        first = first;
        others = others;
        message = message;
        proof = proof;
        key = key;
        many = ground (arith, Received-length env input.current_timestamp pk all);
        received = rw e at all;
        chain = chain;
        spans = spans;
        proved = proved;
        answer = answer;
      }
