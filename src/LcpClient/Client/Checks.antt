-- ===== src/LcpClient/Client/Checks.antt =====
-- What the checks of messages against the stored states say: `validate` of both kinds of messages
-- (modules/commitments/src/message), and the previous states (modules/lcp-client/src/client_def.rs).
use lcp.Base.{
  ◌≡◌, ◌≢◌, ◌⊎◌, inl, inr, true, Bool-cases, none, some, Option-cases, List, [], ◌∷◌, All, ok,
  Result-cases, arith,
}
use lcp.Base.Equality.{◌==◌, ==_iff}
use lcp.Base.Bytes.{Bytes, bytes_PartialEq}
use lcp.Types.Time.{TmTime}
use lcp.Types.Height
use lcp.Types.Height.{Height}
use lcp.Crypto.{Address}
use lcp.Commitments.StateId.{StateId}
use lcp.Commitments.Message.UpdateState
use lcp.Commitments.Message.UpdateState.{UpdateStateProxyMessage}
use lcp.Commitments.Message.Misbehaviour
use lcp.Commitments.Message.Misbehaviour.{MisbehaviourProxyMessage, PrevState}
use lcp.Store.KvStore.{KvStore}
use lcp.LightClient.Path.{ClientId}
use lcp.LightClient.Context.{Context, get}
use lcp.LcpClient.ClientState.{ClientState}
use lcp.LcpClient.ConsensusState.{ConsensusState}
use lcp.LcpClient.Reader.{
  ClientLibs, consensus_state, check_prev, check_prev_states, contains_enclave_key,
  enclave_key_path,
}

module _ {T : Type 0} where
  -- The message names a previous height and a previous state, or neither.
  abbrev pub IsPaired : UpdateStateProxyMessage T → Type 0
  IsPaired m =
      ((m.prev_height ≡ none) × (m.prev_state_id ≡ none))
      ⊎ ((h : Height) × (i : StateId) × (m.prev_height ≡ some h) × (m.prev_state_id ≡ some i))

  pub validate-IsPaired :
      (m : UpdateStateProxyMessage T) → UpdateState.validate m ≡ ok tt → IsPaired m
  unfolding UpdateState.validate UpdateState.same
  validate-IsPaired m v = elim (Option-cases m.prev_height) [
    | inl e ↦ elim (Option-cases m.prev_state_id) [
      | inl f ↦ inl (e, f)
      | inr (i, f) ↦ absurd (ground arith)
    ]
    | inr (h, e) ↦ elim (Option-cases m.prev_state_id) [
      | inl f ↦ absurd (ground arith)
      | inr (i, f) ↦ inr (h, i, e, f)
    ]
  ]

  pub validate-prev_states :
      (m : MisbehaviourProxyMessage T) → Misbehaviour.validate m ≡ ok tt → m.prev_states ≢ []
  unfolding Misbehaviour.validate
  validate-prev_states m v e = ground arith

module _ {T PK SK S : Type 0} ⦃tm : TmTime T⦄ ⦃kv : KvStore S⦄ (libs : ClientLibs T PK SK) where
  -- The client has stored a consensus state with this identifier for this height.
  abbrev pub Stored : Context T S → ClientId → Height → StateId → Type 0
  Stored ctx id h i =
      (t : T) × (consensus_state libs ctx id h ≡ ok (record { state_id = i; timestamp = t }))

  -- Either the client has no height yet and the message emits a state, or the message's previous
  -- state is the one stored for its previous height.
  abbrev pub Follows : Context T S → ClientId → ClientState → UpdateStateProxyMessage T → Type 0
  Follows ctx id state m =
      ((state.latest_height ≡ record { revision_number = 0; revision_height = 0 })
        × (m.emitted_states ≢ []))
      ⊎ ((state.latest_height ≢ record { revision_number = 0; revision_height = 0 })
          × ((h : Height) × (i : StateId) × (m.prev_height ≡ some h)
              × (m.prev_state_id ≡ some i)
              × Stored ctx id h i))

  abbrev pub Registered : Context T S → ClientId → Address → Type 0
  Registered ctx id key = (bz : Bytes) × (get ctx (enclave_key_path libs id key) ≡ some bz)

  pub contains_enclave_key-Registered :
      (ctx : Context T S) (id : ClientId) (key : Address)
      → contains_enclave_key libs ctx id key ≡ true
      → Registered ctx id key
  unfolding contains_enclave_key
  contains_enclave_key-Registered ctx id key h =
      elim (Option-cases (get ctx (enclave_key_path libs id key))) [
        | inl e ↦ absurd (ground arith)
        | inr e ↦ e
      ]

  consensus_state-Stored :
      (ctx : Context T S) (id : ClientId) (h : Height) (i : StateId) {prev : ConsensusState T}
      → consensus_state libs ctx id h ≡ ok prev
      → (prev.state_id == i) ≡ true
      → Stored ctx id h i
  consensus_state-Stored ctx id h i {prev} e f =
      let q : prev.state_id ≡ i = (==_iff prev.state_id i).0 f in (prev.timestamp, ground arith)

  pub check_prev-Follows :
      (ctx : Context T S) (id : ClientId) (state : ClientState) (m : UpdateStateProxyMessage T)
      → check_prev libs ctx id state m ≡ ok tt
      → Follows ctx id state m
  unfolding check_prev
  check_prev-Follows ctx id state m c = elim (Bool-cases (Height.is_zero state.latest_height)) [
    | inl z ↦ inl (ground arith, λ e. ground arith)
    | inr z ↦ elim (Option-cases m.prev_height) [
      | inl e ↦ absurd (ground arith)
      | inr (h, e) ↦ elim (Option-cases m.prev_state_id) [
        | inl f ↦ absurd (ground arith)
        | inr (i, f) ↦ elim (Result-cases (consensus_state libs ctx id h)) [
          | inl (prev, g) ↦ elim (Bool-cases (prev.state_id == i)) [
            | inl s ↦ inr (λ q. ground arith, (h, i, e, f, consensus_state-Stored ctx id h i g s))
            | inr s ↦ absurd (ground arith)
          ]
          | inr g ↦ absurd (ground arith)
        ]
      ]
    ]
  ]

  pub check_prev_states-Stored :
      (ctx : Context T S) (id : ClientId) (states : List PrevState)
      → check_prev_states libs ctx id states ≡ ok tt
      → All (λ p. Stored ctx id p.height p.state_id) states
  unfolding check_prev_states
  check_prev_states-Stored ctx id [] c = tt
  check_prev_states-Stored ctx id (p ∷ ps) c =
      elim (Result-cases (consensus_state libs ctx id p.height)) [
        | inl (prev, g) ↦ elim (Bool-cases (prev.state_id == p.state_id)) [
          | inl s ↦ (
            consensus_state-Stored ctx id p.height p.state_id g s,
            check_prev_states-Stored ctx id ps (ground arith),
          )
          | inr s ↦ absurd (ground arith)
        ]
        | inr g ↦ absurd (ground arith)
      ]
