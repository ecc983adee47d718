-- ===== src/Commitments/Message/Misbehaviour.antt =====
-- modules/commitments/src/message/misbehaviour.rs
use lcp.Base.{◌≡◌, refl, ap, List, [], ◌∷◌, map, Result, ok, err, ◌>>=◌, ok_or, All}
use lcp.Base.Bytes.{Bytes, IsBytes}
use lcp.Types.Time.{TmTime}
use lcp.Types.Height.{Height, IsHeight}
use lcp.Types.Any.{Any, IsAny}
use lcp.Commitments.Errors.{Error, empty_prev_states, eth_abi_decode, proto_decode_error}
use lcp.Commitments.StateId.{StateId, IsStateId}
use lcp.Commitments.Abi.{
  Libs, EthAbiPrevState, IsEthAbiPrevState, EthAbiMisbehaviourProxyMessage,
  IsEthAbiMisbehaviourProxyMessage, from_height, to_height,
}
use lcp.Commitments.Context
use lcp.Commitments.Context.{ValidationContext}
use lcp.Commitments.Context.Codec.{IsValid, ethabi_decode-ethabi_encode}

pub record PrevState : Type 0 where
  pub height : Height
  pub state_id : StateId

pub record MisbehaviourProxyMessage (T : Type 0) : Type 0 where
  pub prev_states : List PrevState
  pub context : ValidationContext T
  pub client_message : Any

unfoldable pub validate : {T : Type 0} → MisbehaviourProxyMessage T → Result (Error T) (Unit {0})
validate m = elim m.prev_states [ [] ↦ err empty_prev_states | s ∷ ss ↦ ok tt ]

abbrev pub from_prev_state : PrevState → EthAbiPrevState
from_prev_state s = record { height = from_height s.height; state_id = s.state_id }

abbrev pub to_prev_state : EthAbiPrevState → PrevState
to_prev_state s = record { height = to_height s.height; state_id = s.state_id }

module _ {T : Type 0} ⦃tm : TmTime T⦄ (libs : Libs) where
  unfoldable pub ethabi_encode : MisbehaviourProxyMessage T → Result (Error T) Bytes
  ethabi_encode msg = do
    context ← Context.ethabi_encode libs msg.context
    ok (
        libs.misbehaviour.encode (record {
          prev_states = map from_prev_state msg.prev_states;
          context = context;
          client_message = libs.prost_any.encode msg.client_message;
        }))

  unfoldable pub ethabi_decode : Bytes → Result (Error T) (MisbehaviourProxyMessage T)
  ethabi_decode bz = do
    msg ← ok_or (libs.misbehaviour.decode bz) eth_abi_decode
    context ← Context.ethabi_decode libs msg.context
    client_message ← ok_or (libs.prost_any.decode msg.client_message) proto_decode_error
    ok (record {
      prev_states = map to_prev_state msg.prev_states;
      context = context;
      client_message = client_message;
    })

-- The Rust types of the fields.
abbrev pub IsPrevState : PrevState → Type 0
IsPrevState s = IsHeight s.height × IsStateId s.state_id

prev_states_round_trip : (ss : List PrevState) → map to_prev_state (map from_prev_state ss) ≡ ss
prev_states_round_trip [] = refl
prev_states_round_trip (s ∷ ss) = ap (λ t. s ∷ t) (prev_states_round_trip ss)

prev_states-IsEthAbi :
    (ss : List PrevState) → All IsPrevState ss → All IsEthAbiPrevState (map from_prev_state ss)
prev_states-IsEthAbi [] h = tt
prev_states-IsEthAbi (s ∷ ss) h = (h.0, prev_states-IsEthAbi ss h.1)

module _ {T : Type 0} ⦃tm : TmTime T⦄ where
  pub record IsMessage (m : MisbehaviourProxyMessage T) : Type 0 where
    pub prev_states : All IsPrevState m.prev_states
    pub context : IsValid m.context
    pub client_message : IsAny m.client_message

  module _ (libs : Libs) where
    -- A misbehaviour message of the Rust types is read back from its encoding.
    pub decode-encode :
        (m : MisbehaviourProxyMessage T)
        → IsMessage m
        → (bz : Bytes) × (ethabi_encode libs m ≡ ok bz)
          × IsBytes bz
          × (ethabi_decode libs bz ≡ ok m)
    unfolding ethabi_encode ethabi_decode
    decode-encode m v =
        let (bz, encoded, bytes, decoded) = ethabi_decode-ethabi_encode libs m.context v.context in
        let abi : EthAbiMisbehaviourProxyMessage = record {
          prev_states = map from_prev_state m.prev_states;
          context = bz;
          client_message = libs.prost_any.encode m.client_message;
        } in
        let valid : IsEthAbiMisbehaviourProxyMessage abi = (
          prev_states-IsEthAbi m.prev_states v.prev_states,
          bytes,
          libs.prost_any.encode-IsBytes m.client_message v.client_message,
        ) in
        (
          libs.misbehaviour.encode abi,
          rw encoded refl,
          libs.misbehaviour.encode-IsBytes abi valid,
          rw
              (
                libs.misbehaviour.decode-encode abi valid,
                decoded,
                libs.prost_any.decode-encode m.client_message v.client_message,
                prev_states_round_trip m.prev_states,
              )
              refl,
        )
