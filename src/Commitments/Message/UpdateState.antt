-- ===== src/Commitments/Message/UpdateState.antt =====
-- modules/commitments/src/message/update_state.rs, and the emitted states of encoder.rs.
pub mod Chain
pub mod Total
pub mod Codec
use lcp.Base.{
  ℕ, ◌≡◌, Bool, true, false, not, List, [], ◌∷◌, ◌++◌, map, Option, none, some, Result, ok, err,
  panic, ◌>>=◌, ◌>>◌, ensure, ok_or, map_err, if◌then◌else◌,
}
use lcp.Base.Equality.{◌==◌}
use lcp.Base.Bytes.{Bytes, bytes_PartialEq}
use lcp.Types.Time.{TmTime, as_unix_timestamp_nanos, from_unix_timestamp_nanos}
use lcp.Types.Height.{Height, zero_height, height_PartialEq}
use lcp.Types.Any
use lcp.Types.Any.{Any}
use lcp.Commitments.Errors.{
  Error, lcp_time, lcp_type, eth_abi_decode, message_aggregation_failed,
  invalid_prev_state_and_height,
}
use lcp.Commitments.StateId
use lcp.Commitments.StateId.{StateId, default_state_id}
use lcp.Commitments.Abi.{
  Libs, EthAbiEmittedState, EthAbiUpdateStateProxyMessage, from_height, to_height, from_option,
  to_option,
}
use lcp.Commitments.Context
use lcp.Commitments.Context.{ValidationContext}

pub record EmittedState : Type 0 where
  pub height : Height
  pub state : Any

pub record UpdateStateProxyMessage (T : Type 0) : Type 0 where
  pub prev_height : Option Height
  pub prev_state_id : Option StateId
  pub post_height : Height
  pub post_state_id : StateId
  pub timestamp : T
  pub context : ValidationContext T
  pub emitted_states : List EmittedState

abbrev pub is_none {ℓ} : {A : Type ℓ} → Option A → Bool
is_none none = true
is_none (some a) = false

abbrev pub unwrap_or {ℓ} : {A : Type ℓ} → A → Option A → A
unwrap_or d none = d
unwrap_or d (some a) = a

unfoldable pub same : Bool → Bool → Bool
same true b = b
same false b = not b

unfoldable pub validate : {T : Type 0} → UpdateStateProxyMessage T → Result (Error T) (Unit {0})
unfolding same
validate m =
    ensure (same (is_none m.prev_height) (is_none m.prev_state_id)) invalid_prev_state_and_height

module _ {T : Type 0} ⦃tm : TmTime T⦄ where
  unfoldable pub aggregate :
      UpdateStateProxyMessage T
      → UpdateStateProxyMessage T
      → Result (Error T) (UpdateStateProxyMessage T)
  aggregate self other = do
    ensure (self.post_state_id == unwrap_or default_state_id other.prev_state_id)
        message_aggregation_failed
    ensure (self.post_height == unwrap_or zero_height other.prev_height) message_aggregation_failed
    context ← Context.aggregate self.context other.context
    ok (record {
      prev_height = self.prev_height;
      prev_state_id = self.prev_state_id;
      post_height = other.post_height;
      post_state_id = other.post_state_id;
      timestamp = other.timestamp;
      context = context;
      emitted_states = self.emitted_states ++ other.emitted_states;
    })

  -- the loop of `aggregate_messages` over the messages after the first
  unfoldable pub aggregate_from :
      UpdateStateProxyMessage T
      → List (UpdateStateProxyMessage T)
      → Result (Error T) (UpdateStateProxyMessage T)
  aggregate_from message [] = ok message
  aggregate_from message (m ∷ messages) = do
    message' ← aggregate message m
    aggregate_from message' messages

  unfoldable pub aggregate_messages :
      List (UpdateStateProxyMessage T) → Result (Error T) (UpdateStateProxyMessage T)
  aggregate_messages [] = err message_aggregation_failed
  aggregate_messages (message ∷ messages) = aggregate_from message messages

module _ (libs : Libs) where
  -- `From<EmittedState> for EthABIEmittedState`
  abbrev pub from_emitted : EmittedState → EthAbiEmittedState
  from_emitted s = record { height = from_height s.height; state = libs.prost_any.encode s.state }

  -- `TryFrom<EthABIEmittedState> for EmittedState`
  unfoldable pub to_emitted : {T : Type 0} → EthAbiEmittedState → Result (Error T) EmittedState
  to_emitted s = do
    state ← map_err lcp_type (Any.try_from libs.prost_any s.state)
    ok (record { height = to_height s.height; state = state })

  -- `.map(EmittedState::try_from).collect::<Result<Vec<_>, _>>()`
  unfoldable pub to_emitted_list :
      {T : Type 0} → List EthAbiEmittedState → Result (Error T) (List EmittedState)
  to_emitted_list [] = ok []
  to_emitted_list (s ∷ ss) = do
    state ← to_emitted s
    states ← to_emitted_list ss
    ok (state ∷ states)

module _ {T : Type 0} ⦃tm : TmTime T⦄ (libs : Libs) where
  -- `From<UpdateStateProxyMessage> for EthABIUpdateStateProxyMessage`
  unfoldable pub to_abi : UpdateStateProxyMessage T → Result (Error T) EthAbiUpdateStateProxyMessage
  to_abi msg = do
    timestamp ← as_unix_timestamp_nanos msg.timestamp
    context ← Context.ethabi_encode libs msg.context
    ok (record {
      prev_height = from_option msg.prev_height;
      prev_state_id = unwrap_or default_state_id msg.prev_state_id;
      post_height = from_height msg.post_height;
      post_state_id = msg.post_state_id;
      timestamp = timestamp;
      context = context;
      emitted_states = map (from_emitted libs) msg.emitted_states;
    })

  -- `TryFrom<EthABIUpdateStateProxyMessage> for UpdateStateProxyMessage`
  unfoldable pub from_abi :
      EthAbiUpdateStateProxyMessage → Result (Error T) (UpdateStateProxyMessage T)
  from_abi msg = do
    post_state_id ← StateId.try_from msg.post_state_id
    timestamp ← map_err lcp_time (from_unix_timestamp_nanos msg.timestamp)
    context ← Context.ethabi_decode libs msg.context
    emitted_states ← to_emitted_list libs msg.emitted_states
    ok (record {
      prev_height = to_option msg.prev_height;
      prev_state_id = if StateId.is_zero msg.prev_state_id then none else some msg.prev_state_id;
      post_height = to_height msg.post_height;
      post_state_id = post_state_id;
      timestamp = timestamp;
      context = context;
      emitted_states = emitted_states;
    })

  unfoldable pub ethabi_encode : UpdateStateProxyMessage T → Result (Error T) Bytes
  ethabi_encode msg = do abi ← to_abi msg; ok (libs.update_state.encode abi)

  unfoldable pub ethabi_decode : Bytes → Result (Error T) (UpdateStateProxyMessage T)
  ethabi_decode bz = do abi ← ok_or (libs.update_state.decode bz) eth_abi_decode; from_abi abi
