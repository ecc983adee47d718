-- ===== src/Commitments/Message/UpdateState/Codec.antt =====
-- The ABI round trip of an update message (modules/commitments/src/message/update_state.rs).
use lcp.Base.{
  ℕ, ◌≡◌, refl, true, Option, none, some, List, [], ◌∷◌, map, ok, length, All, if◌then◌else◌, arith,
}
use lcp.Base.Equality.{==_iff, ==_refl, ℕ_PartialEq}
use lcp.Base.Bytes.{Bytes, IsBytes, bytes_PartialEq}
use lcp.Types.Time.{TmTime, Nanos}
use lcp.Types.Time.Nanos.{from_unix_timestamp_nanos-Nanos, as_unix_timestamp_nanos-Nanos}
use lcp.Types.Height
use lcp.Types.Height.{Height, IsHeight}
use lcp.Types.Any
use lcp.Types.Any.{Any, IsAny}
use lcp.Commitments.StateId
use lcp.Commitments.StateId.{StateId, IsStateId, default_state_id}
use lcp.Commitments.Abi.{
  Libs, EthAbiUpdateStateProxyMessage, IsEthAbiUpdateStateProxyMessage, IsEthAbiHeight,
  IsEthAbiEmittedState, from_option, to_option, from_height,
}
use lcp.Commitments.Context.Codec.{IsValid, ethabi_decode-ethabi_encode}
use lcp.Commitments.Message.UpdateState.{
  UpdateStateProxyMessage, EmittedState, unwrap_or, from_emitted, to_emitted, to_emitted_list,
  to_abi, from_abi, ethabi_encode, ethabi_decode,
}

abbrev pub IsOption : {A : Type 0} → (A → Type 0) → Option A → Type 0
IsOption P none = Unit
IsOption P (some a) = P a

-- The Rust types of an emitted state.
abbrev pub IsEmittedState : EmittedState → Type 0
IsEmittedState s = IsHeight s.height × IsAny s.state

-- What the encoding keeps of a previous height and of a previous state id: zero is lost.
abbrev pub keep_height : Option Height → Option Height
keep_height none = none
keep_height (some h) = if Height.is_zero h then none else some h

abbrev pub keep_state_id : Option StateId → Option StateId
keep_state_id none = none
keep_state_id (some id) = if StateId.is_zero id then none else some id

to_option-from_option : (o : Option Height) → to_option (from_option o) ≡ keep_height o
to_option-from_option none = refl
to_option-from_option (some h) = refl

is_zero-default : StateId.is_zero default_state_id ≡ true
unfolding StateId.is_zero
is_zero-default = ==_refl default_state_id

read_state_id :
    (o : Option StateId)
    → (if StateId.is_zero (unwrap_or default_state_id o)
        then none
        else some (unwrap_or default_state_id o))
      ≡ keep_state_id o
read_state_id none = rw is_zero-default refl
read_state_id (some id) = refl

from_option-IsEthAbiHeight :
    (o : Option Height) → IsOption IsHeight o → IsEthAbiHeight (from_option o)
from_option-IsEthAbiHeight none h = omega arith
from_option-IsEthAbiHeight (some k) h = h

default_state_id-IsStateId : IsStateId default_state_id
default_state_id-IsStateId = omega arith

unwrap_or-IsStateId :
    (o : Option StateId) → IsOption IsStateId o → IsStateId (unwrap_or default_state_id o)
unwrap_or-IsStateId none h = default_state_id-IsStateId
unwrap_or-IsStateId (some id) h = h

module _ (libs : Libs) where
  emitted-IsEthAbi :
      (ss : List EmittedState)
      → All IsEmittedState ss
      → All IsEthAbiEmittedState (map (from_emitted libs) ss)
  emitted-IsEthAbi [] h = tt
  emitted-IsEthAbi (s ∷ ss) h =
      ((h.0.0, libs.prost_any.encode-IsBytes s.state h.0.1), emitted-IsEthAbi ss h.1)

  emitted_round_trip :
      {T : Type 0} (ss : List EmittedState)
      → All IsEmittedState ss
      → to_emitted_list libs {T = T} (map (from_emitted libs) ss) ≡ ok ss
  unfolding to_emitted_list to_emitted Any.try_from
  emitted_round_trip [] h = refl
  emitted_round_trip {T} (s ∷ ss) h =
      rw (libs.prost_any.decode-encode s.state h.0.1, emitted_round_trip {T = T} ss h.1) refl

module _ {T : Type 0} ⦃tm : TmTime T⦄ where
  -- The Rust types of the fields, with times from the epoch on.
  pub record IsMessage (m : UpdateStateProxyMessage T) : Type 0 where
    pub prev_height : IsOption IsHeight m.prev_height
    pub prev_state_id : IsOption IsStateId m.prev_state_id
    pub post_height : IsHeight m.post_height
    pub post_state_id : IsStateId m.post_state_id
    pub nanos : ℕ
    pub timestamp : Nanos tm.ops m.timestamp nanos
    pub context : IsValid m.context
    pub emitted_states : All IsEmittedState m.emitted_states

  -- The message that the encoding stands for.
  abbrev pub keep : UpdateStateProxyMessage T → UpdateStateProxyMessage T
  keep m = record m {
    prev_height = keep_height m.prev_height;
    prev_state_id = keep_state_id m.prev_state_id;
  }

  module _ (libs : Libs) where
    abi_round_trip :
        (m : UpdateStateProxyMessage T)
        → IsMessage m
        → (abi : EthAbiUpdateStateProxyMessage) × (to_abi libs m ≡ ok abi)
          × IsEthAbiUpdateStateProxyMessage abi
          × (from_abi libs abi ≡ ok (keep m))
    unfolding to_abi from_abi StateId.try_from
    abi_round_trip m v =
        let (bz, encoded, bytes, decoded) = ethabi_decode-ethabi_encode libs m.context v.context in
        let range = tm.nanos_in_range m.timestamp v.nanos v.timestamp in
        (
          record {
            prev_height = from_option m.prev_height;
            prev_state_id = unwrap_or default_state_id m.prev_state_id;
            post_height = from_height m.post_height;
            post_state_id = m.post_state_id;
            timestamp = v.nanos;
            context = bz;
            emitted_states = map (from_emitted libs) m.emitted_states;
          },
          rw (as_unix_timestamp_nanos-Nanos m.timestamp v.nanos v.timestamp, encoded) refl,
          (
            from_option-IsEthAbiHeight m.prev_height v.prev_height,
            unwrap_or-IsStateId m.prev_state_id v.prev_state_id,
            v.post_height,
            v.post_state_id,
            omega arith,
            bytes,
            emitted-IsEthAbi libs m.emitted_states v.emitted_states,
          ),
          rw
              (
                (==_iff (length m.post_state_id) 32).1 v.post_state_id.0,
                from_unix_timestamp_nanos-Nanos m.timestamp v.nanos v.timestamp,
                decoded,
                emitted_round_trip libs m.emitted_states v.emitted_states,
                to_option-from_option m.prev_height,
                read_state_id m.prev_state_id,
              )
              refl,
        )

    -- A message of the Rust types is encoded to bytes, with no panic, and decoding them gives it
    -- back, but that a previous height or state id of zero comes back as missing.
    pub decode-encode :
        (m : UpdateStateProxyMessage T)
        → IsMessage m
        → (bz : Bytes) × (ethabi_encode libs m ≡ ok bz)
          × IsBytes bz
          × (ethabi_decode libs bz ≡ ok (keep m))
    unfolding ethabi_encode ethabi_decode
    decode-encode m v =
        let (abi, made, valid, back) = abi_round_trip m v in
        (
          libs.update_state.encode abi,
          rw made refl,
          libs.update_state.encode-IsBytes abi valid,
          rw (libs.update_state.decode-encode abi valid, back) refl,
        )
