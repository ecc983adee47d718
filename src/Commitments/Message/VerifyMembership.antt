-- ===== src/Commitments/Message/VerifyMembership.antt =====
-- modules/commitments/src/message/verify_membership.rs
use lcp.Base.{
  ◌≡◌, refl, true, not, Option, none, some, Result, ok, ◌>>=◌, ◌>>◌, ensure, ok_or, length,
  replicate, if◌then◌else◌,
}
use lcp.Base.Equality.{◌==◌, ==_iff, ==_refl, ℕ_PartialEq}
use lcp.Base.Bytes.{Bytes, IsBytes, IsArray, bytes_PartialEq}
use lcp.Base.Utf8.{is_utf8}
use lcp.Types.Height
use lcp.Types.Height.{Height, IsHeight}
use lcp.Commitments.Errors.{
  Error, string_from_utf8, eth_abi_decode, empty_path, zero_height, zero_state_id,
}
use lcp.Commitments.StateId
use lcp.Commitments.StateId.{StateId, IsStateId}
use lcp.Commitments.Abi.{
  Libs, EthAbiVerifyMembershipProxyMessage, IsEthAbiVerifyMembershipProxyMessage, from_height,
  to_height,
}

-- A `String` is its UTF-8 bytes.
pub record VerifyMembershipProxyMessage : Type 0 where
  pub prefix : Bytes
  pub path : Bytes
  pub value : Option Bytes
  pub height : Height
  pub state_id : StateId

unfoldable pub validate : {T : Type 0} → VerifyMembershipProxyMessage → Result (Error T) (Unit {0})
validate m = do
  ensure (not (length m.path == 0)) empty_path
  ensure (not (Height.is_zero m.height)) zero_height
  ensure (not (StateId.is_zero m.state_id)) zero_state_id

-- `[0u8; 32]`
abbrev pub zero_value : Bytes
zero_value = replicate 32 0

abbrev pub value_or_zero : Option Bytes → Bytes
value_or_zero none = zero_value
value_or_zero (some v) = v

unfoldable pub from_abi :
    {T : Type 0}
    → EthAbiVerifyMembershipProxyMessage
    → Result (Error T) VerifyMembershipProxyMessage
from_abi msg = do
  ensure (is_utf8 msg.path) string_from_utf8
  state_id ← StateId.try_from msg.state_id
  ok (record {
    prefix = msg.prefix;
    path = msg.path;
    value = if msg.value == zero_value then none else some msg.value;
    height = to_height msg.height;
    state_id = state_id;
  })

abbrev pub to_abi : VerifyMembershipProxyMessage → EthAbiVerifyMembershipProxyMessage
to_abi msg = record {
  prefix = msg.prefix;
  path = msg.path;
  value = value_or_zero msg.value;
  height = from_height msg.height;
  state_id = msg.state_id;
}

module _ (libs : Libs) where
  unfoldable pub ethabi_encode : VerifyMembershipProxyMessage → Bytes
  ethabi_encode msg = libs.verify_membership.encode (to_abi msg)

  unfoldable pub ethabi_decode :
      {T : Type 0} → Bytes → Result (Error T) VerifyMembershipProxyMessage
  ethabi_decode bz = do abi ← ok_or (libs.verify_membership.decode bz) eth_abi_decode; from_abi abi

-- What the encoding keeps of a value: 32 zero bytes are lost.
abbrev pub keep_value : Option Bytes → Option Bytes
keep_value none = none
keep_value (some v) = if v == zero_value then none else some v

read_value :
    (o : Option Bytes)
    → (if value_or_zero o == zero_value then none else some (value_or_zero o)) ≡ keep_value o
read_value none = rw (==_refl zero_value) refl
read_value (some v) = refl

-- The Rust types of the fields.
pub record IsMessage (m : VerifyMembershipProxyMessage) : Type 0 where
  pub prefix : IsBytes m.prefix
  pub path : IsBytes m.path
  pub path_utf8 : is_utf8 m.path ≡ true
  pub value : IsArray 32 (value_or_zero m.value)
  pub height : IsHeight m.height
  pub state_id : IsStateId m.state_id

module _ (libs : Libs) where
  -- A membership message of the Rust types is read back from its encoding, but that a value of 32
  -- zero bytes comes back as the absence of a value.
  pub decode-encode :
      {T : Type 0} (m : VerifyMembershipProxyMessage)
      → IsMessage m
      → IsBytes (ethabi_encode libs m)
        × (ethabi_decode libs {T = T} (ethabi_encode libs m)
            ≡ ok (record m { value = keep_value m.value }))
  unfolding ethabi_encode ethabi_decode from_abi StateId.try_from
  decode-encode m v =
      let valid : IsEthAbiVerifyMembershipProxyMessage (to_abi m) =
        (v.prefix, v.path, v.value, v.height, v.state_id) in
      (
        libs.verify_membership.encode-IsBytes (to_abi m) valid,
        rw
            (
              libs.verify_membership.decode-encode (to_abi m) valid,
              v.path_utf8,
              (==_iff (length m.state_id) 32).1 v.state_id.0,
              read_value m.value,
            )
            refl,
      )
