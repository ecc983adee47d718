-- ===== src/Commitments/Message/Proxy.antt =====
-- `ProxyMessage` of modules/commitments/src/message.rs: the three messages under one header.
pub mod Codec
use lcp.Base.{
  ℕ, ◌≡◌, Result, ok, err, ◌>>=◌, ◌>>◌, ensure, assert, ok_or, ◌++◌, length, take, drop, replicate,
  if◌then◌else◌,
}
use lcp.Base.Equality.{◌==◌, ℕ_PartialEq}
use lcp.Base.Bytes.{Bytes, to_be_bytes, from_be_bytes}
use lcp.Types.Time.{TmTime}
use lcp.Commitments.Errors.{
  Error, eth_abi_decode, invalid_message_header, invalid_abi, unexpected_message_type,
}
use lcp.Commitments.Abi.{Libs}
use lcp.Commitments.Message.UpdateState
use lcp.Commitments.Message.UpdateState.{UpdateStateProxyMessage}
use lcp.Commitments.Message.Misbehaviour
use lcp.Commitments.Message.Misbehaviour.{MisbehaviourProxyMessage}
use lcp.Commitments.Message.VerifyMembership
use lcp.Commitments.Message.VerifyMembership.{VerifyMembershipProxyMessage}

pub data ProxyMessage (T : Type 0) : Type 0 where
  update_state : UpdateStateProxyMessage T → ProxyMessage T
  verify_membership : VerifyMembershipProxyMessage → ProxyMessage T
  misbehaviour : MisbehaviourProxyMessage T → ProxyMessage T

abbrev pub message_schema_version : ℕ
message_schema_version = 1

abbrev pub message_type_update_state : ℕ
message_type_update_state = 1

abbrev pub message_type_state : ℕ
message_type_state = 2

abbrev pub message_type_misbehaviour : ℕ
message_type_misbehaviour = 3

unfoldable pub message_type : {T : Type 0} → ProxyMessage T → ℕ
message_type (update_state m) = message_type_update_state
message_type (verify_membership m) = message_type_state
message_type (misbehaviour m) = message_type_misbehaviour

-- The version in two bytes, the type in two, and 28 zeros.
unfoldable pub header : {T : Type 0} → ProxyMessage T → Bytes
unfolding message_type
header m =
    to_be_bytes 2 message_schema_version ++ (to_be_bytes 2 (message_type m) ++ replicate 28 0)

unfoldable pub validate : {T : Type 0} → ProxyMessage T → Result (Error T) (Unit {0})
validate (update_state m) = UpdateState.validate m
validate (verify_membership m) = VerifyMembership.validate m
validate (misbehaviour m) = Misbehaviour.validate m

-- `TryFrom<ProxyMessage>` for the three messages
unfoldable pub to_update_state :
    {T : Type 0} → ProxyMessage T → Result (Error T) (UpdateStateProxyMessage T)
unfolding message_type
to_update_state (update_state m) = ok m
to_update_state value = err (unexpected_message_type message_type_update_state (message_type value))

unfoldable pub to_verify_membership :
    {T : Type 0} → ProxyMessage T → Result (Error T) VerifyMembershipProxyMessage
unfolding message_type
to_verify_membership (verify_membership m) = ok m
to_verify_membership value = err (unexpected_message_type message_type_state (message_type value))

unfoldable pub to_misbehaviour :
    {T : Type 0} → ProxyMessage T → Result (Error T) (MisbehaviourProxyMessage T)
unfolding message_type
to_misbehaviour (misbehaviour m) = ok m
to_misbehaviour value = err (unexpected_message_type message_type_misbehaviour (message_type value))

module _ {T : Type 0} ⦃tm : TmTime T⦄ (libs : Libs) where
  unfoldable pub encode_payload : ProxyMessage T → Result (Error T) Bytes
  encode_payload (update_state m) = UpdateState.ethabi_encode libs m
  encode_payload (verify_membership m) = ok (VerifyMembership.ethabi_encode libs m)
  encode_payload (misbehaviour m) = Misbehaviour.ethabi_encode libs m

  -- `to_bytes`, by `ethabi_encode`
  unfoldable pub to_bytes : ProxyMessage T → Result (Error T) Bytes
  to_bytes m = do
    message ← encode_payload m
    ok (libs.headered_message.encode (record { header = header m; message = message }))

  -- The payload by the type that the header names.
  unfoldable pub decode_payload : ℕ → Bytes → Result (Error T) (ProxyMessage T)
  decode_payload type_ message =
      if type_ == message_type_update_state
      then (do m ← UpdateState.ethabi_decode libs message; ok (update_state m))
      else if type_ == message_type_state
      then (do m ← VerifyMembership.ethabi_decode libs message; ok (verify_membership m))
      else if type_ == message_type_misbehaviour
      then (do m ← Misbehaviour.ethabi_decode libs message; ok (misbehaviour m))
      else err invalid_abi

  -- `from_bytes`, by `ethabi_decode`
  unfoldable pub from_bytes : Bytes → Result (Error T) (ProxyMessage T)
  from_bytes bz = do
    m ← ok_or (libs.headered_message.decode bz) eth_abi_decode
    ensure (length m.header == 32) invalid_message_header
    ensure (from_be_bytes (take 2 m.header) == message_schema_version) invalid_message_header
    decode_payload (from_be_bytes (take 2 (drop 2 m.header))) m.message
