-- ===== src/Commitments/Message/Proxy/Codec.antt =====
-- The round trip of a `ProxyMessage` through its bytes (modules/commitments/src/message.rs).
use lcp.Base.{◌≡◌, refl, ◌∙◌, some, ok, arith}
use lcp.Base.Bytes.{Bytes, IsBytes, IsArray, to_be_bytes, from_be_bytes}
use lcp.Types.Time.{TmTime}
use lcp.Commitments.Abi.{Libs, EthAbiHeaderedMessage, IsEthAbiHeaderedMessage}
use lcp.Commitments.Message.UpdateState.Codec as U
use lcp.Commitments.Message.Misbehaviour as M
use lcp.Commitments.Message.VerifyMembership as V
use lcp.Commitments.Message.Proxy.{
  ProxyMessage, update_state, verify_membership, misbehaviour, message_type, header, encode_payload,
  decode_payload, to_bytes, from_bytes,
}

pub header-IsArray : {T : Type 0} (m : ProxyMessage T) → IsArray 32 (header m)
unfolding header to_be_bytes
header-IsArray (update_state m) = omega arith
header-IsArray (verify_membership m) = omega arith
header-IsArray (misbehaviour m) = omega arith

module _ {T : Type 0} ⦃tm : TmTime T⦄ where
  -- The Rust types of the message, with times from the epoch on.
  abbrev pub IsMessage : ProxyMessage T → Type 0
  IsMessage (update_state m) = U.IsMessage m
  IsMessage (verify_membership m) = V.IsMessage m
  IsMessage (misbehaviour m) = M.IsMessage m

  -- The message that the bytes stand for.
  abbrev pub keep : ProxyMessage T → ProxyMessage T
  keep (update_state m) = update_state (U.keep m)
  keep (verify_membership m) = verify_membership (record m { value = V.keep_value m.value })
  keep (misbehaviour m) = misbehaviour m

  module _ (libs : Libs) where
    payload_round_trip :
        (m : ProxyMessage T)
        → IsMessage m
        → (bz : Bytes) × (encode_payload libs m ≡ ok bz)
          × IsBytes bz
          × (decode_payload libs (message_type m) bz ≡ ok (keep m))
    unfolding encode_payload decode_payload message_type
    payload_round_trip (update_state m) v =
        let (bz, made, bytes, back) = U.decode-encode libs m v in (bz, made, bytes, rw back refl)
    payload_round_trip (verify_membership m) v =
        let (bytes, back) = V.decode-encode libs {T = T} m v in (_, refl, bytes, rw back refl)
    payload_round_trip (misbehaviour m) v =
        let (bz, made, bytes, back) = M.decode-encode libs m v in (bz, made, bytes, rw back refl)

    -- The header's version and type are read back.
    read_header :
        (m : ProxyMessage T) (bz payload : Bytes)
        → libs.headered_message.decode bz ≡ some (record { header = header m; message = payload })
        → from_bytes {T = T} libs bz ≡ decode_payload libs (message_type m) payload
    unfolding from_bytes header message_type to_be_bytes from_be_bytes
    read_header (update_state m) bz payload h = rw h refl
    read_header (verify_membership m) bz payload h = rw h refl
    read_header (misbehaviour m) bz payload h = rw h refl

    -- A message of the Rust types is turned to bytes, with no panic, and read back from them, but
    -- that an update's previous height or state id of zero comes back as missing, and a membership's
    -- value of 32 zero bytes as no value.
    pub from_bytes-to_bytes :
        (m : ProxyMessage T)
        → IsMessage m
        → (bz : Bytes) × (to_bytes libs m ≡ ok bz) × IsBytes bz × (from_bytes libs bz ≡ ok (keep m))
    unfolding to_bytes
    from_bytes-to_bytes m v =
        let (payload, made, bytes, back) = payload_round_trip m v in
        let abi : EthAbiHeaderedMessage = record { header = header m; message = payload } in
        let valid : IsEthAbiHeaderedMessage abi = (header-IsArray m, bytes) in
        (
          libs.headered_message.encode abi,
          rw made refl,
          libs.headered_message.encode-IsBytes abi valid,
          read_header m (libs.headered_message.encode abi) payload
                (libs.headered_message.decode-encode abi valid)
              ∙ back,
        )
