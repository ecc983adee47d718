-- ===== src/LcpClient/Message.antt =====
-- modules/lcp-client/src/message.rs: what a client is sent.
use lcp.Base.{Result, ok, err, ◌>>=◌, ok_or, map_err, if◌then◌else◌}
use lcp.Base.Equality.{◌==◌}
use lcp.Base.Bytes.{Bytes, IsBytes, codes, bytes_PartialEq}
use lcp.Base.Codec.{Codec}
use lcp.Types.Any.{Any}
use lcp.Types.Time.{TmTime}
use lcp.Crypto
use lcp.Crypto.{Address}
use lcp.Commitments.Abi.{Libs}
use lcp.Commitments.Message.Proxy
use lcp.Commitments.Message.Proxy.{ProxyMessage}
use lcp.AttestationReport.{EndorsedAttestationVerificationReport}
use lcp.LcpClient.Errors.{Error, ibc_proto, crypto_error, commitment_proof, unexpected_header_type}

abbrev pub lcp_register_enclave_key_message_type_url : Bytes
lcp_register_enclave_key_message_type_url =
    codes "/ibc.lightclients.lcp.v1.RegisterEnclaveKeyMessage"

abbrev pub lcp_update_client_message_type_url : Bytes
lcp_update_client_message_type_url = codes "/ibc.lightclients.lcp.v1.UpdateClientMessage"

pub record UpdateClientMessage (T : Type 0) : Type 0 where
  pub signer : Address
  pub signature : Bytes
  pub proxy_message : ProxyMessage T

pub data ClientMessage (T : Type 0) : Type 0 where
  register_enclave_key : EndorsedAttestationVerificationReport → ClientMessage T
  update_client : UpdateClientMessage T → ClientMessage T

pub record RawUpdateClientMessage : Type 0 where
  pub proxy_message : Bytes
  pub signer : Bytes
  pub signature : Bytes

abbrev pub IsRawUpdateClientMessage : RawUpdateClientMessage → Type 0
IsRawUpdateClientMessage r = IsBytes r.proxy_message × IsBytes r.signer × IsBytes r.signature

abbrev pub IsEavr : EndorsedAttestationVerificationReport → Type 0
IsEavr r = IsBytes r.avr × IsBytes r.signature × IsBytes r.signing_cert

-- prost's encodings of the two messages. `RawRegisterEnclaveKeyMessage` has the fields of the
-- endorsed report.
pub record MessageLibs : Type 0 where
  pub raw_register : Codec IsEavr
  pub raw_update : Codec IsRawUpdateClientMessage

module _ {T : Type 0} ⦃tm : TmTime T⦄ (libs : Libs) where
  unfoldable pub from_raw : RawUpdateClientMessage → Result (Error T) (UpdateClientMessage T)
  from_raw value = do
    signer ← map_err crypto_error (Crypto.try_from value.signer)
    message ← map_err commitment_proof (Proxy.from_bytes libs value.proxy_message)
    ok (record { signer = signer; signature = value.signature; proxy_message = message })

  unfoldable pub to_raw : UpdateClientMessage T → Result (Error T) RawUpdateClientMessage
  to_raw value = do
    bz ← map_err commitment_proof (Proxy.to_bytes libs value.proxy_message)
    ok (record { proxy_message = bz; signer = value.signer; signature = value.signature })

  module _ (prost : MessageLibs) where
    -- A failed conversion inside `decode_vec` is an error of the protobuf library too.
    unfoldable pub try_from : Any → Result (Error T) (ClientMessage T)
    try_from raw =
        if raw.type_url == lcp_register_enclave_key_message_type_url
        then (do
          m ← ok_or (prost.raw_register.decode raw.value) ibc_proto
          ok (register_enclave_key m))
        else if raw.type_url == lcp_update_client_message_type_url
        then (do
          value ← ok_or (prost.raw_update.decode raw.value) ibc_proto
          m ← map_err (λ e. ibc_proto) (from_raw value)
          ok (update_client m))
        else err unexpected_header_type

    unfoldable pub to_any : ClientMessage T → Result (Error T) Any
    to_any (register_enclave_key h) = ok (record {
      type_url = lcp_register_enclave_key_message_type_url;
      value = prost.raw_register.encode h;
    })
    to_any (update_client h) = do
      raw ← to_raw h
      ok (record {
        type_url = lcp_update_client_message_type_url;
        value = prost.raw_update.encode raw;
      })
