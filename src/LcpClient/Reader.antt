-- ===== src/LcpClient/Reader.antt =====
-- modules/lcp-client/src/client_def.rs: what `LCPClient` reads and verifies without a change of its
-- context: the enclave keys, a report, a membership proof.
use lcp.Base.{
  ℕ, Bool, false, not, ◌&&◌, none, some, List, [], ◌∷◌, ◌++◌, Result, ok, panic, ◌>>=◌, ◌>>◌,
  map_err, unwrap, expect, assert, ensure, length, ltb, if◌then◌else◌,
}
use lcp.Base.Equality.{◌==◌, ℕ_PartialEq, option_PartialEq}
use lcp.Base.Bytes.{Bytes, codes, bytes_PartialEq, to_be_bytes, from_be_bytes}
use lcp.Base.Codec.{Codec}
use lcp.Types.Any.{IsAny}
use lcp.Types.Time.{TmTime, add, as_unix_timestamp_secs}
use lcp.Types.Height
use lcp.Types.Height.{Height, height_PartialEq}
use lcp.Crypto.{Secp256k1, Address, verify_signature_address, to_hex_string}
use lcp.Commitments.Abi.{Libs}
use lcp.Commitments.Message.UpdateState.{UpdateStateProxyMessage, is_none}
use lcp.Commitments.Message.Misbehaviour.{PrevState}
use lcp.Commitments.Message.Proxy.{to_verify_membership}
use lcp.Commitments.Proof
use lcp.Store.KvStore.{KvStore}
use lcp.LightClient.Path.{ClientId, client_path}
use lcp.LightClient.Context as Host
use lcp.LightClient.Context.{Context, host_timestamp, get, set}
use lcp.AttestationReport
use lcp.AttestationReport.{ReportLibs, EndorsedAttestationVerificationReport, get_avr, parse_quote}
use lcp.LcpClient.Errors.{
  Error, expired_avr, mrenclave_mismatch, attestation_report, time, crypto_error,
  light_client_error, commitment_proof,
}
use lcp.LcpClient.ClientState
use lcp.LcpClient.ClientState.{ClientState, IsRawClientState}
use lcp.LcpClient.ConsensusState
use lcp.LcpClient.ConsensusState.{ConsensusState, IsRawConsensusState}

abbrev pub lcp_client_type : Bytes
lcp_client_type = codes "0000-lcp"

-- The libraries of other crates that the client stands on.
pub record ClientLibs (T PK SK : Type 0) : Type 0 where
  pub abi : Libs
  pub bincode : Codec IsAny
  pub client_state : Codec IsRawClientState
  pub consensus_state : Codec IsRawConsensusState
  pub secp : Secp256k1 PK SK
  pub report : ReportLibs T

module _ {T PK SK : Type 0} ⦃tm : TmTime T⦄ (libs : ClientLibs T PK SK) where
  unfoldable pub verify_report :
      T → ClientState → EndorsedAttestationVerificationReport → Result (Error T) (Address × T)
  verify_report current_timestamp state eavr = do
    map_err attestation_report (libs.report.verify_report current_timestamp eavr)
    avr ← map_err attestation_report (get_avr libs.report eavr)
    quote ← map_err attestation_report (parse_quote libs.report avr)
    key_expiration ← map_err time (add quote.attestation_time state.key_expiration)
    ensure (not (tm.lt key_expiration current_timestamp))
        (expired_avr current_timestamp quote.attestation_time state.key_expiration)
    ensure (quote.raw.mr_enclave == state.mr_enclave)
        (mrenclave_mismatch quote.raw.mr_enclave state.mr_enclave)
    key ← map_err attestation_report (AttestationReport.get_enclave_key_address quote)
    ok (key, quote.attestation_time)

-- `format!("clients/{}/aux/enclave_keys/{}")`
unfoldable pub enclave_key_path :
    {T PK SK : Type 0} → ClientLibs T PK SK → ClientId → Address → Bytes
enclave_key_path libs client_id key =
    client_path client_id (codes "aux/enclave_keys/" ++ to_hex_string libs.secp key)

module _ {T PK SK S : Type 0} ⦃tm : TmTime T⦄ ⦃kv : KvStore S⦄ (libs : ClientLibs T PK SK) where
  unfoldable pub contains_enclave_key : Context T S → ClientId → Address → Bool
  contains_enclave_key ctx client_id key =
      not (is_none (get ctx (enclave_key_path libs client_id key)))

  unfoldable pub is_active_enclave_key : Context T S → ClientId → Address → Result (Error T) Bool
  is_active_enclave_key ctx client_id key = elim (get ctx (enclave_key_path libs client_id key)) [
    | none ↦ ok false
    | some bz ↦
        if length bz == 8
        then (do
          now ← host_timestamp ctx
          secs ← as_unix_timestamp_secs now
          ok (ltb secs (from_be_bytes bz)))
        else panic
  ]

  unfoldable pub add_enclave_key : ClientId → Address → ℕ → Context T S → Context T S
  add_enclave_key client_id key expired_at ctx =
      set ctx (enclave_key_path libs client_id key) (to_be_bytes 8 expired_at)

  -- `ctx.client_state(&client_id)?.try_into()?`
  unfoldable pub client_state : Context T S → ClientId → Result (Error T) ClientState
  client_state ctx client_id = do
    any ← map_err light_client_error (Host.client_state libs.bincode ctx client_id)
    ClientState.try_from libs.client_state any

  -- `ctx.consensus_state(&client_id, &height)?.try_into()?`
  unfoldable pub consensus_state :
      Context T S → ClientId → Height → Result (Error T) (ConsensusState T)
  consensus_state ctx client_id height = do
    any ← map_err light_client_error (Host.consensus_state libs.bincode ctx client_id height)
    ConsensusState.try_from libs.consensus_state any

  -- What `update_state` asks of the message's previous state: none before the first update, and then
  -- one that the client has stored.
  unfoldable pub check_prev :
      Context T S → ClientId → ClientState → UpdateStateProxyMessage T → Result (Error T) (Unit {0})
  check_prev ctx client_id state message =
      if Height.is_zero state.latest_height
      then assert (not (length message.emitted_states == 0))
      else (do
        assert (not (is_none message.prev_height) && not (is_none message.prev_state_id))
        height ← expect message.prev_height
        prev ← consensus_state ctx client_id height
        id ← expect message.prev_state_id
        assert (prev.state_id == id))

  -- The loop of `submit_misbehaviour` over the previous states.
  unfoldable pub check_prev_states :
      Context T S → ClientId → List PrevState → Result (Error T) (Unit {0})
  check_prev_states ctx client_id [] = ok tt
  check_prev_states ctx client_id (state ∷ states) = do
    prev ← consensus_state ctx client_id state.height
    assert (prev.state_id == state.state_id)
    check_prev_states ctx client_id states

  unfoldable pub verify_membership :
      Context T S → ClientId → Bytes → Bytes → Bytes → Height → Bytes → Result (Error T) (Unit {0})
  verify_membership ctx client_id prefix path value proof_height proof = do
    commitment_proof_ ← unwrap (Proof.ethabi_decode {T = T} libs.abi proof)
    message ← map_err commitment_proof (Proof.proof_message libs.abi commitment_proof_)
    msg ← map_err commitment_proof (to_verify_membership message)
    assert (msg.prefix == prefix)
    assert (msg.path == path)
    assert (msg.height == proof_height)
    assert (msg.value == some (libs.secp.keccak256 value))
    state ← consensus_state ctx client_id proof_height
    assert (state.state_id == msg.state_id)
    signer ←
        map_err crypto_error
          (verify_signature_address libs.secp commitment_proof_.message commitment_proof_.signature)
    assert (commitment_proof_.signer == signer)
    active ← is_active_enclave_key ctx client_id signer
    assert active
