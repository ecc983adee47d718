-- ===== src/Examples/Updates.antt =====
-- Updating, freezing and asking the client, at concrete inputs.
use lcp.Base.{ℕ, ◌/◌, ◌*◌, ◌≡◌, refl, some, [], ◌∷◌, ok, replicate, arith}
use lcp.Base.Bytes.{codes, to_be_bytes, from_be_bytes}
use lcp.Base.HashMap
use lcp.Base.Equality
use lcp.Base.Decimal
use lcp.Types.Time
use lcp.Types.Time.{Nanos, nanos_per_sec}
use lcp.Types.Height
use lcp.Types.Height.{Height}
use lcp.Crypto
use lcp.Commitments.Context
use lcp.Commitments.Message.UpdateState
use lcp.Commitments.Message.Proxy
use lcp.Store.Memory
use lcp.Store.Memory.{memory_KvStore}
use lcp.LightClient.Path
use lcp.LightClient.Context as Host
use lcp.AttestationReport
use lcp.LcpClient.ClientState
use lcp.LcpClient.ConsensusState
use lcp.LcpClient.Reader
use lcp.LcpClient.Reader.{client_state, consensus_state}
use lcp.LcpClient.Client
use lcp.LcpClient.Client.{update_state, update, initialise}
use lcp.LcpClient.Client.Update.{
  Accepts, at_height, Highest, update_state-ok, update_state-stores, update_state-unchanged,
}
use lcp.LcpClient.Client.Freeze.{AcceptsMisbehaviour, submit_misbehaviour-ok}
use lcp.LcpClient.Client.Lasting.{updates, updates-frozen, update-SamePart}
use lcp.LcpClient.Message.{register_enclave_key, update_client}
use lcp.LightClient.Context.{get}
use lcp.LightClient.Path.{client_path}
use lcp.Base.Utf8.{is_utf8, chars}
use lcp.Commitments.Proof
use lcp.Commitments.StateId
use lcp.Commitments.Message.Misbehaviour
use lcp.Commitments.Message.VerifyMembership
use lcp.LcpClient.Client.{submit_misbehaviour, register}
use lcp.LcpClient.Reader.{verify_membership}
use lcp.Base.{◌≢◌}
use lcp.Examples.Clock.{clock, at, ops}
use lcp.Examples.Keys.{client_libs}
use lcp.Examples.Client.{
  client_id, client_id-NoSlash, initial, initial-IsClientState, created, eavr, registered, message,
  message-state_id, post_height, signer, signature, updated, at_ten, at_ten_frozen,
  at_ten-IsClientState, evidence, frozen_context, membership_proof, update_message,
}

-- The runs that the examples are about.
runs :
    ((update_state client_libs client_id initial message signer signature registered).0 ≡ ok tt)
    × ((submit_misbehaviour client_libs client_id at_ten evidence signer signature updated).0
        ≡ ok tt)
    × (client_state client_libs frozen_context client_id ≡ ok at_ten_frozen)
    × (verify_membership client_libs updated client_id
          (codes "ibc")
          (codes "acks/1")
          (1 ∷ 2 ∷ [])
          post_height
          membership_proof
        ≡ ok tt)
    × ((register client_libs client_id initial eavr created).0 ≡ ok tt)
    × (created.current_timestamp ≡ some 5000000000)
unfolding Equality.option_eq Host.consensus_state Client.submit_misbehaviour
    Reader.check_prev_states Misbehaviour.validate Misbehaviour.ethabi_encode
    ClientState.with_frozen ConsensusState.try_from ConsensusState.from_raw
    Time.from_unix_timestamp_nanos Reader.is_active_enclave_key Reader.verify_membership
    Proxy.to_verify_membership Proxy.from_bytes Proxy.decode_payload Proof.ethabi_decode
    Proof.proof_message VerifyMembership.ethabi_encode VerifyMembership.ethabi_decode
    VerifyMembership.from_abi StateId.try_from is_utf8 chars ClientState.whole_seconds
    Client.handle_proxy Equality.list_eq update_state initialise update Client.handle
    Client.register Client.write_update Reader.client_state Reader.consensus_state Reader.check_prev
    Reader.contains_enclave_key Reader.enclave_key_path Reader.verify_report Reader.add_enclave_key
    Path.client_path Path.client_state_path Path.client_consensus_state_path Host.set
    Host.host_timestamp Host.client_state Host.store_any_client_state Host.store_any_consensus_state
    ConsensusState.is_empty ConsensusState.to_raw ConsensusState.to_any ClientState.to_raw
    ClientState.from_raw ClientState.to_any ClientState.try_from ClientState.with_header Height.lt
    Height.cmp AttestationReport.get_avr AttestationReport.attestation_time
    AttestationReport.parse_quote AttestationReport.get_enclave_key_address Crypto.try_from
    Crypto.as_address Crypto.verify_signature Crypto.verify_signature_address Crypto.to_hex_string
    Memory.get Memory.set HashMap.get HashMap.insert Time.add Time.as_unix_timestamp_secs
    Time.as_unix_timestamp_nanos UpdateState.validate UpdateState.ethabi_encode UpdateState.to_abi
    Proxy.to_bytes Proxy.encode_payload Proxy.header Context.validate Context.ethabi_encode
    Context.header to_be_bytes from_be_bytes Decimal.to_string Decimal.emit
runs = (refl, refl, refl, refl, refl, refl)

refused :
    (update_state client_libs client_id at_ten_frozen message signer signature updated).0 ≢ ok tt
unfolding update_state UpdateState.validate
refused = ground arith

update_state-stores_example :
    let ctx = (update_state client_libs client_id initial message signer signature registered).1 in
    ((h : Height) × (client_state client_libs ctx client_id ≡ ok (at_height initial h))
      × Highest initial message h)
    × ((t : ℕ) × (consensus_state client_libs ctx client_id post_height
          ≡ ok (record { state_id = replicate 32 1; timestamp = t }))
        × Nanos ops t (2500000000 / nanos_per_sec * nanos_per_sec))
update_state-stores_example =
    update_state-stores client_libs registered client_id initial message signer signature
      client_id-NoSlash initial-IsClientState (omega arith, omega arith) message-state_id
      (at 2500000000 (omega arith)) runs.0

update_state-ok_example : Accepts client_libs registered client_id initial message signer signature
update_state-ok_example =
    update_state-ok client_libs registered client_id initial message signer signature runs.0

update_state-unchanged_example :
    (update_state client_libs client_id at_ten_frozen message signer signature updated).1 ≡ updated
update_state-unchanged_example =
    update_state-unchanged client_libs updated client_id at_ten_frozen message signer signature
      client_id-NoSlash at_ten-IsClientState (omega arith, omega arith) message-state_id
      (at 2500000000 (omega arith)) refused

submit_misbehaviour-ok_example :
    AcceptsMisbehaviour client_libs updated client_id at_ten evidence signer signature
    × (client_state client_libs frozen_context client_id ≡ ok at_ten_frozen)
submit_misbehaviour-ok_example =
    submit_misbehaviour-ok client_libs updated client_id at_ten evidence signer signature
      at_ten-IsClientState runs.1

updates-frozen_example :
    client_state client_libs
      (updates client_libs client_id
        (register_enclave_key eavr ∷ update_client update_message ∷ [])
        frozen_context)
      client_id
    ≡ ok at_ten_frozen
updates-frozen_example =
    updates-frozen client_libs frozen_context client_id at_ten_frozen
      (register_enclave_key eavr ∷ update_client update_message ∷ []) client_id-NoSlash runs.2 refl

update-SamePart_example :
    get
      (update client_libs client_id (register_enclave_key eavr) created).1
      (client_path (codes "lcp-1") (codes "clientState"))
    ≡ get created (client_path (codes "lcp-1") (codes "clientState"))
update-SamePart_example =
    update-SamePart client_libs created client_id (codes "lcp-1") (register_enclave_key eavr)
      (codes "clientState") client_id-NoSlash (ground arith) (ground arith)
