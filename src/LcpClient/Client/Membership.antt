-- ===== src/LcpClient/Client/Membership.antt =====
-- What a verified membership proof has shown.
use lcp.Base.{◌≡◌, true, some, ok}
use lcp.Base.Equality.{option_PartialEq}
use lcp.Base.Bytes.{Bytes, bytes_PartialEq}
use lcp.Types.Time.{TmTime}
use lcp.Types.Height.{Height, height_PartialEq}
use lcp.Crypto.{verify_signature_address}
use lcp.Commitments.Message.Proxy.{verify_membership}
use lcp.Commitments.Message.VerifyMembership.{VerifyMembershipProxyMessage}
use lcp.Commitments.Proof
use lcp.Commitments.Proof.{CommitmentProof}
use lcp.Store.KvStore.{KvStore}
use lcp.LightClient.Path.{ClientId}
use lcp.LightClient.Context.{Context}
use lcp.LcpClient.ConsensusState.{ConsensusState}
use lcp.LcpClient.Reader.{ClientLibs, consensus_state, is_active_enclave_key}
use lcp.LcpClient.Reader

module _ {T PK SK S : Type 0} ⦃tm : TmTime T⦄ ⦃kv : KvStore S⦄ (libs : ClientLibs T PK SK) where
  -- What the proof's bytes hold and what the store says of it.
  pub record Proves (ctx : Context T S) (id : ClientId) (prefix path value : Bytes)
      (height : Height) (proof : Bytes) : Type 0 where
    pub commitment : CommitmentProof
    pub message : VerifyMembershipProxyMessage
    pub consensus : ConsensusState T
    pub decoded : Proof.ethabi_decode {T = T} libs.abi proof ≡ ok commitment
    pub proved : Proof.proof_message {T = T} libs.abi commitment ≡ ok (verify_membership message)
    pub same_prefix : message.prefix ≡ prefix
    pub same_path : message.path ≡ path
    pub same_height : message.height ≡ height
    pub hash : message.value ≡ some (libs.secp.keccak256 value)
    pub stored : consensus_state libs ctx id height ≡ ok consensus
    pub same_state : consensus.state_id ≡ message.state_id
    pub signed :
        verify_signature_address libs.secp commitment.message commitment.signature
        ≡ ok commitment.signer
    pub active : is_active_enclave_key libs ctx id commitment.signer ≡ ok true
