-- ===== src/Commitments/Proof.antt =====
-- modules/commitments/src/proof.rs and prover.rs: a message's bytes with a signature over them.
use lcp.Base.{
  ◌≡◌, refl, Bool, not, true, [], ok, Result, ◌>>=◌, ◌>>◌, ok_or, map_err, length, replicate,
  Result-cases, inl, inr, arith,
}
use lcp.Base.Equality.{◌==◌, ℕ_PartialEq}
use lcp.Base.Bytes.{Bytes}
use lcp.Types.Time.{TmTime}
use lcp.Crypto.{Address, Signer, Secp256k1, enclave_signer, verify_signature_address, as_address}
use lcp.Crypto.Signing.{verify_signature-enclave_sign}
use lcp.Commitments.Errors.{Error, crypto, eth_abi_decode}
use lcp.Commitments.Abi.{Libs, EthAbiCommitmentProof, IsEthAbiCommitmentProof}
use lcp.Commitments.Message.Proxy
use lcp.Commitments.Message.Proxy.{ProxyMessage}

pub record CommitmentProof : Type 0 where
  pub message : Bytes
  pub signer : Address
  pub signature : Bytes

abbrev pub new_with_no_signature : Bytes → CommitmentProof
new_with_no_signature message = record {
  message = message;
  signer = replicate 20 0;
  signature = [];
}

unfoldable pub is_proven : CommitmentProof → Bool
is_proven p = not (length p.signature == 0)

-- `From<CommitmentProof> for EthABICommitmentProof` and back
abbrev pub to_abi : CommitmentProof → EthAbiCommitmentProof
to_abi p = record { message = p.message; signer = p.signer; signature = p.signature }

abbrev pub from_abi : EthAbiCommitmentProof → CommitmentProof
from_abi p = record { message = p.message; signer = p.signer; signature = p.signature }

unfoldable pub ethabi_encode : Libs → CommitmentProof → Bytes
ethabi_encode libs p = libs.commitment_proof.encode (to_abi p)

unfoldable pub ethabi_decode : {T : Type 0} → Libs → Bytes → Result (Error T) CommitmentProof
ethabi_decode libs bz = do
  p ← ok_or (libs.commitment_proof.decode bz) eth_abi_decode
  ok (from_abi p)

-- A proof with a 20-byte signer is read back from its encoding.
pub ethabi_decode-ethabi_encode :
    {T : Type 0} (libs : Libs) (p : CommitmentProof)
    → IsEthAbiCommitmentProof (to_abi p)
    → ethabi_decode {T = T} libs (ethabi_encode libs p) ≡ ok p
unfolding ethabi_decode ethabi_encode
ethabi_decode-ethabi_encode libs p v = rw (libs.commitment_proof.decode-encode (to_abi p) v) refl

module _ {T : Type 0} ⦃tm : TmTime T⦄ (libs : Libs) where
  -- `CommitmentProof::message`
  unfoldable pub proof_message : CommitmentProof → Result (Error T) (ProxyMessage T)
  proof_message p = Proxy.from_bytes libs p.message

  unfoldable pub prove_commitment :
      {PK : Type 0} → Signer PK → Address → ProxyMessage T → Result (Error T) CommitmentProof
  prove_commitment signer signer_address message = do
    Proxy.validate message
    message_bytes ← Proxy.to_bytes libs message
    signature ← map_err crypto (signer.sign message_bytes)
    ok (record { message = message_bytes; signer = signer_address; signature = signature })

  -- A proof names the signer that was asked for.
  pub prove_commitment-signer :
      {PK : Type 0} (ek : Signer PK) (address : Address) (message : ProxyMessage T)
      {proof : CommitmentProof}
      → prove_commitment ek address message ≡ ok proof
      → proof.signer ≡ address
  unfolding prove_commitment
  prove_commitment-signer ek address message h = elim (Result-cases (Proxy.validate message)) [
    | inr e ↦ absurd (ground arith)
    | inl (u, valid) ↦ elim (Result-cases (Proxy.to_bytes libs message)) [
      | inr e ↦ absurd (ground arith)
      | inl (bz, made) ↦ elim (Result-cases (ek.sign bz)) [
        | inr e ↦ absurd (ground arith)
        | inl (sig, signed) ↦ ground arith
      ]
    ]
  ]

  -- With an enclave key whose address is the one given, a proved message passes `validate`, its
  -- proof holds its bytes, names the address, is proven, and its signature recovers that address.
  pub prove_commitment-ok :
      {PK SK : Type 0} (secp : Secp256k1 PK SK) (sk : SK) (message : ProxyMessage T)
      {proof : CommitmentProof}
      → prove_commitment
          (enclave_signer secp sk)
          (as_address secp (secp.from_secret_key sk))
          message
        ≡ ok proof
      → (Proxy.validate message ≡ ok tt)
        × (Proxy.to_bytes libs message ≡ ok proof.message)
        × (is_proven proof ≡ true)
        × (verify_signature_address secp proof.message proof.signature ≡ ok proof.signer)
  unfolding prove_commitment is_proven
  prove_commitment-ok secp sk message {proof} h = elim (Result-cases (Proxy.validate message)) [
    | inr e ↦ absurd (ground arith)
    | inl (u, valid) ↦ elim (Result-cases (Proxy.to_bytes libs message)) [
      | inr e ↦ absurd (ground arith)
      | inl (bz, made) ↦
          let (sig, signed, len, key, addr, own) = verify_signature-enclave_sign secp sk bz in
          (valid, ground arith, ground arith, ground arith)
    ]
  ]
