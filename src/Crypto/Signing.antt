-- ===== src/Crypto/Signing.antt =====
-- What a signature of an enclave key proves (modules/crypto/src/key.rs).
use lcp.Base.{
  ℕ, ◌≡◌, refl, ap, ◌∙◌, [], ◌∷◌, ◌++◌, ok, ok_or, length, length-append, take-append_length,
  drop-append_length, arith,
}
use lcp.Base.Bytes.{Bytes}
use lcp.Crypto.{
  Secp256k1, enclave_sign, byte_at, verify_signature, verify_signature_address, verify, as_address,
  secp256k1,
}

module _ {PK SK : Type 0} (secp : Secp256k1 PK SK) where
  recover_signed :
      (msg sig : Bytes) (rid : ℕ)
      → length sig ≡ 64
      → verify_signature secp msg (sig ++ rid ∷ [])
        ≡ ok_or (secp.recover (secp.keccak256 msg) sig rid) secp256k1
  unfolding verify_signature byte_at
  recover_signed msg sig rid h =
      rw (drop-append_length 64 sig (rid ∷ []) h, take-append_length 64 sig (rid ∷ []) h)
        (ground (arith, length-append sig (rid ∷ [])))

  -- The signature that an enclave key makes of a message has 65 bytes, and whoever recovers its
  -- signer from the same message finds that key's public key and address.
  pub verify_signature-enclave_sign :
      (sk : SK) (msg : Bytes)
      → (sig : Bytes) × (enclave_sign secp sk msg ≡ ok sig)
        × (length sig ≡ 65)
        × (verify_signature secp msg sig ≡ ok (secp.from_secret_key sk))
        × (verify_signature_address secp msg sig ≡ ok (as_address secp (secp.from_secret_key sk)))
        × (verify secp (secp.from_secret_key sk) msg sig ≡ ok tt)
  unfolding enclave_sign verify_signature_address verify
  verify_signature-enclave_sign sk msg =
      let h = secp.keccak256 msg in
      let sig = (secp.sign_hash h sk).0 in
      let rid = (secp.sign_hash h sk).1 in
      let recovered : verify_signature secp msg (sig ++ rid ∷ []) ≡ ok (secp.from_secret_key sk) =
        recover_signed msg sig rid (secp.length-sign_hash h sk)
        ∙ ap (λ o. ok_or o secp256k1) (secp.recover-sign_hash h sk) in
      (
        sig ++ rid ∷ [],
        refl,
        omega (arith, length-append sig (rid ∷ []), secp.length-sign_hash h sk),
        recovered,
        rw recovered refl,
        rw (recovered, (secp.eq_pk.eq_iff (secp.from_secret_key sk) _).1 refl) refl,
      )
