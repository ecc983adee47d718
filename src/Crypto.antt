-- ===== src/Crypto.antt =====
-- modules/crypto/src/key.rs and traits.rs: signing with the enclave key, recovering a signer, and
-- addresses. libsecp256k1, tiny_keccak and hex are other crates: the parameter `Secp256k1`.
pub mod Signing
use lcp.Base.{
  ℕ, ◌+◌, ◌≡◌, Bool, Option, some, List, [], ◌∷◌, ◌++◌, Result, ok, err, panic, ◌>>=◌, ◌>>◌, ok_or,
  assert, length, take, drop, if◌then◌else◌,
}
use lcp.Base.Equality.{PartialEq, ◌==◌, ℕ_PartialEq}
use lcp.Base.Bytes.{Bytes, IsArray, codes}

-- modules/crypto/src/errors.rs: the variants that the modelled code returns
pub data CryptoError : Type 0 where
  secp256k1 : CryptoError
  unexpected_signer : CryptoError
  invalid_address_length : ℕ → CryptoError
  nop_signer : CryptoError

-- `Address([u8; 20])`
abbrev pub Address : Type 0
Address = Bytes

pub record Secp256k1 (PK SK : Type 0) : Type 0 where
  pub keccak256 : Bytes → Bytes
  pub from_secret_key : SK → PK
  -- the signature's 64 bytes and the recovery id's byte, for a hash of 32 bytes
  pub sign_hash : Bytes → SK → Bytes × ℕ
  -- `parse_overflowing_slice`, `RecoveryId::parse` and `recover`, one after the other
  pub recover : Bytes → Bytes → ℕ → Option PK
  -- the uncompressed key, 65 bytes
  pub serialize : PK → Bytes
  pub eq_pk : PartialEq PK
  pub hex_encode : Bytes → Bytes
  pub keccak256-IsArray : (bz : Bytes) → IsArray 32 (keccak256 bz)
  pub length-sign_hash : (h : Bytes) (sk : SK) → length (sign_hash h sk).0 ≡ 64
  pub recover-sign_hash :
      (h : Bytes) (sk : SK)
      → recover h (sign_hash h sk).0 (sign_hash h sk).1 ≡ some (from_secret_key sk)
  pub hex_encode_injective : (a b : Bytes) → hex_encode a ≡ hex_encode b → a ≡ b

-- `trait Signer`
pub record Signer (PK : Type 0) : Type 0 where
  pub sign : Bytes → Result CryptoError Bytes
  pub pubkey : Result CryptoError PK

-- `TryFrom<&[u8]> for Address`
unfoldable pub try_from : Bytes → Result CryptoError Address
try_from value =
    if length value == 20 then ok value else err (invalid_address_length (length value))

abbrev pub nop_signer_impl : {PK : Type 0} → Signer PK
nop_signer_impl = record { sign = λ bz. err nop_signer; pubkey = err nop_signer }

-- a byte at an index, which panics out of range
byte_at : Bytes → Result CryptoError ℕ
byte_at [] = panic
byte_at (b ∷ bz) = ok b

module _ {PK SK : Type 0} (secp : Secp256k1 PK SK) where
  -- `keccak256(pubkey[1..])[12..]`
  unfoldable pub as_address : PK → Address
  as_address pk = drop 12 (secp.keccak256 (drop 1 (secp.serialize pk)))

  -- `impl Signer for EnclaveKey`: 64 bytes of signature and the recovery id
  unfoldable pub enclave_sign : SK → Bytes → Result CryptoError Bytes
  enclave_sign sk bz =
      let (sig, rid) = secp.sign_hash (secp.keccak256 bz) sk in ok (sig ++ rid ∷ [])

  -- `EnclaveKey` as a `Signer`
  abbrev pub enclave_signer : SK → Signer PK
  enclave_signer sk = record { sign = enclave_sign sk; pubkey = ok (secp.from_secret_key sk) }

  -- `impl Signer for SealedEnclaveKey`: the enclave unseals the key each time it signs. Unsealing is
  -- the SGX library's, the parameter `unseal`.
  module _ {SealedKey : Type 0} (unseal : SealedKey → Result CryptoError SK) where
    abbrev pub sealed_sign : SealedKey → Bytes → Result CryptoError Bytes
    sealed_sign sealed bz = do sk ← unseal sealed; enclave_sign sk bz

    abbrev pub sealed_pubkey : SealedKey → Result CryptoError PK
    sealed_pubkey sealed = do sk ← unseal sealed; ok (secp.from_secret_key sk)

    abbrev pub sealed_signer : SealedKey → Signer PK
    sealed_signer sealed = record { sign = sealed_sign sealed; pubkey = sealed_pubkey sealed }

  unfoldable pub verify_signature : Bytes → Bytes → Result CryptoError PK
  unfolding byte_at
  verify_signature sign_bytes signature = do
    assert (length signature == 65)
    rid ← byte_at (drop 64 signature)
    ok_or (secp.recover (secp.keccak256 sign_bytes) (take 64 signature) rid) secp256k1

  unfoldable pub verify_signature_address : Bytes → Bytes → Result CryptoError Address
  verify_signature_address sign_bytes signature = do
    signer ← verify_signature sign_bytes signature
    ok (as_address signer)

  -- `impl Verifier for EnclavePublicKey`
  unfoldable pub verify : PK → Bytes → Bytes → Result CryptoError (Unit {0})
  verify pk msg signature = do
    signer ← verify_signature msg signature
    if secp.eq_pk.eq pk signer then ok tt else err unexpected_signer

  -- `Display for Address`
  unfoldable pub to_hex_string : Address → Bytes
  to_hex_string a = codes "0x" ++ secp.hex_encode a
