-- ===== src/AttestationReport.antt =====
-- modules/attestation-report/src/report.rs: the attestation report of an enclave and its quote.
-- serde_json, base64, chrono and the layout of `sgx_quote_t` are other crates': the parameter
-- `ReportLibs`. `verify_report` stands there too, for the X.509 chain that it checks.
use lcp.Base.{
  ℕ, Bool, false, Option, Result, ok, err, ◌>>=◌, ◌>>◌, ok_or, expect, ensure, map_err, length,
  take, ltb, if◌then◌else◌,
}
use lcp.Base.Equality.{◌==◌, ℕ_PartialEq}
use lcp.Base.Bytes.{Bytes, bytes_PartialEq}
use lcp.Types.Errors.{TimeError, tendermint}
use lcp.Types.Time.{TmTime}
use lcp.Crypto
use lcp.Crypto.{CryptoError, Address}

-- An `i64` of the report.
pub data ℤ : Type 0 where
  pos : ℕ → ℤ
  negsuc : ℕ → ℤ

abbrev is_version : ℕ → ℤ → Bool
is_version v (pos n) = n == v
is_version v (negsuc n) = false

-- modules/attestation-report/src/errors.rs: the variants that the modelled code returns
pub data Error : Type 0 where
  serde_json : Error
  base64 : Error
  unexpected_attestation_report_version : ℕ → ℤ → Error
  time_error : TimeError → Error
  invalid_report_data_size : ℕ → Error
  mrenclave_mismatch : Bytes → Bytes → Error
  crypto : CryptoError → Error
  web_pki : Error

pub record EndorsedAttestationVerificationReport : Type 0 where
  pub avr : Bytes
  pub signature : Bytes
  pub signing_cert : Bytes

-- The fields that the modelled code reads.
pub record AttestationVerificationReport : Type 0 where
  pub timestamp : Bytes
  pub version : ℤ
  pub isv_enclave_quote_status : Bytes
  pub isv_enclave_quote_body : Bytes

-- `sgx_quote_t`, as far as the code reads it: `mr_enclave` of 32 bytes and `report_data` of 64.
pub record SgxQuote : Type 0 where
  pub mr_enclave : Bytes
  pub report_data : Bytes

pub record Quote (T : Type 0) : Type 0 where
  pub raw : SgxQuote
  pub status : Bytes
  pub attestation_time : T

pub record ReportLibs (T : Type 0) : Type 0 where
  pub from_slice : Bytes → Option AttestationVerificationReport
  pub base64_decode : Bytes → Option Bytes
  -- the bytes read as an `sgx_quote_t`
  pub read_quote : Bytes → SgxQuote
  -- `timestamp()` and `timestamp_subsec_nanos()` of a date from 1970 on
  pub parse_from_str : Bytes → Option (ℕ × ℕ)
  pub verify_report : T → EndorsedAttestationVerificationReport → Result Error (Unit {0})

module _ {T : Type 0} ⦃tm : TmTime T⦄ (libs : ReportLibs T) where
  unfoldable pub get_avr :
      EndorsedAttestationVerificationReport → Result Error AttestationVerificationReport
  get_avr eavr = ok_or (libs.from_slice eavr.avr) serde_json

  unfoldable pub attestation_time : AttestationVerificationReport → Result Error T
  attestation_time avr = do
    (secs, nanos) ← expect (libs.parse_from_str avr.timestamp)
    ok_or (tm.from_unix_timestamp secs nanos) (time_error tendermint)

  unfoldable pub parse_quote : AttestationVerificationReport → Result Error (Quote T)
  parse_quote avr = do
    ensure (is_version 4 avr.version) (unexpected_attestation_report_version 4 avr.version)
    quote ← ok_or (libs.base64_decode avr.isv_enclave_quote_body) base64
    time ← attestation_time avr
    ok (record {
      raw = libs.read_quote quote;
      status = avr.isv_enclave_quote_status;
      attestation_time = time;
    })

unfoldable pub get_enclave_key_address : {T : Type 0} → Quote T → Result Error Address
get_enclave_key_address quote =
    if ltb (length quote.raw.report_data) 20
    then err (invalid_report_data_size (length quote.raw.report_data))
    else map_err crypto (Crypto.try_from (take 20 quote.raw.report_data))

-- `match_metadata`, on the enclave hash of the metadata
unfoldable pub match_metadata : {T : Type 0} → Quote T → Bytes → Result Error (Unit {0})
match_metadata quote enclave_hash =
    ensure (quote.raw.mr_enclave == enclave_hash)
      (mrenclave_mismatch quote.raw.mr_enclave enclave_hash)
