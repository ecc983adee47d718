-- ===== src/LcpClient/Errors.antt =====
-- modules/lcp-client/src/errors.rs. The text of an unexpected message is left out.
use lcp.Base.Bytes.{Bytes}
use lcp.Types.Errors.{TimeError}
use lcp.Types.Time.{Duration}
use lcp.Crypto.{CryptoError}
use lcp.Commitments.Errors as CommitmentErrors
use lcp.LightClient.Errors as LightClientErrors
use lcp.AttestationReport

pub data Error (T : Type 0) : Type 0 where
  unexpected_client_type : Bytes → Error T
  unexpected_header_type : Error T
  expired_avr : T → T → Duration → Error T
  mrenclave_mismatch : Bytes → Bytes → Error T
  attestation_report : AttestationReport.Error → Error T
  time : TimeError → Error T
  crypto_error : CryptoError → Error T
  light_client_error : LightClientErrors.Error T → Error T
  commitment_proof : CommitmentErrors.Error T → Error T
  ibc_proto : Error T
