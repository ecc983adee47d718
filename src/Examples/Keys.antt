-- ===== src/Examples/Keys.antt =====
-- Concrete keys and reports: a key is a byte, whose signature is 64 times that byte.
use lcp.Base.{
  ℕ, ◌+◌, ◌*◌, ◌%◌, ◌<◌, refl, Option, none, some, [], ◌∷◌, ◌++◌, ok, replicate, length-replicate,
  All-replicate, arith,
}
use lcp.Base.Equality.{ℕ_PartialEq}
use lcp.Base.Bytes.{Bytes, codes}
use lcp.Crypto.{Secp256k1}
use lcp.AttestationReport.{ReportLibs, pos}
use lcp.LcpClient.Reader.{ClientLibs}
use lcp.Examples.Abi.{libs, bincode, raw_client_state, raw_consensus_state}
use lcp.Examples.Clock.{clock}

abbrev first : Bytes → ℕ
first [] = 0
first (b ∷ bz) = b

abbrev total : Bytes → ℕ
total [] = 0
total (b ∷ bz) = b + 3 * total bz

-- A hash is 32 times one byte.
abbrev hash : Bytes → Bytes
hash bz = replicate 32 (total bz % 256)

abbrev head : Bytes → Option ℕ
head [] = none
head (b ∷ bz) = some b

abbrev pub secp : Secp256k1 ℕ ℕ
secp = record {
  keccak256 = hash;
  from_secret_key = λ sk. sk;
  sign_hash = λ h sk. (replicate 64 sk, 0);
  recover = λ h sig rid. head sig;
  serialize = λ pk. replicate 65 pk;
  eq_pk = ℕ_PartialEq;
  hex_encode = λ bz. bz;
  keccak256-IsArray = λ bz. (
    length-replicate 32 (total bz % 256),
    All-replicate (λ b. b < 256) 32 (total bz % 256) (omega arith),
  );
  length-sign_hash = λ h sk. length-replicate 64 sk;
  recover-sign_hash = λ h sk. refl;
  hex_encode_injective = λ a b e. e;
}

-- A report says that key 7 runs in an enclave measured as 32 times 9, one second after the epoch.
abbrev pub report : ReportLibs ℕ
report = record {
  from_slice = λ bz. some (record {
    timestamp = [];
    version = pos 4;
    isv_enclave_quote_status = codes "OK";
    isv_enclave_quote_body = bz;
  });
  base64_decode = λ bz. some bz;
  read_quote = λ bz. record {
    mr_enclave = replicate 32 9;
    report_data = hash (replicate 64 7) ++ replicate 32 0;
  };
  parse_from_str = λ bz. some (1, 0);
  verify_report = λ now eavr. ok tt;
}

abbrev pub client_libs : ClientLibs ℕ ℕ ℕ
client_libs = record {
  abi = libs;
  bincode = bincode;
  client_state = raw_client_state;
  consensus_state = raw_consensus_state;
  secp = secp;
  report = report;
}
