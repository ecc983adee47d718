-- ===== src/LcpClient/ClientState/RoundTrip.antt =====
-- The protobuf form of a client state keeps all but the fraction of a second of the expiration.
use lcp.Base.{◌≡◌, ok, arith}
use lcp.Base.Equality.{==_refl}
use lcp.Base.Bytes.{bytes_PartialEq, IsBytes}
use lcp.Base.Codec.{Codec}
use lcp.Types.Time.{IsDuration}
use lcp.Types.Height.{IsHeight}
use lcp.LcpClient.ClientState.{
  ClientState, IsRawClientState, to_raw, from_raw, to_any, try_from, whole_seconds,
  lcp_client_state_type_url,
}

-- The Rust types of the fields.
abbrev pub IsClientState : ClientState → Type 0
IsClientState s = IsBytes s.mr_enclave × IsDuration s.key_expiration × IsHeight s.latest_height

-- Every client state is read back from its `Any`, with the expiration rounded down to seconds.
pub try_from-to_any :
    {T : Type 0} (prost : Codec IsRawClientState) (s : ClientState)
    → IsClientState s
    → try_from {T = T} prost (to_any prost s) ≡ ok (whole_seconds s)
unfolding try_from to_any to_raw from_raw whole_seconds
try_from-to_any prost s (bytes, expiration, height) = ground (
  arith,
  prost.decode-encode (to_raw s) (bytes, expiration.0, height),
  ==_refl lcp_client_state_type_url,
)
