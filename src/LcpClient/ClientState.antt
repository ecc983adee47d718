-- ===== src/LcpClient/ClientState.antt =====
-- modules/lcp-client/src/client_state.rs. The protobuf encoding of the raw state is prost's.
pub mod RoundTrip
use lcp.Base.{
  ℕ, ◌≡◌, refl, ◌<◌, ◌^◌, Bool, true, Option, none, some, Result, ok, err, ◌>>=◌, expect,
  if◌then◌else◌,
}
use lcp.Base.Equality.{◌==◌}
use lcp.Base.Bytes.{Bytes, IsBytes, codes, bytes_PartialEq}
use lcp.Base.Codec.{Codec}
use lcp.Types.Any.{Any}
use lcp.Types.Time.{Duration}
use lcp.Types.Height
use lcp.Types.Height.{Height, IsHeight}
use lcp.Commitments.Message.UpdateState.{UpdateStateProxyMessage}
use lcp.LcpClient.Errors.{Error, unexpected_client_type}

abbrev pub lcp_client_state_type_url : Bytes
lcp_client_state_type_url = codes "/ibc.lightclients.lcp.v1.ClientState"

pub record ClientState : Type 0 where
  pub mr_enclave : Bytes
  pub key_expiration : Duration
  pub latest_height : Height
  pub frozen : Bool

unfoldable pub with_header : {T : Type 0} → ClientState → UpdateStateProxyMessage T → ClientState
with_header self header =
    if Height.lt self.latest_height header.post_height
    then record self { latest_height = header.post_height }
    else self

unfoldable pub with_frozen : ClientState → ClientState
with_frozen self = record self { frozen = true }

-- The fields that are not always empty.
pub record RawClientState : Type 0 where
  pub mrenclave : Bytes
  pub key_expiration : ℕ
  pub frozen : Bool
  pub latest_height : Option Height

-- The Rust types of the fields.
abbrev pub IsOptionHeight : Option Height → Type 0
IsOptionHeight none = Unit
IsOptionHeight (some h) = IsHeight h

abbrev pub IsRawClientState : RawClientState → Type 0
IsRawClientState r =
    IsBytes r.mrenclave × (r.key_expiration < 2 ^ 64) × IsOptionHeight r.latest_height

unfoldable pub to_raw : ClientState → RawClientState
to_raw value = record {
  mrenclave = value.mr_enclave;
  key_expiration = value.key_expiration.secs;
  frozen = value.frozen;
  latest_height = some value.latest_height;
}

unfoldable pub from_raw : {T : Type 0} → RawClientState → Result (Error T) ClientState
from_raw raw = do
  height ← expect raw.latest_height
  ok (record {
    mr_enclave = raw.mrenclave;
    key_expiration = record { secs = raw.key_expiration; subsec_nanos = 0 };
    latest_height = height;
    frozen = raw.frozen;
  })

unfoldable pub to_any : Codec IsRawClientState → ClientState → Any
to_any prost value = record {
  type_url = lcp_client_state_type_url;
  value = prost.encode (to_raw value);
}

unfoldable pub try_from : {T : Type 0} → Codec IsRawClientState → Any → Result (Error T) ClientState
try_from prost raw =
    if raw.type_url == lcp_client_state_type_url
    then (do value ← expect (prost.decode raw.value); from_raw value)
    else err (unexpected_client_type raw.type_url)

-- What is kept: the expiration is rounded down to whole seconds.
unfoldable pub whole_seconds : ClientState → ClientState
whole_seconds s = record s {
  key_expiration = record { secs = s.key_expiration.secs; subsec_nanos = 0 };
}
