-- ===== src/Types/Any.antt =====
-- modules/types/src/any.rs: a type URL and a value. Its protobuf encoding is prost's.
use lcp.Base.{◌≡◌, true, Result, ok_or}
use lcp.Base.Bytes.{Bytes, IsBytes}
use lcp.Base.Codec.{Codec}
use lcp.Base.Utf8.{is_utf8}
use lcp.Types.Errors.{TypeError, proto_error}

pub record Any : Type 0 where
  pub type_url : Bytes
  pub value : Bytes

-- The Rust types of the fields: the type URL is a `String`.
abbrev pub IsAny : Any → Type 0
IsAny a = IsBytes a.type_url × IsBytes a.value × (is_utf8 a.type_url ≡ true)

-- `Any::try_from(Vec<u8>)`, by `decode_vec`
unfoldable pub try_from : Codec IsAny → Bytes → Result TypeError Any
try_from prost value = ok_or (prost.decode value) proto_error
