-- ===== src/Base/Codec.antt =====
-- What the program asks of a serialization library (alloy's ABI coder, prost, bincode).
use mathlib.Core.Path.{◌≡◌}
use mathlib.Core.Option.{Option, some}
use lcp.Base.Bytes.{Bytes, IsBytes}

-- A serialization library's encoder and decoder for `A`, on the values that `V` admits.
pub record Codec {A : Type 0} (V : A → Type 0) : Type 0 where
  pub encode : A → Bytes
  pub decode : Bytes → Option A
  pub encode-IsBytes : (a : A) → V a → IsBytes (encode a)
  pub decode-encode : (a : A) → V a → decode (encode a) ≡ some a
