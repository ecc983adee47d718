-- ===== src/Base/Bytes.antt =====
-- Byte strings: `Vec<u8>`, `[u8; N]` and the bytes of a `str`; big-endian integers.
use Prim.Native.Char.{code}
use Prim.Native.String.{String}
use native.Mathlib.Nat.{pow-suc}
use lcp.Base.Equality.{PartialEq, list_eq, list_eq_iff}
use lcp.Base.Lists.{length, All, All-append, length-append}
use Prim.Native.Nat.{ℕ, zero, suc, ◌+◌, ◌*◌, ◌/◌, ◌%◌, ◌^◌, ◌<◌}
use mathlib.Core.Path.{◌≡◌, refl, ◌∙◌}
use mathlib.Core.List.{List, [], ◌∷◌, ◌++◌}
use native.Mathlib.Omega.{arith}

abbrev pub Bytes : Type 0
Bytes = List ℕ

-- The bytes of an ASCII literal.
abbrev pub codes : String → Bytes
codes String.[] = []
codes (String.◌∷◌ ch rest) = code ch ∷ codes rest

-- Each element of a `Vec<u8>` is a byte.
abbrev pub IsBytes : Bytes → Type 0
IsBytes = All (λ b. b < 256)

-- `[u8; n]`
abbrev pub IsArray : ℕ → Bytes → Type 0
IsArray n bz = (length bz ≡ n) × IsBytes bz

instance abbrev pub bytes_PartialEq : PartialEq Bytes
bytes_PartialEq = record { eq = list_eq; eq_iff = list_eq_iff }

-- `to_be_bytes` of an integer of `w` bytes
unfoldable pub to_be_bytes : ℕ → ℕ → Bytes
to_be_bytes zero n = []
to_be_bytes (suc w) n = to_be_bytes w (n / 256) ++ (n % 256) ∷ []

from_be_bytes_acc : ℕ → Bytes → ℕ
from_be_bytes_acc acc [] = acc
from_be_bytes_acc acc (b ∷ bz) = from_be_bytes_acc (acc * 256 + b) bz

unfoldable pub from_be_bytes : Bytes → ℕ
unfolding from_be_bytes_acc
from_be_bytes bz = from_be_bytes_acc 0 bz

pub length-to_be_bytes : (w n : ℕ) → length (to_be_bytes w n) ≡ w
unfolding to_be_bytes
length-to_be_bytes zero n = refl
length-to_be_bytes (suc w) n = omega (
  arith,
  length-append (to_be_bytes w (n / 256)) ((n % 256) ∷ []),
  length-to_be_bytes w (n / 256),
)

pub to_be_bytes-IsBytes : (w n : ℕ) → IsBytes (to_be_bytes w n)
unfolding to_be_bytes
to_be_bytes-IsBytes zero n = tt
to_be_bytes-IsBytes (suc w) n =
    All-append (λ b. b < 256) (to_be_bytes w (n / 256)) ((n % 256) ∷ [])
      (to_be_bytes-IsBytes w (n / 256)) (omega arith, tt)

pub to_be_bytes-IsArray : (w n : ℕ) → IsArray w (to_be_bytes w n)
to_be_bytes-IsArray w n = (length-to_be_bytes w n, to_be_bytes-IsBytes w n)

from_be_bytes_acc-append :
    (acc : ℕ) (xs : Bytes) (b : ℕ)
    → from_be_bytes_acc acc (xs ++ b ∷ []) ≡ from_be_bytes_acc acc xs * 256 + b
unfolding from_be_bytes_acc
from_be_bytes_acc-append acc [] b = refl
from_be_bytes_acc-append acc (x ∷ xs) b = from_be_bytes_acc-append (acc * 256 + x) xs b

-- Reading back what was written, for a number that fits the width.
pub from_be_bytes-to_be_bytes : (w n : ℕ) → n < 256 ^ w → from_be_bytes (to_be_bytes w n) ≡ n
unfolding from_be_bytes to_be_bytes
from_be_bytes-to_be_bytes zero n h = omega arith
from_be_bytes-to_be_bytes (suc w) n h =
    from_be_bytes_acc-append 0 (to_be_bytes w (n / 256)) (n % 256)
    ∙ omega (arith, from_be_bytes-to_be_bytes w (n / 256) (omega (arith, pow-suc 256 w)))
