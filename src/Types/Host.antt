-- ===== src/Types/Host.antt =====
-- modules/types/src/host.rs: client identifiers. A `str` is its UTF-8 bytes; whether a character
-- outside ASCII is alphanumeric is the Unicode tables' answer, the parameter `unicode_alphanumeric`.
use native.Mathlib.Decide.{dec_lt}
use lcp.Base.{
  ℕ, ◌≤◌, ◌≡◌, Bool, true, false, not, ◌&&◌, ◌||◌, ◌≢◌, ◌⊎◌, All, Bool-cases, List, [], ◌∷◌, ◌++◌,
  some, Option-cases, inl, inr, Result, ok, err, ◌>>=◌, ◌>>◌, ensure, assert, expect, ltb, leb,
  length, if◌then◌else◌, arith,
}
use lcp.Base.Equality.{◌==◌, ==_iff, ℕ_PartialEq}
use lcp.Base.Bytes.{Bytes, codes}
use lcp.Base.Decimal.{to_string}
use lcp.Base.Utf8.{chars}
use lcp.Types.Errors.{
  TypeError, client_id_empty, client_id_contain_separator, client_id_invalid_length,
  client_id_invalid_character,
}

-- `id.contains(c)` for an ASCII character, whose byte stands in no longer character
unfoldable pub contains : ℕ → Bytes → Bool
contains c [] = false
contains c (b ∷ s) = b == c || contains c s

pub contains-All : (c : ℕ) (s : Bytes) → contains c s ≡ false → All (λ b. b ≢ c) s
unfolding contains
contains-All c [] h = tt
contains-All c (b ∷ s) h = (ground (arith, ==_iff b c), contains-All c s (ground arith))

abbrev pub path_separator : ℕ
path_separator = b'/'

-- `._+-#[]<>`
unfoldable pub valid_special_chars : Bytes
valid_special_chars = codes "._+-#[]<>"

abbrev pub IsAsciiAlphanumeric : ℕ → Type 0
IsAsciiAlphanumeric c = ((48 ≤ c) × (c ≤ 57)) ⊎ (((65 ≤ c) × (c ≤ 90)) ⊎ ((97 ≤ c) × (c ≤ 122)))

abbrev pub IsSpecial : ℕ → Type 0
IsSpecial c =
    (c ≡ b'.')
    ⊎ ((c ≡ b'_')
        ⊎ ((c ≡ b'+')
            ⊎ ((c ≡ b'-')
                ⊎ ((c ≡ b'#') ⊎ ((c ≡ b'[') ⊎ ((c ≡ b']') ⊎ ((c ≡ b'<') ⊎ (c ≡ b'>'))))))))

module _ (unicode_alphanumeric : ℕ → Bool) where
  unfoldable pub is_alphanumeric : ℕ → Bool
  is_alphanumeric c =
      if ltb c 128
      then leb b'0' c && leb c b'9' || leb b'A' c && leb c b'Z' || leb b'a' c && leb c b'z'
      else unicode_alphanumeric c

  unfoldable pub all_valid : List ℕ → Bool
  unfolding is_alphanumeric contains valid_special_chars
  all_valid [] = true
  all_valid (c ∷ cs) = (is_alphanumeric c || contains c valid_special_chars) && all_valid cs

  unfoldable pub validate_identifier : Bytes → ℕ → ℕ → Result TypeError (Unit {0})
  unfolding contains
  validate_identifier id min max = do
    assert (leb min max)
    ensure (not (length id == 0)) client_id_empty
    ensure (not (contains path_separator id)) (client_id_contain_separator id)
    ensure (not (ltb (length id) min || ltb max (length id)))
        (client_id_invalid_length id (length id) min max)
    cs ← expect (chars id)
    ensure (all_valid cs) (client_id_invalid_character id)

  -- `validate_client_identifier`, with `FromStr`
  unfoldable pub from_str : Bytes → Result TypeError Bytes
  unfolding validate_identifier
  from_str s = do validate_identifier s 9 64; ok s

  -- `ClientId::new`
  unfoldable pub new : Bytes → ℕ → Result TypeError Bytes
  new client_type counter = from_str (client_type ++ b'-' ∷ to_string counter)

  -- What a character of an identifier may be: an ASCII letter or digit, one of `._+-#[]<>`, or
  -- alphanumeric outside ASCII.
  abbrev pub IsIdentifierChar : ℕ → Type 0
  IsIdentifierChar c =
      IsAsciiAlphanumeric c ⊎ (IsSpecial c ⊎ ((128 ≤ c) × (unicode_alphanumeric c ≡ true)))

  valid_lem :
      (c : ℕ) → (is_alphanumeric c || contains c valid_special_chars) ≡ true → IsIdentifierChar c
  unfolding is_alphanumeric contains valid_special_chars
  valid_lem c h = elim (Bool-cases (is_alphanumeric c)) [
    | inl e ↦ elim (dec_lt c 128) [
      | yes p ↦ inl (ground arith)
      | no n ↦ inr (inr (omega arith, ground arith))
    ]
    | inr e ↦ inr (inl (ground arith))
  ]

  all_valid-All : (cs : List ℕ) → all_valid cs ≡ true → All IsIdentifierChar cs
  unfolding all_valid
  all_valid-All [] h = tt
  all_valid-All (c ∷ cs) h = (valid_lem c (ground arith), all_valid-All cs (ground arith))

  -- An accepted identifier is the text itself, of 9 to 64 bytes, none of which is the slash, and each
  -- of its characters is an ASCII letter or digit, one of `._+-#[]<>`, or alphanumeric outside ASCII.
  pub from_str-ok :
      (s : Bytes) {id : Bytes}
      → from_str s ≡ ok id
      → (id ≡ s)
        × (9 ≤ length s)
        × (length s ≤ 64)
        × All (λ b. b ≢ b'/') s
        × ((cs : List ℕ) × (chars s ≡ some cs) × All IsIdentifierChar cs)
  unfolding from_str
  from_str-ok s h = elim (Option-cases (chars s)) [
    | inl e ↦ absurd (ground arith)
    | inr (cs, e) ↦ (
      ground arith,
      ground arith,
      ground arith,
      contains-All path_separator s (ground arith),
      (cs, e, all_valid-All cs (ground arith)),
    )
  ]

  -- A text with the separator in it is refused, whatever else it holds.
  pub from_str_separator :
      (s : Bytes)
      → contains path_separator s ≡ true
      → from_str s ≡ err (client_id_contain_separator s)
  unfolding from_str
  from_str_separator [] h = unfold contains in cc h
  from_str_separator (b ∷ s) h = ground arith
