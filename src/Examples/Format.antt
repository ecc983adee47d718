-- ===== src/Examples/Format.antt =====
-- A concrete serialization: self-delimiting encodings, composed field by field.
use lcp.Base.{
  ℕ, ◌^◌, ◌<◌, ◌≡◌, refl, sym, ap, ◌∙◌, Option, none, some, List, [], ◌∷◌, ◌++◌, All, All-append,
  length, take, drop, take-append_length, drop-append_length, append_assoc, append-nil,
  if◌then◌else◌, arith,
}
use lcp.Base.Equality.{◌==◌, ==_refl, ℕ_PartialEq}
use lcp.Base.Bytes.{
  Bytes, IsBytes, to_be_bytes, from_be_bytes, length-to_be_bytes, to_be_bytes-IsBytes,
  from_be_bytes-to_be_bytes,
}
use lcp.Base.Codec.{Codec}

pub record Format {A : Type 0} (V : A → Type 0) : Type 0 where
  pub put : A → Bytes
  pub get : Bytes → Option (A × Bytes)
  pub put-IsBytes : (a : A) → V a → IsBytes (put a)
  pub get-put : (a : A) (rest : Bytes) → V a → get (put a ++ rest) ≡ some (a, rest)

abbrev finish : {A : Type 0} → Option (A × Bytes) → Option A
finish none = none
finish (some (a, [])) = some a
finish (some (a, b ∷ rest)) = none

abbrev pub codec : {A : Type 0} {V : A → Type 0} → Format V → Codec V
codec f = record {
  encode = f.put;
  decode = λ bz. finish (f.get bz);
  encode-IsBytes = f.put-IsBytes;
  decode-encode = λ a v.
      ap (λ bz. finish (f.get bz)) (sym (append-nil (f.put a))) ∙ ap finish (f.get-put a [] v);
}

-- A byte string: a 1 before each byte and a 0 at the end.
abbrev put_bytes : Bytes → Bytes
put_bytes [] = 0 ∷ []
put_bytes (b ∷ bz) = 1 ∷ b ∷ put_bytes bz

abbrev push : ℕ → Option (Bytes × Bytes) → Option (Bytes × Bytes)
push b none = none
push b (some (bz, rest)) = some (b ∷ bz, rest)

abbrev get_bytes : Bytes → Option (Bytes × Bytes)
get_bytes [] = none
get_bytes (c ∷ []) = if c == 0 then some ([], []) else none
get_bytes (c ∷ b ∷ s) = let r = get_bytes s in if c == 0 then some ([], b ∷ s) else push b r

pub put_bytes-IsBytes : (bz : Bytes) → IsBytes bz → IsBytes (put_bytes bz)
put_bytes-IsBytes [] h = omega arith
put_bytes-IsBytes (b ∷ bz) h = (omega arith, (h.0, put_bytes-IsBytes bz h.1))

pub get_bytes-put_bytes : (bz rest : Bytes) → get_bytes (put_bytes bz ++ rest) ≡ some (bz, rest)
get_bytes-put_bytes [] [] = refl
get_bytes-put_bytes [] (r ∷ rest) = refl
get_bytes-put_bytes (b ∷ bz) rest = ap (push b) (get_bytes-put_bytes bz rest)

abbrev pub bytes : Format IsBytes
bytes = record {
  put = put_bytes;
  get = get_bytes;
  put-IsBytes = put_bytes-IsBytes;
  get-put = λ bz rest v. get_bytes-put_bytes bz rest;
}

-- An integer of `w` bytes
abbrev pub number : (w : ℕ) → Format (λ n. n < 256 ^ w)
number w = record {
  put = to_be_bytes w;
  get = λ bz. if length (take w bz) == w then some (from_be_bytes (take w bz), drop w bz) else none;
  put-IsBytes = λ n v. to_be_bytes-IsBytes w n;
  get-put = λ n rest v.
      rw
        (
          take-append_length w (to_be_bytes w n) rest (length-to_be_bytes w n),
          drop-append_length w (to_be_bytes w n) rest (length-to_be_bytes w n),
          length-to_be_bytes w n,
          ==_refl w,
          from_be_bytes-to_be_bytes w n v,
        )
        refl;
}

-- The same encoding for a type that is taken to another and back, or for fewer values.
abbrev pub via :
    {A B : Type 0} {V : A → Type 0} {W : B → Type 0} (f : Format V) (to : B → A) (from : A → B)
    → ((b : B) → from (to b) ≡ b)
    → ((b : B) → W b → V (to b))
    → Format W
via f to from back valid = record {
  put = λ b. f.put (to b);
  get = λ bz. elim (f.get bz) [ none ↦ none | some (a, rest) ↦ some (from a, rest) ];
  put-IsBytes = λ b w. f.put-IsBytes (to b) (valid b w);
  get-put = λ b rest w. rw (f.get-put (to b) rest (valid b w), back b) refl;
}

abbrev pub pair :
    {A B : Type 0} {V : A → Type 0} {W : B → Type 0}
    → Format V
    → Format W
    → Format (λ (p : A × B). V p.0 × W p.1)
pair f g = record {
  put = λ p. f.put p.0 ++ g.put p.1;
  get = λ bz. elim (f.get bz) [
    | none ↦ none
    | some (a, r) ↦ elim (g.get r) [ none ↦ none | some (b, rest) ↦ some ((a, b), rest) ]
  ];
  put-IsBytes = λ p v.
      All-append (λ b. b < 256) (f.put p.0) (g.put p.1) (f.put-IsBytes p.0 v.0)
        (g.put-IsBytes p.1 v.1);
  get-put = λ p rest v.
      rw
        (
          append_assoc (f.put p.0) (g.put p.1) rest,
          f.get-put p.0 (g.put p.1 ++ rest) v.0,
          g.get-put p.1 rest v.1,
        )
        refl;
}

module _ {A : Type 0} {V : A → Type 0} (f : Format V) where
  abbrev put_all : List A → Bytes
  put_all [] = []
  put_all (a ∷ xs) = f.put a ++ put_all xs

  -- As many elements as there are marks.
  abbrev marks : List A → Bytes
  marks [] = []
  marks (a ∷ xs) = 0 ∷ marks xs

  abbrev get_all : Bytes → Bytes → Option (List A × Bytes)
  get_all [] bz = some ([], bz)
  get_all (m ∷ ms) bz = elim (f.get bz) [
    | none ↦ none
    | some (a, r) ↦ elim (get_all ms r) [ none ↦ none | some (xs, rest) ↦ some (a ∷ xs, rest) ]
  ]

  pub put_all-IsBytes : (xs : List A) → All V xs → IsBytes (put_all xs)
  put_all-IsBytes [] h = tt
  put_all-IsBytes (a ∷ xs) h =
      All-append (λ b. b < 256) (f.put a) (put_all xs) (f.put-IsBytes a h.0)
        (put_all-IsBytes xs h.1)

  pub marks-IsBytes : (xs : List A) → IsBytes (marks xs)
  marks-IsBytes [] = tt
  marks-IsBytes (a ∷ xs) = (omega arith, marks-IsBytes xs)

  pub get_all-put_all :
      (xs : List A) (rest : Bytes)
      → All V xs
      → get_all (marks xs) (put_all xs ++ rest) ≡ some (xs, rest)
  get_all-put_all [] rest h = refl
  get_all-put_all (a ∷ xs) rest h =
      rw
        (
          append_assoc (f.put a) (put_all xs) rest,
          f.get-put a (put_all xs ++ rest) h.0,
          get_all-put_all xs rest h.1,
        )
        refl

  abbrev pub list : Format (All V)
  list = record {
    put = λ xs. put_bytes (marks xs) ++ put_all xs;
    get = λ bz. elim (get_bytes bz) [ none ↦ none | some (ms, r) ↦ get_all ms r ];
    put-IsBytes = λ xs v.
        All-append (λ b. b < 256) (put_bytes (marks xs)) (put_all xs)
          (put_bytes-IsBytes (marks xs) (marks-IsBytes xs)) (put_all-IsBytes xs v);
    get-put = λ xs rest v.
        rw
          (
            append_assoc (put_bytes (marks xs)) (put_all xs) rest,
            get_bytes-put_bytes (marks xs) (put_all xs ++ rest),
            get_all-put_all xs rest v,
          )
          refl;
  }
