-- ===== src/LightClient/Path/Names.antt =====
-- Identifiers as parts of keys: which client's part of the store a key lies in, and that a generated
-- identifier names its counter (modules/light-client/src/path.rs and modules/types/src/host.rs).
use lcp.Base.{
  ℕ, ◌<◌, ◌≡◌, ◌≢◌, refl, ap, Bool-cases, inl, inr, [], ◌∷◌, ◌++◌, All, if◌then◌else◌, arith,
}
use lcp.Base.Equality.{◌==◌, ==_iff, ℕ_PartialEq}
use lcp.Base.Bytes.{Bytes, codes}
use lcp.Base.Decimal.{to_string, to_string-IsDigit, parse_u64-to_string, u64_bound, IsDigit}
use lcp.LightClient.Path.{ClientId, NoSlash, client_path}

-- The text before the first slash, and what follows that slash, in a key with `rest` behind `id`.
abbrev pub before : Bytes → Bytes
before [] = []
before (c ∷ id) = let b = before id in if c == b'/' then [] else c ∷ b

abbrev pub after : Bytes → Bytes → Bytes
after [] rest = rest
after (c ∷ id) rest = let a = after id rest in if c == b'/' then id ++ (b'/' ∷ rest) else a

pub before-NoSlash : (id : Bytes) → NoSlash (before id)
before-NoSlash [] = tt
before-NoSlash (c ∷ id) = elim (Bool-cases (c == b'/')) [
  | inl e ↦ rw e tt
  | inr e ↦ rw e (ground (arith, ==_iff c b'/'), before-NoSlash id)
]

split_slash : (id rest : Bytes) → (id ++ (b'/' ∷ rest)) ≡ (before id ++ (b'/' ∷ after id rest))
split_slash [] rest = refl
split_slash (c ∷ id) rest = elim (Bool-cases (c == b'/')) [
  | inl e ↦ rw e (ap (λ x. x ∷ (id ++ (b'/' ∷ rest))) ((==_iff c b'/').0 e))
  | inr e ↦ rw e (ap (λ t. c ∷ t) (split_slash id rest))
]

-- Whatever the identifier, its keys lie in the part of the text before its first slash.
pub client_path-before :
    (id rest : Bytes) → client_path id rest ≡ client_path (before id) (after id rest)
unfolding client_path
client_path-before id rest = ap (λ t. codes "clients/" ++ t) (split_slash id rest)

-- `{client_type}-{counter}`
abbrev pub client_name : Bytes → ℕ → ClientId
client_name client_type counter = client_type ++ (b'-' ∷ to_string counter)

abbrev NoDash : Bytes → Type 0
NoDash = All (λ c. c ≢ b'-')

not-NoDash : (a b : Bytes) → ¬ NoDash (a ++ (b'-' ∷ b))
not-NoDash [] b h = h.0 refl
not-NoDash (c ∷ a) b h = not-NoDash a b h.1

last_dash : (a b x y : Bytes) → NoDash x → NoDash y → (a ++ (b'-' ∷ x)) ≡ (b ++ (b'-' ∷ y)) → x ≡ y
last_dash [] [] x y hx hy e = ground arith
last_dash [] (d ∷ b) x y hx hy e =
    let f : x ≡ (b ++ (b'-' ∷ y)) = ground arith in absurd (not-NoDash b y (rw f at hx))
last_dash (c ∷ a) [] x y hx hy e =
    let f : y ≡ (a ++ (b'-' ∷ x)) = ground arith in absurd (not-NoDash a x (rw f at hy))
last_dash (c ∷ a) (d ∷ b) x y hx hy e = last_dash a b x y hx hy (ground arith)

digits-NoDash : (s : Bytes) → All IsDigit s → NoDash s
digits-NoDash [] h = tt
digits-NoDash (c ∷ s) h = (λ e. omega (arith, e), digits-NoDash s h.1)

to_string-injective : (m n : ℕ) → m < u64_bound → n < u64_bound → to_string m ≡ to_string n → m ≡ n
to_string-injective m n hm hn e =
    let a = parse_u64-to_string m hm in let b = parse_u64-to_string n hn in ground arith

-- Two names that are equal have the same counter, whatever the types.
pub client_name-injective :
    (a b : Bytes) (m n : ℕ)
    → m < u64_bound
    → n < u64_bound
    → client_name a m ≡ client_name b n
    → m ≡ n
client_name-injective a b m n hm hn e = to_string-injective m n hm hn (
    last_dash a b (to_string m) (to_string n) (digits-NoDash _ (to_string-IsDigit m))
      (digits-NoDash _ (to_string-IsDigit n)) e)

pub before-eq : (id : Bytes) → NoSlash id → before id ≡ id
before-eq [] h = refl
before-eq (c ∷ id) h = ground (arith, ==_iff c b'/', before-eq id h.1)
