-- ===== src/LightClient/Path.antt =====
-- modules/light-client/src/path.rs: the keys under which a client's data stands in the store.
pub mod Names
use lcp.Base.{◌≡◌, ◌≢◌, [], ◌∷◌, ◌++◌, All, arith}
use lcp.Base.Bytes.{Bytes, codes}
use lcp.Base.Decimal.{to_string}
use lcp.Types.Height.{Height}

-- A client's identifier, a text.
abbrev pub ClientId : Type 0
ClientId = Bytes

-- A key of the client's own part of the store.
unfoldable pub client_path : ClientId → Bytes → Bytes
client_path id rest = codes "clients/" ++ (id ++ (b'/' ∷ rest))

abbrev pub next_client_sequence : Bytes
next_client_sequence = codes "nextClientSequence"

-- `Display` of `ClientTypePath`, `ClientStatePath` and `ClientConsensusStatePath`
unfoldable pub client_type_path : ClientId → Bytes
client_type_path id = client_path id (codes "clientType")

unfoldable pub client_state_path : ClientId → Bytes
client_state_path id = client_path id (codes "clientState")

unfoldable pub client_consensus_state_path : ClientId → Height → Bytes
client_consensus_state_path id height = client_path id (
    codes "consensusStates/"
    ++ (to_string height.revision_number ++ (b'-' ∷ to_string height.revision_height)))

abbrev pub NoSlash : ClientId → Type 0
NoSlash = All (λ c. c ≢ b'/')

split_injective :
    (a b x y : Bytes)
    → NoSlash a
    → NoSlash b
    → (a ++ (b'/' ∷ x)) ≡ (b ++ (b'/' ∷ y))
    → (a ≡ b) × (x ≡ y)
split_injective [] [] x y ha hb e = ground arith
split_injective [] (d ∷ b) x y ha hb e = absurd (ground arith)
split_injective (c ∷ a) [] x y ha hb e = absurd (ground arith)
split_injective (c ∷ a) (d ∷ b) x y ha hb e =
    let (p, q) = split_injective a b x y ha.1 hb.1 (ground arith) in (ground arith, q)

-- For identifiers without a slash, equal keys are of the same client and name the same entry.
pub client_path-injective :
    (a b x y : Bytes)
    → NoSlash a
    → NoSlash b
    → client_path a x ≡ client_path b y
    → (a ≡ b) × (x ≡ y)
unfolding client_path
client_path-injective a b x y ha hb e = split_injective a b x y ha hb (ground arith)

pub client_path-counter : (a x : Bytes) → client_path a x ≢ next_client_sequence
unfolding client_path
client_path-counter a x e = ground arith

-- A consensus state's key is never the client state's.
pub client_consensus_state_path-ne :
    (id : ClientId) (height : Height)
    → NoSlash id
    → client_consensus_state_path id height ≢ client_state_path id
unfolding client_state_path client_consensus_state_path
client_consensus_state_path-ne id height h e =
    let (same, rest) = client_path-injective id id _ _ h h e in ground arith

pub client_consensus_state_path-counter :
    (id : ClientId) (height : Height) → client_consensus_state_path id height ≢ next_client_sequence
unfolding client_consensus_state_path
client_consensus_state_path-counter id height e = client_path-counter id _ e
