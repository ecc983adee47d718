-- ===== src/Commitments/StateId.antt =====
-- modules/commitments/src/state.rs: the 32-byte identifier of a client's state.
use lcp.Base.{
  ℕ, ◌+◌, ◌≡◌, refl, take, drop, drop-append_length, length-replicate, take-replicate, Bool, Result,
  ok, err, ◌++◌, length, replicate, if◌then◌else◌,
}
use lcp.Base.Equality.{◌==◌, ℕ_PartialEq}
use lcp.Base.Bytes.{Bytes, IsArray, bytes_PartialEq}
use lcp.Types.Any.{Any}
use lcp.Commitments.Errors.{Error, invalid_state_id_length}

abbrev pub state_id_size : ℕ
state_id_size = 32

abbrev pub StateId : Type 0
StateId = Bytes

abbrev pub IsStateId : StateId → Type 0
IsStateId = IsArray state_id_size

-- `Default`
abbrev pub default_state_id : StateId
default_state_id = replicate state_id_size 0

unfoldable pub is_zero : StateId → Bool
is_zero id = id == default_state_id

-- `TryFrom<&[u8]>`
unfoldable pub try_from : {T : Type 0} → Bytes → Result (Error T) StateId
try_from value =
    if length value == state_id_size then ok value else err (invalid_state_id_length (length value))

-- `gen_state_id_from_bytes`, for sha2's `Sha256`
abbrev pub gen_state_id_from_bytes : (Bytes → Bytes) → Bytes → StateId
gen_state_id_from_bytes sha256 bz = sha256 bz

-- `gen_state_id_from_any`: the buffer begins as zeros, as long as both encodings. `encode` appends the
-- encoding of the client state to it, and that of the consensus state is written over what stands from
-- the length of the first encoding on.
unfoldable pub gen_state_id_from_any : (Bytes → Bytes) → (Any → Bytes) → Any → Any → StateId
gen_state_id_from_any sha256 encode any_client_state any_consensus_state =
    let client = encode any_client_state in
    let consensus = encode any_consensus_state in
    let buf = replicate (length client + length consensus) 0 ++ client in
    let offset = length client in
    gen_state_id_from_bytes sha256
      (take offset buf ++ consensus ++ drop (offset + length consensus) buf)

-- What is hashed: zeros in place of the client state, the consensus state, and the client state.
gen_state_id_from_any_lem :
    (sha256 : Bytes → Bytes) (encode : Any → Bytes) (client consensus : Any)
    → gen_state_id_from_any sha256 encode client consensus
      ≡ sha256 (replicate (length (encode client)) 0 ++ encode consensus ++ encode client)
unfolding gen_state_id_from_any
gen_state_id_from_any_lem sha256 encode client consensus =
    let m = length (encode client) in
    let n = length (encode consensus) in
    rw
      (
        take-replicate m n 0 (encode client),
        drop-append_length (m + n) (replicate (m + n) 0) (encode client)
            (length-replicate (m + n) 0),
      )
      refl
