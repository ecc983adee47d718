-- ===== src/Examples/Basics.antt =====
-- Heights, times, identifiers, stores and encoded states at concrete inputs.
use Prim.Native.Nat.{Ordering}
use lcp.Base.{
  ℕ, ◌+◌, ◌*◌, ◌/◌, ◌<◌, ◌≤◌, ◌≡◌, ◌↔◌, ◌⊎◌, refl, Bool, true, false, some, none, List, [], ◌∷◌, ok,
  err, panic, length, replicate, All, ◌≢◌, arith,
}
use lcp.Base.Bytes.{Bytes, codes}
use lcp.Base.Decimal
use lcp.Base.HashMap
use lcp.Base.Equality
use lcp.Base.Decimal.{u64_bound}
use lcp.Base.Utf8.{chars}
use lcp.Types.Any.{Any, IsAny}
use lcp.Types.Errors.{TimeError, invalid_height_result}
use lcp.Types.Height.{Height, IsHeight, add, sub, cmp, lt, display, try_from}
use lcp.Types.Height.Order.{Lex, cmp-Lex, sub-add}
use lcp.Types.Height.Text.{try_from-display, try_from_panics}
use lcp.Types.Host.{from_str, all_valid, IsIdentifierChar, from_str-ok}
use lcp.Types.Time.{
  Nanos, nanos_per_sec, from_unix_timestamp_nanos, as_unix_timestamp_nanos,
  max_unix_timestamp_nanos,
}
use lcp.Types.Time.Nanos.{from_nanos-as_nanos}
use lcp.Store.Memory.{InnerMemStore, memory_KvStore, get, begin, commit, rollback}
use lcp.Store.Memory.Transaction.{
  IsValid, set_write, remove_write, writes, commit-get, rollback-begin,
}
use lcp.Store.Cache.{
  Request, get_request, set_request, remove_request, run, run_cached, new, run_cached-new,
}
use lcp.LcpClient.ClientState
use lcp.LcpClient.ClientState.{whole_seconds}
use lcp.LcpClient.ClientState.RoundTrip.{try_from-to_any}
use lcp.LcpClient.ConsensusState
use lcp.LcpClient.ConsensusState.{ConsensusState}
use lcp.LcpClient.ConsensusState.RoundTrip.{try_from-to_any_secs}
use lcp.Examples.Abi.{raw_client_state, raw_consensus_state}
use lcp.Examples.Clock.{clock, ops, at}
use lcp.Examples.Client.{initial, initial-IsClientState, message-state_id, empty_store}

abbrev height : Height
height = record { revision_number = 3; revision_height = 25 }

abbrev later : Height
later = record { revision_number = 4; revision_height = 1 }

cmp-Lex_example :
    ((cmp height later ≡ Ordering.lt) ↔ Lex height later)
    × ((cmp height later ≡ Ordering.gt) ↔ Lex later height)
    × ((cmp height later ≡ Ordering.eq) ↔ (height ≡ later))
cmp-Lex_example = cmp-Lex height later

sub-add_example :
    ((25 + 7 < u64_bound)
      × ((k : Height) × (add height 7 ≡ ok k)
          × IsHeight k
          × (sub k 7 ≡ ok height)
          × (lt k height ≡ false)
          × (k.revision_number ≡ 3)))
    ⊎ ((u64_bound ≤ 25 + 7) × (add height 7 ≡ err invalid_height_result))
sub-add_example = sub-add height 7 (omega arith, omega arith)

try_from-display_example : try_from (display height) ≡ ok height
try_from-display_example = try_from-display height (omega arith, omega arith)

parsed : Decimal.parse_u64 (codes "42") ≡ some 42
unfolding Decimal.parse_u64
parsed = refl

try_from_panics_example : try_from (codes "42") ≡ panic
try_from_panics_example = try_from_panics (codes "42") (ground arith) parsed

from_nanos-as_nanos_example :
    ((t : ℕ) × (from_unix_timestamp_nanos 1500000000 ≡ ok t)
      × (as_unix_timestamp_nanos {E = TimeError} t ≡ ok 1500000000))
    ⊎ ((max_unix_timestamp_nanos < 1500000000)
        × ((e : TimeError) × (from_unix_timestamp_nanos {T = ℕ} 1500000000 ≡ err e)))
from_nanos-as_nanos_example = from_nanos-as_nanos 1500000000

abbrev ascii : ℕ → Bool
ascii c = false

accepted_id : from_str ascii (codes "07-tendermint-0") ≡ ok (codes "07-tendermint-0")
unfolding from_str chars all_valid
accepted_id = refl

from_str-ok_example :
    (codes "07-tendermint-0" ≡ codes "07-tendermint-0")
    × (9 ≤ length (codes "07-tendermint-0"))
    × (length (codes "07-tendermint-0") ≤ 64)
    × All (λ b. b ≢ b'/') (codes "07-tendermint-0")
    × ((cs : List ℕ) × (chars (codes "07-tendermint-0") ≡ some cs)
        × All (IsIdentifierChar ascii) cs)
from_str-ok_example = from_str-ok ascii (codes "07-tendermint-0") accepted_id

abbrev in_transaction : InnerMemStore
in_transaction = record {
  running_tx_exists = true;
  latest_tx_id = 1;
  uncommitted_data = (codes "a", none) ∷ (codes "b", some (codes "2")) ∷ [];
  committed_data = (codes "a", codes "1") ∷ [];
}

in_transaction-IsValid : IsValid in_transaction
unfolding HashMap.get Equality.list_eq
in_transaction-IsValid = record {
  no_leftover = λ e. absurd (ground arith);
  buffer = (refl, (refl, tt));
}

commit-get_example :
    (s' : InnerMemStore) × (commit in_transaction ≡ ok s')
    × (s'.running_tx_exists ≡ false)
    × IsValid s'
    × ((k : Bytes) → get s' k ≡ get in_transaction k)
commit-get_example = commit-get in_transaction in_transaction-IsValid refl

empty_store-IsValid : IsValid empty_store
empty_store-IsValid = record { no_leftover = λ e. refl; buffer = tt }

rollback-begin_example :
    (s1 : InnerMemStore) × (begin empty_store ≡ ok s1)
    × ((s2 : InnerMemStore) × (rollback
            (writes (set_write (codes "a") (codes "1") ∷ remove_write (codes "b") ∷ []) s1)
          ≡ ok s2)
        × IsValid s2
        × ((k : Bytes) → get s2 k ≡ get empty_store k))
rollback-begin_example =
    rollback-begin (set_write (codes "a") (codes "1") ∷ remove_write (codes "b") ∷ []) empty_store
      empty_store-IsValid refl

abbrev requests : List Request
requests =
    get_request (codes "a")
    ∷ set_request (codes "a") (codes "1")
    ∷ get_request (codes "a")
    ∷ remove_request (codes "a")
    ∷ get_request (codes "a")
    ∷ []

run_cached-new_example :
    ((run_cached requests (new empty_store)).0 ≡ (run requests empty_store).0)
    × ((run_cached requests (new empty_store)).1.parent ≡ (run requests empty_store).1)
run_cached-new_example = run_cached-new requests empty_store

try_from-to_any_example :
    ClientState.try_from {T = ℕ} raw_client_state (ClientState.to_any raw_client_state initial)
    ≡ ok (whole_seconds initial)
try_from-to_any_example = try_from-to_any raw_client_state initial initial-IsClientState

abbrev consensus : ConsensusState ℕ
consensus = record { state_id = replicate 32 1; timestamp = 1500000000 }

try_from-to_any_secs_example :
    (a : Any) × (ConsensusState.to_any raw_consensus_state consensus ≡ ok a)
    × IsAny a
    × ((t : ℕ) × (ConsensusState.try_from raw_consensus_state a
          ≡ ok (record { state_id = replicate 32 1; timestamp = t }))
        × Nanos ops t (1500000000 / nanos_per_sec * nanos_per_sec))
try_from-to_any_secs_example =
    try_from-to_any_secs raw_consensus_state consensus message-state_id
      (at 1500000000 (omega arith))
