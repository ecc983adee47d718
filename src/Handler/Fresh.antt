-- ===== src/Handler/Fresh.antt =====
-- The names that are still free: no entry of the store belongs to a client whose name has a counter
-- from the store's on. Every command keeps this, so a new client never overwrites another
-- (enclave-modules/ecall-handler/src/light_client).
pub mod Init
pub mod Commands
pub mod Run
use lcp.Base.{
  ℕ, ◌+◌, ◌%◌, ◌^◌, ◌≤◌, ◌<◌, ◌≡◌, ◌≢◌, refl, sym, ap, ◌∙◌, none, ok, err, panic, Option-cases, inl,
  inr, Result-cases, length, [], ◌∷◌, if◌then◌else◌, arith,
}
use lcp.Base.Equality.{◌==◌, ℕ_PartialEq, ==_iff}
use lcp.Base.Bytes.{
  Bytes, codes, to_be_bytes, from_be_bytes, length-to_be_bytes, from_be_bytes-to_be_bytes,
}
use lcp.Base.Decimal.{u64_bound}
use lcp.Store.KvStore.{KvStore}
use lcp.LightClient.Path.{
  ClientId, NoSlash, client_path, client_path-injective, client_path-counter, next_client_sequence,
  client_type_path, client_state_path, client_consensus_state_path,
}
use lcp.LightClient.Path.Names.{
  before, before-NoSlash, client_path-before, client_name, client_name-injective,
}
use lcp.Base.Codec.{Codec}
use lcp.Types.Any.{Any, IsAny}
use lcp.Types.Height.{Height}
use lcp.LightClient.Context.{
  Context, get, set, client_counter, store_client_type, store_any_client_state,
  store_any_consensus_state,
}
use lcp.LightClient.Context.Laws.{get-set_other, get-set_same}

-- The identifier's part of the store is none of the free ones.
abbrev pub IsUsed : ClientId → ℕ → Type 0
IsUsed id n =
    (client_type : Bytes) (m : ℕ)
    → NoSlash (client_name client_type m)
    → n ≤ m
    → m < u64_bound
    → before id ≢ client_name client_type m

module _ {T S : Type 0} ⦃kv : KvStore S⦄ where
  abbrev pub Unused : Context T S → ℕ → Type 0
  Unused ctx n =
      (client_type : Bytes) (m : ℕ) (rest : Bytes)
      → NoSlash (client_name client_type m)
      → n ≤ m
      → m < u64_bound
      → get ctx (client_path (client_name client_type m) rest) ≡ none

  -- The counter is at most `k`, and the names from it on are free.
  pub record Fresh (k : ℕ) (ctx : Context T S) : Type 0 where
    pub counter : ℕ
    pub counted : client_counter ctx ≡ ok counter
    pub few : counter ≤ k
    pub unused : Unused ctx counter

  pub Fresh-empty : (ctx : Context T S) → ((key : Bytes) → get ctx key ≡ none) → Fresh 0 ctx
  unfolding client_counter
  Fresh-empty ctx empty = record {
    counter = 0;
    counted = rw (empty next_client_sequence, client_counter) refl;
    few = omega arith;
    unused = λ client_type m rest safe le lt. empty _;
  }

  pub Unused-set :
      (ctx : Context T S) (n : ℕ) (id : ClientId) (rest v : Bytes)
      → IsUsed id n
      → Unused ctx n
      → Unused (set ctx (client_path id rest) v) n
  Unused-set ctx n id rest v used u client_type m r safe le lt =
      get-set_other ctx (client_path id rest) (client_path (client_name client_type m) r) v (λ e.
        used client_type m safe le lt
          (client_path-injective (before id) (client_name client_type m) _ r (before-NoSlash id)
            safe (sym (client_path-before id rest) ∙ e)).0)
      ∙ u client_type m r safe le lt

  pub Unused-counter :
      (ctx : Context T S) (n : ℕ) (v : Bytes)
      → Unused ctx n
      → Unused (set ctx next_client_sequence v) n
  Unused-counter ctx n v u client_type m r safe le lt =
      get-set_other ctx next_client_sequence (client_path (client_name client_type m) r) v
        (λ e. client_path-counter (client_name client_type m) r (sym e))
      ∙ u client_type m r safe le lt

  pub client_counter-next :
      (ctx : Context T S) (n : ℕ)
      → n < u64_bound
      → client_counter (set ctx next_client_sequence (to_be_bytes 8 n)) ≡ ok n
  unfolding client_counter
  client_counter-next ctx n h =
      rw
        (
          get-set_same ctx next_client_sequence (to_be_bytes 8 n),
          length-to_be_bytes 8 n,
          from_be_bytes-to_be_bytes 8 n (omega arith),
          client_counter,
        )
        refl

  -- The three writes to a client's part.
  pub store_client_type-Unused :
      (ctx : Context T S) (n : ℕ) (id : ClientId) (client_type : Bytes)
      → IsUsed id n
      → Unused ctx n
      → Unused (store_client_type id client_type ctx) n
  unfolding store_client_type client_type_path
  store_client_type-Unused ctx n id client_type used u =
      Unused-set ctx n id (codes "clientType") client_type used u

  pub store_any_client_state-Unused :
      (bincode : Codec IsAny) (ctx : Context T S) (n : ℕ) (id : ClientId) (any : Any)
      → IsUsed id n
      → Unused ctx n
      → Unused (store_any_client_state bincode id any ctx) n
  unfolding store_any_client_state client_state_path
  store_any_client_state-Unused bincode ctx n id any used u =
      Unused-set ctx n id (codes "clientState") (bincode.encode any) used u

  pub store_any_consensus_state-Unused :
      (bincode : Codec IsAny) (ctx : Context T S) (n : ℕ) (id : ClientId) (height : Height)
      (any : Any)
      → IsUsed id n
      → Unused ctx n
      → Unused (store_any_consensus_state bincode id height any ctx) n
  unfolding store_any_consensus_state client_consensus_state_path
  store_any_consensus_state-Unused bincode ctx n id height any used u =
      Unused-set ctx n id _ (bincode.encode any) used u
