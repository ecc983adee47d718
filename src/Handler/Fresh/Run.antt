-- ===== src/Handler/Fresh/Run.antt =====
-- Any sequence of commands on an empty store, accepted or refused
-- (enclave-modules/ecall-handler/src/light_client/router.rs).
use lcp.Base.{
  ℕ, suc, ◌+◌, ◌<◌, ◌≡◌, List, [], ◌∷◌, length, none, some, Option-cases, inl, inr, Result, arith,
  refl,
}
use lcp.Base.Bytes.{Bytes}
use lcp.Base.Decimal.{u64_bound}
use lcp.Types.Time.{TmTime}
use lcp.Crypto.{CryptoError, sealed_signer}
use lcp.Store.KvStore.{KvStore}
use lcp.LightClient.Path.{ClientId, NoSlash, client_path, client_state_path}
use lcp.LightClient.Context
use lcp.LightClient.Context.{Context, client_counter}
use lcp.Commands.{InitClientInput, CommandContext, LightClientCommand, execute, query, init_client}
use lcp.Handler.{Env}
use lcp.Handler.Router.{dispatch_execute, dispatch_query, dispatch}
use lcp.Handler.Fresh.{Fresh-empty, Fresh}
use lcp.Handler.Fresh.Init.{init_client-SamePart}
use lcp.Handler.Fresh.Commands.{
  Fresh-new, Fresh-weaken, dispatch_execute-Fresh, dispatch_query-Keeps,
}

module _ {T PK SK S SealedKey : Type 0} ⦃tm : TmTime T⦄ ⦃kv : KvStore S⦄ (env : Env T PK SK S)
    (unseal : SealedKey → Result CryptoError SK) where
  -- the store after a command, whether it succeeds or not
  abbrev pub step : CommandContext T SealedKey → LightClientCommand T → S → S
  step cctx cmd s = (dispatch env unseal cctx cmd (λ tx_id. s)).1

  abbrev pub run : List (CommandContext T SealedKey × LightClientCommand T) → S → S
  run [] s = s
  run ((cctx, cmd) ∷ cs) s = run cs (step cctx cmd s)

  -- Of the store between two commands, of which at most `k` have been run.
  abbrev IsFresh : ℕ → S → Type 0
  IsFresh k s = Fresh {T = T} k (Context.new s)

  step-Fresh :
      (s : S) (cctx : CommandContext T SealedKey) (cmd : LightClientCommand T) (k : ℕ)
      → suc k < u64_bound
      → IsFresh k s
      → IsFresh (suc k) (step cctx cmd s)
  unfolding dispatch
  step-Fresh s cctx (execute cmd) k small f = elim (Option-cases cctx.sealed_ek) [
    | inl e ↦ rw e (Fresh-weaken k f)
    | inr (key, e) ↦ rw e (
        Fresh-new (
          dispatch_execute-Fresh env (Context.new s) (sealed_signer env.secp unseal key) cmd k small
            f))
  ]
  step-Fresh s cctx (query cmd) k small f =
      let ctx = (dispatch_query env cmd (Context.new s)).1 in
      let kept : Fresh (suc k) ctx =
        rw (dispatch_query-Keeps env (Context.new s) cmd) (Fresh-weaken k f) in
      Fresh-new kept

  run-Fresh :
      (s : S) (cs : List (CommandContext T SealedKey × LightClientCommand T)) (k n : ℕ)
      → n ≡ length cs + k
      → n < u64_bound
      → IsFresh k s
      → IsFresh n (run cs s)
  run-Fresh s [] k n e small f = let same : n ≡ k = omega arith in rw same f
  run-Fresh s ((cctx, cmd) ∷ cs) k n e small f =
      run-Fresh (step cctx cmd s) cs (suc k) n (omega arith) small
        (step-Fresh s cctx cmd k (omega arith) f)

  empty-Fresh : (s : S) → ((key : Bytes) → kv.get s key ≡ none) → IsFresh 0 s
  unfolding Context.new
  empty-Fresh s empty = Fresh-empty (Context.new s) empty

  -- In any store that fewer than 2^64 - 1 commands have made of an empty one, with whatever keys,
  -- light clients and outcomes, a further `init_client` command, accepted or refused, leaves every
  -- entry of each client that has a state and an identifier without a slash: it never takes the
  -- identifier of another client.
  pub init_client-keeps :
      (s : S) (cs : List (CommandContext T SealedKey × LightClientCommand T))
      (cctx : CommandContext T SealedKey) (input : InitClientInput T) (other : ClientId)
      (rest : Bytes) {v : Bytes}
      → ((key : Bytes) → kv.get s key ≡ none)
      → length cs + 1 < u64_bound
      → NoSlash other
      → kv.get (run cs s) (client_state_path other) ≡ some v
      → kv.get (step cctx (execute (init_client input)) (run cs s)) (client_path other rest)
        ≡ kv.get (run cs s) (client_path other rest)
  unfolding dispatch dispatch_execute Context.new
  init_client-keeps s cs cctx input other rest empty small safe there =
      elim (Option-cases cctx.sealed_ek) [
        | inl e ↦ rw e refl
        | inr (key, e) ↦
            let f =
              run-Fresh s cs 0 (length cs) (omega arith) (omega arith) (empty-Fresh s empty) in
            rw e (
              init_client-SamePart env (Context.new (run cs s)) (sealed_signer env.secp unseal key)
                input (length cs) other (omega arith) f safe there rest)
      ]
