-- ===== src/EnclaveApi.antt =====
-- modules/enclave-api/src/enclave.rs and api/primitive.rs: how the host runs a command in the enclave,
-- in a transaction of its RocksDB store. The enclave reads and writes that store while it is called.
pub mod Atomic
use lcp.Base.{
  ℕ, Option, none, some, Result, ok, err, panic, assert, length, map_err, ltb, ◌>>=◌, ◌>>◌,
  if◌then◌else◌,
}
use lcp.Base.Equality.{◌==◌, ℕ_PartialEq}
use lcp.Base.Bytes.{Bytes}
use lcp.Base.Action.{Action}
use lcp.Crypto.{Address}
use lcp.Commands.{CommandContext}
use lcp.Store.KvStore.{StoreError}
use lcp.Store.Database.{RocksDb}
use lcp.Store.RocksDb.Store.{
  RocksDbTx, RocksDbStore, create_transaction, prepare, begin, commit, rollback, drop_tx,
}

-- The errors of errors.rs. `X` is the type of the errors of the other crates.
pub data ApiError (X : Type 0) : Type 0 where
  invalid_argument : Bytes → ApiError X
  sgx_error : ℕ → ApiError X
  bincode_encode : X → ApiError X
  bincode_decode : X → ApiError X
  command : ℕ → Bytes → ApiError X
  ecall_command : X → ApiError X
  store : StoreError → ApiError X
  key_manager : X → ApiError X
  attestation_report : X → ApiError X
  commitments : X → ApiError X

-- What `ecall_execute_command` gives: its own status, that of the command, and the output.
pub record EcallOutput : Type 0 where
  pub result : ℕ
  pub ret : ℕ
  pub output : Bytes

-- What `Enclave` uses: the clock, the key manager, bincode, the selector of a command's key, the
-- description that a response has if it is `CommandError`, and the call of the enclave.
pub record Libs (T SK X Command Response Store : Type 0) : Type 0 where
  pub now : T
  pub load : Address → Result X SK
  pub get_enclave_key : Command → Option Address
  pub encode : CommandContext T SK × Command → Result X Bytes
  pub decode : Bytes → Result X Response
  pub command_error : Response → Option Bytes
  pub ecall_execute_command : Bytes → Store → EcallOutput × Store

abbrev pub success : ℕ
success = 0

abbrev pub output_maxlen : ℕ
output_maxlen = 65536

module _ {T SK X Command Response Store : Type 0} (env : Libs T SK X Command Response Store) where
  -- the response, from what the enclave has put out
  unfoldable pub read_output : EcallOutput → Result (ApiError X) Response
  read_output out =
      if out.result == success
      then (do
        assert (ltb (length out.output) output_maxlen)
        res ← map_err bincode_decode (env.decode out.output)
        if out.ret == success then ok res else elim (env.command_error res) [
          | some descr ↦ err (command out.ret descr)
          | none ↦ panic
        ])
      else err (sgx_error out.result)

  unfoldable pub raw_execute_command :
      CommandContext T SK → Command → Action Store (ApiError X) Response
  raw_execute_command cctx cmd s = elim (env.encode (cctx, cmd)) [
    | err e ↦ (err (bincode_encode e), s)
    | panic ↦ (panic, s)
    | ok bz ↦ let (out, s') = env.ecall_execute_command bz s in (read_output out, s')
  ]

  -- the context of a command in transaction `tx`
  unfoldable pub command_context : RocksDbTx → Command → Result (ApiError X) (CommandContext T SK)
  command_context tx cmd = elim (env.get_enclave_key cmd) [
    | none ↦ ok (record { current_timestamp = env.now; sealed_ek = none; tx_id = tx.id })
    | some addr ↦ elim (env.load addr) [
      | err e ↦ err (key_manager e)
      | panic ↦ panic
      | ok sealed_ek ↦
          ok (record { current_timestamp = env.now; sealed_ek = some sealed_ek; tx_id = tx.id })
    ]
  ]

module _ {Db ReadDb Txn Snapshot : Type 0} (lib : RocksDb Db ReadDb Txn Snapshot) where
  -- `HostStoreTxManager::begin_tx`: `none` while `prepare` waits
  unfoldable pub begin_tx :
      {X : Type 0}
      → Option Bytes
      → RocksDbStore Db ReadDb Txn Snapshot
      → Option (Result (ApiError X) RocksDbTx × RocksDbStore Db ReadDb Txn Snapshot)
  begin_tx update_key s =
      let (r, s1) = create_transaction update_key s in
      elim r [
        | err e ↦ some (err (store e), s1)
        | panic ↦ some (panic, s1)
        | ok tx ↦ elim (prepare tx s1) [
          | none ↦ none
          | some (tx', s2) ↦ some (ok tx', begin lib tx' s2)
        ]
      ]

  -- `commit_tx` after a response, `rollback_tx` after an error. A panic drops the transaction.
  unfoldable pub settle :
      {E R : Type 0}
      → RocksDbTx
      → Result E R
      → Action (RocksDbStore Db ReadDb Txn Snapshot) StoreError (Unit {0})
  settle tx (ok res) = commit lib tx
  settle tx (err e) = rollback lib tx
  settle tx panic = λ s. (ok tt, drop_tx tx s)

  module _ {T SK X Command Response : Type 0}
      (env : Libs T SK X Command Response (RocksDbStore Db ReadDb Txn Snapshot)) where
    -- the `match` on what the enclave answers, and its two ends
    unfoldable pub run_in :
        RocksDbTx
        → CommandContext T SK
        → Command
        → Action (RocksDbStore Db ReadDb Txn Snapshot) (ApiError X) Response
    run_in tx cctx cmd s =
        let (r, s1) = raw_execute_command env cctx cmd s in
        let (u, s2) = settle tx r s1 in
        elim u [ ok done ↦ (r, s2) | err e ↦ (err (store e), s2) | panic ↦ (panic, s2) ]

    -- If the key cannot be loaded, the handle is dropped while the store keeps the transaction.
    unfoldable pub execute_command :
        Command
        → Option Bytes
        → RocksDbStore Db ReadDb Txn Snapshot
        → Option (Result (ApiError X) Response × RocksDbStore Db ReadDb Txn Snapshot)
    execute_command cmd update_key s = elim (begin_tx {X = X} update_key s) [
      | none ↦ none
      | some (err e, s1) ↦ some (err e, s1)
      | some (panic, s1) ↦ some (panic, s1)
      | some (ok tx, s1) ↦ elim (command_context env tx cmd) [
        | err e ↦ some (err e, drop_tx tx s1)
        | panic ↦ some (panic, drop_tx tx s1)
        | ok cctx ↦ some (run_in tx cctx cmd s1)
      ]
    ]
