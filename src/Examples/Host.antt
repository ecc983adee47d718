-- ===== src/Examples/Host.antt =====
-- A concrete enclave, and a command that the host runs in it.
use lcp.Base.{◌≡◌, refl, ℕ, true, none, some, [], ◌∷◌, ok, err, Result}
use lcp.Base.Equality
use lcp.Base.Bytes.{Bytes, codes}
use lcp.Base.Family
use lcp.Commands.{CommandContext}
use lcp.Store.KvStore
use lcp.Store.RocksDb
use lcp.Store.RocksDb.{transaction_db, get_db}
use lcp.Store.RocksDb.Store
use lcp.Store.RocksDb.Store.{RocksDbTx}
use lcp.Store.RocksDb.Contents.Session.{tx_writes, last}
use lcp.EnclaveApi
use lcp.EnclaveApi.{
  Libs, EcallOutput, ApiError, begin_tx, command_context, raw_execute_command, settle,
  execute_command,
}
use lcp.EnclaveApi.Atomic.{settled, execute_command-atomic}
use lcp.Examples.Rocks.{Rocks, database, fresh, key, ws}

abbrev reply : EcallOutput
reply = record { result = 0; ret = 0; output = 7 ∷ [] }

-- The enclave writes in the transaction that the command names, and replies with one byte.
abbrev enclave : Bytes → Rocks → EcallOutput × Rocks
enclave [] s = (reply, s)
enclave (id ∷ bz) s = (reply, (tx_writes database id ws s).1)

abbrev host : Libs ℕ ℕ ℕ Unit Bytes Rocks
host = record {
  now = 100;
  load = λ addr. err 0;
  get_enclave_key = λ cmd. none;
  encode = λ p. ok ((p.0).tx_id ∷ []);
  decode = λ bz. ok bz;
  command_error = λ res. none;
  ecall_execute_command = enclave;
}

abbrev held : RocksDbTx
held = record { id = 1; update_key = some key; mutex = some 0; guarded = true }

abbrev context : CommandContext ℕ ℕ
context = record { current_timestamp = 100; sealed_ek = none; tx_id = 1 }

abbrev started : Rocks
started = elim (begin_tx database {X = ℕ} (some key) fresh) [ none ↦ fresh | some (r, s) ↦ s ]

abbrev answered : Rocks
answered = (raw_execute_command host context tt started).1

abbrev answer : Result (ApiError ℕ) Bytes
answer = ok (7 ∷ [])

steps :
    (fresh.db ≡ transaction_db (λ k. some (1 ∷ [])))
    × (begin_tx database {X = ℕ} (some key) fresh ≡ some (ok held, started))
    × (command_context host held tt ≡ ok context)
    × (raw_execute_command host context tt started ≡ (answer, answered))
    × (tx_writes database 1 ws started ≡ (ok tt, answered))
    × ((settle database held answer answered).0 ≡ ok tt)
unfolding begin_tx EnclaveApi.raw_execute_command EnclaveApi.command_context EnclaveApi.read_output
    settle Store.create_transaction Store.create_numbered Store.create_update Store.insert_mutex
    Store.clone_mutex Store.prepare KvStore.safe_incr Family.update Equality.list_eq Store.begin
    RocksDb.begin_stx Store.tx_write RocksDb.write_tx Store.commit Store.finalize_tx Store.end_tx
    Store.release_key Store.drop_tx Store.drop_mutex RocksDb.commit_stx
steps = (refl, refl, refl, refl, refl, refl)

execute_command-atomic_example :
    (s' : Rocks) × (execute_command database host tt (some key) fresh ≡ some (answer, s'))
    × (get_db database s'.db (codes "b")
        ≡ settled database answer (last ws (codes "b")) (get_db database fresh.db (codes "b")))
execute_command-atomic_example =
    execute_command-atomic database host tt key fresh started answered (λ k. some (1 ∷ [])) held
      context ws answer (codes "b") steps.0 steps.1 steps.2 steps.3 steps.4 steps.5
