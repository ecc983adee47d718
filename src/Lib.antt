-- ===== src/Lib.antt =====
-- LCP, a light client proxy: an enclave runs light clients of upstream chains, signs what it has
-- verified, and a downstream chain checks only the signature and the attestation of the enclave.
--
-- The parts that are modelled and how they interact:
--
-- - Base: shared notation. Base/Outcome is Rust's `Result` with a third case for a panic,
--   Base/Action threads a state through code that may fail or panic, Base/Codec is what is asked of
--   a serialization library, Base/HashMap is a map of the standard library.
-- - Types (modules/types/src): Types/Height is height.rs, Types/Time time.rs over `tendermint::Time`
--   as the parameter `TmTime`, Types/Host host.rs, Types/Any any.rs.
-- - Crypto (modules/crypto/src/key.rs, traits.rs): signatures, signer recovery and addresses over
--   the parameter `Secp256k1`, which stands for libsecp256k1, tiny_keccak and hex.
-- - Commitments (modules/commitments/src): Commitments/Context is context.rs, Commitments/Message
--   message.rs and message/, Commitments/Abi encoder.rs and the `sol!` structs, Commitments/Proof
--   proof.rs and prover.rs, Commitments/StateId state.rs. alloy's ABI coder is the parameter `Libs`.
-- - Store (modules/store/src): Store/KvStore is the trait of store.rs with the laws a client relies
--   on, Store/Memory memory.rs, Store/Cache cache.rs. Both stores are proved against the trait.
--   Store/RocksDb is rocksdb.rs and transaction.rs over the parameter `RocksDb` of Store/Database,
--   which stands for the crate rocksdb: Store/RocksDb the kinds of transactions,
--   Store/RocksDb/Store the store and the handles of transactions. `prepare` gives `none` while the
--   caller waits, the counts of `Rc` are on a heap, and a read of the database does not fail.
-- - LightClient (modules/light-client/src, modules/context/src/context.rs): the keys of a client's
--   data (path.rs is LightClient/Path) and their reading and writing over any `KvStore` (context.rs
--   is LightClient/Context), the trait of a light client (client.rs is LightClient/Client), and the
--   registry of light clients (registry.rs is LightClient/Registry).
-- - Commands (modules/ecall-commands/src/light_client.rs, commands.rs): what the enclave is asked.
-- - Handler (enclave-modules/ecall-handler/src/light_client): what it does. Handler/Router is
--   router.rs, Handler/Init init_client.rs, Handler/Update update_client.rs, Handler/State
--   verify_state.rs and query.rs, Handler/Aggregate with Handler/Messages aggregate_messages.rs, and
--   Handler itself registry.rs. The parameter `Env` holds the registry of light clients, of which
--   each is any `LightClient`, and the other crates. A command runs on the store of its transaction,
--   and what it wrote before it failed stays; the host rolls the transaction back. Handler/Fresh is
--   which names of clients are free, over any sequence of commands.
-- - EnclaveApi (modules/enclave-api/src/enclave.rs, api/primitive.rs): how the host runs a command,
--   in a transaction of the RocksDB store, over the parameter `Libs` for the key manager, bincode and
--   the call of the enclave. `settle` and `run_in` are the end of `execute_command`.
-- - AttestationReport (modules/attestation-report/src/report.rs): reports and quotes, over the
--   parameter `ReportLibs`.
-- - LcpClient (modules/lcp-client/src): LcpClient/ClientState, ConsensusState and Message are the
--   files of these names. client_def.rs is LcpClient/Reader for what only reads (`verify_membership`,
--   `verify_report`, the enclave keys; `client_state` and `consensus_state` are the reads with the
--   conversion that follows them) and LcpClient/Client for what writes: `initialise`, `update_state`,
--   `register` (`register_enclave_key`), `submit_misbehaviour`, and `update` (`update_client`), whose
--   two `match`es are `handle` and `handle_proxy`. `check_prev`, `check_prev_states` and
--   `write_update` are parts of `update_state` and `submit_misbehaviour` under a name.
-- - Examples: concrete libraries, keys and times, and the theorems applied to concrete inputs.
--
-- A `str` is its UTF-8 bytes and a byte string a list of numbers; `IsBytes`, `IsHeight`,
-- `IsDuration` and the like say what the Rust types say. A panic is a value, and the state at the
-- time of the panic stays. The printing of a `u64` takes twenty rounds of a loop on fuel, enough for
-- every `u64`, as reading a printed number back shows.
--
-- Not modelled: the text of errors and `Display`, the conversions to ibc-rs types, the generation
-- and sealing of keys, the X.509 chain of a report (a parameter), the opening of database files and
-- the poisoning of locks, the choice between the host's stores (store/src/host.rs), the commands
-- that manage enclave keys, the light clients tendermint-lc and mock-lc, the key manager, the gRPC
-- service, and generated code.
pub mod Base
pub mod Types
pub mod Crypto
pub mod Commitments
pub mod Store
pub mod LightClient
pub mod AttestationReport
pub mod LcpClient
pub mod Examples
pub mod Commands
pub mod Handler
pub mod EnclaveApi
