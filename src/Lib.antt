-- ===== src/Lib.antt =====
-- KVStore_FFI: a key-value store with a client SDK. The SDK (core-sdk, in Rust) keeps a cache in
-- front of an HTTP server and offers a C interface; the C++ wrapper (bindings/cpp/include) makes
-- objects of it, and the benchmarks (bindings/cpp/benchmarks) run on the wrapper.
--
-- A cached value is an `Arc<String>`. A get hands the caller a pointer into the text together with a
-- reference that keeps it alive, which the caller gives back by a release. The wrapper's `ValueRef` does
-- so in its destructor.
--
-- Prelude: shared notation, tests and lists; Prelude.Table, slots addressed by pointers; Prelude.State,
--   runs that change a state and may fault. A fault is undefined behaviour or the end of the process.
-- Memory: the heap of `Arc<String>` cells with their strong counts, and what each operation does to
--   the counts (Memory.Counts).
-- Text: byte strings with UTF-8, as Rust's standard library checks it.
-- ErrorCode: core-sdk/src/error.rs and the enum of kv_store.hpp.
-- Platform: what is not in the repository, as parameters with documented laws: the cache moka, the
--   HTTP client with the network and the server, the JSON of serde and that of nlohmann, which are
--   apart. The cache may forget entries at any time.
-- Http: core-sdk/src/client.rs (`KvHttpClient::new`, `get`, `set`).
-- Cache: core-sdk/src/cache.rs (`KvCache`); Cache.Accounts, the references that it owns; Cache.View,
--   what it knows.
-- Ffi: core-sdk/src/ffi.rs (`kv_store_init`, `kv_store_get`, …) on a state of the heap, the boxed
--   clients and the world. Ffi.Books is the invariant: each strong count is what the caches own and
--   what the callers hold. Ffi.Get, Ffi.Set, Ffi.Lifecycle, Ffi.Init and
--   Ffi.Counters are the theorems.
-- Binding: bindings/cpp/include/kv_store.hpp (`ValueRef`, `KvStoreClient`) on tables of objects.
--   Binding.Ownership is the invariant of the objects, Binding.Program programs over live objects.
--   Binding.Expected writes out the outcomes of the reads without the definitions of the classes,
--   Binding.Answers compares the bodies with them; Binding.Moves, Binding.Reads, Binding.Writes,
--   Binding.Clients, Binding.Assignment and Binding.Rates are the theorems on the operations.
-- Async: bindings/cpp/include/kv_store_async.hpp and core-sdk/src/ffi_async.rs. The state is that of the
--   synchronous interface, with tables of contexts, promises, tasks, boxed clients and objects beside
--   it. Async.Runtime is the C interface with the tasks, which have two steps: the request
--   (`get_asks`, `set_asks`) and what follows its answer (`get_finishes`, `set_finishes`).
--   Async.Client is `KvStoreAsyncClient` with its futures (`get_ref_async`, `await_string`, …).
--   Async.Ledger and Async.Entries say who settles which promise; Async.Invariant is the invariant
--   with them, Async.Cores what a cache needs while boxed clients and tasks share it. Async.Callbacks,
--   Async.GetCallback and Async.Delivery are on the callbacks, Async.Tasks, Async.Finish and
--   Async.Progress on the steps of the tasks, Async.Gets, Async.Sets, Async.Futures, Async.Await,
--   Async.Owners, Async.Objects and Async.Setup on the operations of the client. Async.Program has
--   the interleavings of calls and steps, Async.Drain the runs of all tasks, Async.Whole a get from
--   the call to its string.
-- Server: server/src/main.rs (`get_value`, `set_value`, `delete_value`, `handle` for the routes of
--   `main`) over a map and a router that are parameters; Server.Client, the HTTP client against it.
-- Bench: bindings/cpp/benchmarks. Bench.Values and Bench.Statistics are the utilities,
--   Bench.Direct the baseline client, Bench.Runs and Bench.Suite the runs (Bench.Recorded,
--   Bench.Loops: theorems on their loops), Bench.Verdict and Bench.Comparison the evaluation.
-- Tests: a concrete cache and server, and the theorems at concrete inputs.
--
-- Numbers of fixed width are natural numbers with their wrap-around written out. The buffer of a
-- text is named by the address of its `Arc`; an address is never used twice. An `int32_t` code is
-- a natural number, which is all that the SDK sends. A quotient of `double` (the hit rate, the
-- means of the benchmarks) is the exact fraction, without the rounding. The only recursion on fuel
-- is that on decimal digits, with one round for each number up to the one printed. An object of a
-- class is the slot of a table, so that use of a moved-from or destroyed object shows.
--
-- Not modelled: the threads of the callers and of tokio (a call is atomic here, and so is a task from
-- its answer to its end; moka and the counters are safe to share), futures that are dropped unread,
-- callbacks other than those of the wrapper, the start of the server, the C# binding, and the clock,
-- the random numbers, the asynchronous run and the output of the benchmarks. Times and random numbers
-- are arguments.
pub mod Prelude
pub mod Memory
pub mod Text
pub mod ErrorCode
pub mod Platform
pub mod Http
pub mod Cache
pub mod Ffi
pub mod Binding
pub mod Async
pub mod Server
pub mod Bench
pub mod Tests
