-- ===== src/Bench/Direct.antt =====
-- `DirectHttpClient` of the benchmarks, the baseline without the SDK: of
-- bindings/cpp/benchmarks/ffi_overhead_benchmark.cpp, whose `Get` returns "" on every failure.
use kvstore_ffi.Prelude.{
  ℕ, Bool, Option, none, some, List, [], ◌∷◌, ◌++◌, ◌==◌, if◌then◌else◌, length,
}
use kvstore_ffi.Text.{Text, from_ptr}
use kvstore_ffi.Platform.{Platform, Method, Response}
use kvstore_ffi.Http.{kv_path}
use kvstore_ffi.Bench.Values.{to_string, generate_value}

-- `"bench_" + std::to_string(size)`
abbrev pub bench_key : ℕ → Text
bench_key size = b'b' ∷ b'e' ∷ b'n' ∷ b'c' ∷ b'h' ∷ b'_' ∷ to_string size

-- What `RunDirectHttpBenchmark` keeps of one timed call: the latency, where a value came.
unfoldable pub push_value : Text → ℕ → List ℕ → List ℕ
push_value [] lap local = local
push_value (b ∷ value) lap local = local ++ (lap ∷ [])

module _ ⦃P : Platform⦄ where
  open P use {World, Body, send, json_value, json_body, no_body}

  -- What `Get` makes of the response, by nlohmann::json; `none` is an exception of that library.
  unfoldable pub read_direct : Option (Response Body) → Option Text
  read_direct none = some []
  read_direct (some r) = if r.status == 200 then json_value r.body else some []

  -- `Get(key)`
  unfoldable pub direct_get : Text → World → Option Text × World
  unfolding read_direct
  direct_get key w =
      let (r, w') =
        send w (record { method = Method.get; url = from_ptr (kv_path ++ key); body = no_body }) in
      (read_direct r, w')

  -- `Set(key, value)`, whose response is not looked at.
  unfoldable pub direct_set : Text → Text → World → World
  direct_set key value w =
      (send w
        (record { method = Method.put; url = from_ptr (kv_path ++ key); body = json_body value })).1

  -- `SetupTestData(sizes)`: for each size whether the value came back with its size.
  unfoldable pub setup_test_data : List ℕ → World → Option (List Bool) × World
  unfolding direct_get direct_set
  setup_test_data [] w = (some [], w)
  setup_test_data (size ∷ sizes) w =
      let (got, w') =
        direct_get (bench_key size) (direct_set (bench_key size) (generate_value size) w) in
      let (rest, w'') = setup_test_data sizes w' in
      elim got [
        | none ↦ (none, w')
        | some retrieved ↦ elim rest [
          | none ↦ (none, w'')
          | some checks ↦ (some ((length retrieved == size) ∷ checks), w'')
        ]
      ]

  -- The loop of one thread of `RunDirectHttpBenchmark`, with the durations that the clock will give.
  unfoldable pub direct_loop : Text → List ℕ → List ℕ → World → Option (List ℕ) × World
  unfolding direct_get push_value
  direct_loop key [] local w = (some local, w)
  direct_loop key (lap ∷ laps) local w =
      let (got, w') = direct_get key w in
      elim got [
        | none ↦ (none, w')
        | some value ↦ direct_loop key laps (push_value value lap local) w'
      ]
