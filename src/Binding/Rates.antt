-- ===== src/Binding/Rates.antt =====
-- `CacheStats::hit_rate` of bindings/cpp/include/kv_store.hpp.
use kvstore_ffi.Prelude.{◌+◌, ◌*◌, ◌<◌, ◌≤◌, ◌≡◌, ◌%◌, ◌^◌, refl, inl, inr, arith, ltb, Bool-cases}
use kvstore_ffi.Binding.State.{CacheStats, hit_rate}

-- Where the two counters add up to less than 2^64, `hit_rate()` is a fraction between 0 and 1 with a
-- denominator above 0: the hits over all lookups, and 0 where there was none.
pub hit_rate_bounds :
    (s : CacheStats)
    → s.hits + s.misses < 2 ^ 64
    → (0 < (hit_rate s).1)
      × ((hit_rate s).0 ≤ (hit_rate s).1)
      × ((hit_rate s).0 * (s.hits + s.misses) ≡ s.hits * (hit_rate s).1)
unfolding hit_rate
hit_rate_bounds s small =
    let whole : (s.hits + s.misses) % 2 ^ 64 ≡ s.hits + s.misses = omega arith in
    elim (Bool-cases (ltb 0 (s.hits + s.misses))) [
      | inl some_lookups ↦ rw (hit_rate, whole, some_lookups) (ground arith, omega arith, refl)
      | inr no_lookups ↦
          let no_hits : s.hits ≡ 0 = ground arith in
          rw (hit_rate, whole, no_lookups, no_hits) (omega arith, omega arith, omega arith)
    ]
