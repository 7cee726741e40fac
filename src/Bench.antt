-- ===== src/Bench.antt =====
-- bindings/cpp/benchmarks: the benchmarks.
pub mod Values
pub mod Statistics
pub mod Verdict
pub mod Direct
pub mod Runs
pub mod Recorded
pub mod Loops
pub mod Suite
pub mod Comparison
