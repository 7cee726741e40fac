-- ===== src/Bench/Verdict.antt =====
-- The worst case that `main` of bindings/cpp/benchmarks/ffi_overhead_benchmark.cpp looks for, and the
-- guards of its loop. Times are of an abstract type with the tests of `double`.
use kvstore_ffi.Prelude.{
  ℕ, zero, suc, ◌≤◌, ◌≡◌, refl, Bool, true, false, some, List, [], ◌∷◌, arith, ltb, leb,
  if◌then◌else◌, Bool-cases, inl, inr, ◌⊎◌, ◌&&◌, ◌/◌, get_elem?, subst, sym, ◌∙◌,
}

-- `double`, with its `>`. No value is NaN: `>` is irreflexive, and what is not above `a` is not above
-- anything above `a`.
pub record Double : Type 1 where
  pub Time : Type 0
  pub zero_time : Time
  pub above : Time → Time → Bool
  pub above_irrefl : (a : Time) → above a a ≡ false
  pub above_trans : (a b c : Time) → above b a ≡ false → above c a ≡ true → above b c ≡ false

-- `MEASUREMENT_ITERATIONS / thread_count`, at least 100; the numbers are not negative.
unfoldable pub iterations_per_thread : ℕ → ℕ → ℕ
iterations_per_thread measurement thread_count =
    let iters = measurement / thread_count in if ltb iters 100 then 100 else iters

-- The `continue` of the loop over the thread counts.
unfoldable pub skips : ℕ → ℕ → Bool
skips value_size thread_count = leb 65536 value_size && ltb 64 thread_count

module _ (D : Double) where
  -- The fields of `FFIOverheadResult` that the worst case reads.
  pub record FfiOverheadResult : Type 0 where
    pub value_size : ℕ
    pub thread_count : ℕ
    pub ffi_overhead_ns : D.Time

  -- `worst_ffi_overhead_ns`, `worst_threads` and `worst_size`
  pub record Worst : Type 0 where
    pub overhead_ns : D.Time
    pub threads : ℕ
    pub size : ℕ

  abbrev pub worst_of : FfiOverheadResult → Worst
  worst_of r = record {
    overhead_ns = r.ffi_overhead_ns;
    threads = r.thread_count;
    size = r.value_size;
  }

  -- One round of the loop that looks for the worst case.
  unfoldable pub worse_of : FfiOverheadResult → Worst → Worst
  worse_of r w =
      if leb 16 r.thread_count && D.above r.ffi_overhead_ns w.overhead_ns then worst_of r else w

  -- The loop from `w` on.
  unfoldable pub scan_worst : Worst → List FfiOverheadResult → Worst
  unfolding worse_of
  scan_worst w [] = w
  scan_worst w (r ∷ results) = scan_worst (worse_of r w) results

  abbrev pub no_worst : Worst
  no_worst = record { overhead_ns = D.zero_time; threads = 0; size = 0 }

  unfoldable pub worst_case : List FfiOverheadResult → Worst
  unfolding scan_worst
  worst_case results = scan_worst no_worst results

  worse_of-keeps :
      (r : FfiOverheadResult) (w : Worst) (a : D.Time)
      → D.above a w.overhead_ns ≡ false
      → D.above a (worse_of r w).overhead_ns ≡ false
  unfolding worse_of
  worse_of-keeps r w a h =
      elim (Bool-cases (leb 16 r.thread_count && D.above r.ffi_overhead_ns w.overhead_ns)) [
        | inl worse ↦
            rw (worse_of, worse) (D.above_trans w.overhead_ns a r.ffi_overhead_ns h (ground arith))
        | inr not_worse ↦ rw (worse_of, not_worse) h
      ]

  worse_of-covers :
      (r : FfiOverheadResult) (w : Worst)
      → 16 ≤ r.thread_count
      → D.above r.ffi_overhead_ns (worse_of r w).overhead_ns ≡ false
  unfolding worse_of
  worse_of-covers r w h =
      elim (Bool-cases (leb 16 r.thread_count && D.above r.ffi_overhead_ns w.overhead_ns)) [
        | inl worse ↦ rw (worse_of, worse) (D.above_irrefl r.ffi_overhead_ns)
        | inr not_worse ↦ rw (worse_of, not_worse) (ground arith)
      ]

  -- What is not above the worst case so far stays so.
  scan_keeps :
      (results : List FfiOverheadResult) (w : Worst) (a : D.Time)
      → D.above a w.overhead_ns ≡ false
      → D.above a (scan_worst w results).overhead_ns ≡ false
  unfolding scan_worst
  scan_keeps [] w a h = h
  scan_keeps (r ∷ results) w a h = scan_keeps results (worse_of r w) a (worse_of-keeps r w a h)

  scan_covers :
      (results : List FfiOverheadResult) (w : Worst) (i : ℕ) (r : FfiOverheadResult)
      → get_elem? results i ≡ some r
      → 16 ≤ r.thread_count
      → D.above r.ffi_overhead_ns (scan_worst w results).overhead_ns ≡ false
  unfolding scan_worst
  scan_covers [] w i r e h = cc
  scan_covers (x ∷ results) w (suc i) r e h = scan_covers results (worse_of x w) i r e h
  scan_covers (x ∷ results) w zero r e h =
      let same : x ≡ r = cc in
      subst (λ y. D.above y.ffi_overhead_ns (scan_worst (worse_of x w) results).overhead_ns ≡ false)
        same
        (scan_keeps results (worse_of x w) x.ffi_overhead_ns
          (worse_of-covers x w (subst (λ y. 16 ≤ y.thread_count) (sym same) h)))

  -- The worst case came from one of the results, or is the start.
  scan_origin :
      (results : List FfiOverheadResult) (w : Worst)
      → (scan_worst w results ≡ w)
        ⊎ ((i : ℕ) × (r : FfiOverheadResult) × (get_elem? results i ≡ some r)
            × (16 ≤ r.thread_count)
            × (scan_worst w results ≡ worst_of r))
  unfolding scan_worst worse_of
  scan_origin [] w = inl refl
  scan_origin (x ∷ results) w = elim (scan_origin results (worse_of x w)) [
    | inr (i, r, e, h, q) ↦ inr (suc i, r, e, h, q)
    | inl e ↦ elim (Bool-cases (leb 16 x.thread_count && D.above x.ffi_overhead_ns w.overhead_ns)) [
      | inl worse ↦ inr (0, x, refl, ground arith, e ∙ rw (worse_of, worse) refl)
      | inr not_worse ↦ inl (e ∙ rw (worse_of, not_worse) refl)
    ]
  ]

  -- For results of which one has 16 threads or more: the reported worst case is that of such a
  -- result, or nothing at 0, and the overhead of that one is not above it.
  pub worst_case_lem :
      (results : List FfiOverheadResult) (i : ℕ) (r : FfiOverheadResult)
      → get_elem? results i ≡ some r
      → 16 ≤ r.thread_count
      → (D.above r.ffi_overhead_ns (worst_case results).overhead_ns ≡ false)
        × ((worst_case results ≡ no_worst)
            ⊎ ((j : ℕ) × (x : FfiOverheadResult) × (get_elem? results j ≡ some x)
                × (16 ≤ x.thread_count)
                × (worst_case results ≡ worst_of x)))
  unfolding worst_case
  worst_case_lem results i r e h =
      (scan_covers results no_worst i r e h, scan_origin results no_worst)
