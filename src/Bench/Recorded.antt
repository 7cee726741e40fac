-- ===== src/Bench/Recorded.antt =====
-- What the loops of bindings/cpp/benchmarks/ffi_overhead_benchmark.cpp record: the latencies and the
-- count of the operations.
use kvstore_ffi.Prelude.{
  ℕ, ◌+◌, ◌<◌, ◌%◌, ◌++◌, sym, ◌^◌, length-append, ◌≡◌, refl, List, [], ◌∷◌, length, arith, ap, ◌∙◌,
}
use kvstore_ffi.Bench.Runs.{Progress, push}

-- All durations of the threads, in the order of the rounds.
abbrev pub all_laps : List (List ℕ) → List ℕ
all_laps [] = []
all_laps (laps ∷ threads) = laps ++ all_laps threads

-- The progress `q` has these durations after those of `p`, and has counted each.
pub record Recorded (p : Progress) (laps : List ℕ) (q : Progress) : Type 0 where
  pub latencies : q.latencies ≡ p.latencies ++ laps
  pub total_ops : q.total_ops ≡ (p.total_ops + length laps) % 2 ^ 64

append_nil : (l : List ℕ) → l ++ [] ≡ l
append_nil [] = refl
append_nil (x ∷ l) = ap (λ r. x ∷ r) (append_nil l)

append_assoc : (l m n : List ℕ) → (l ++ m) ++ n ≡ l ++ (m ++ n)
append_assoc [] m n = refl
append_assoc (x ∷ l) m n = ap (λ r. x ∷ r) (append_assoc l m n)

pub Recorded-none : (p : Progress) → p.total_ops < 2 ^ 64 → Recorded p [] p
Recorded-none p h = record { latencies = sym (append_nil p.latencies); total_ops = omega arith }

pub Recorded-append :
    {p q r : Progress} {l m : List ℕ} → Recorded p l q → Recorded q m r → Recorded p (l ++ m) r
Recorded-append {p} {q} {r} {l} {m} x y = record {
  latencies = y.latencies ∙ ap (λ z. z ++ m) x.latencies ∙ append_assoc p.latencies l m;
  total_ops = omega (arith, x.total_ops, y.total_ops, length-append l m);
}

pub push-Recorded : (lap : ℕ) (p : Progress) → Recorded p (lap ∷ []) (push lap p)
unfolding push
push-Recorded lap p = record { latencies = refl; total_ops = refl }

pub Recorded-fits : {p q : Progress} {l : List ℕ} → Recorded p l q → q.total_ops < 2 ^ 64
Recorded-fits x = omega (arith, x.total_ops)
