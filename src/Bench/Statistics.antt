-- ===== src/Bench/Statistics.antt =====
-- `Percentile` of bindings/cpp/benchmarks/ffi_overhead_benchmark.cpp. Latencies are whole
-- nanoseconds.
use kvstore_ffi.Prelude.{
  ℕ, zero, suc, ◌+◌, ◌-◌, ◌%◌, ◌^◌, ◌≤◌, ◌<◌, ◌≡◌, refl, Bool, Option, none, some, List, [], ◌∷◌,
  arith, ltb, leb, if◌then◌else◌, length, get_elem?, Bool-cases, inl, inr, ◌∙◌, ap,
}

-- `std::sort`, whose result is the sorted list: by insertion.
unfoldable pub insert : ℕ → List ℕ → List ℕ
insert x [] = x ∷ []
insert x (y ∷ l) = let rest = insert x l in if leb x y then x ∷ y ∷ l else y ∷ rest

unfoldable pub sort : List ℕ → List ℕ
unfolding insert
sort [] = []
sort (x ∷ l) = insert x (sort l)

-- The place that `Percentile` reads in `n` elements; `scale n` is `n * pct`, cut to a whole number.
-- `n - 1` is a subtraction on `size_t`, which wraps.
unfoldable pub percentile_place : (ℕ → ℕ) → ℕ → ℕ
percentile_place scale n = if leb n (scale n) then (n + (2 ^ 64 - 1)) % 2 ^ 64 else scale n

-- `Percentile(data, pct)`: the element, and the data, sorted in place; `none` is a read past the end.
unfoldable pub percentile : (ℕ → ℕ) → List ℕ → Option (ℕ × List ℕ)
unfolding sort percentile_place
percentile scale samples =
    let sorted = sort samples in
    elim (get_elem? sorted (percentile_place scale (length sorted))) [
      | none ↦ none
      | some v ↦ some (v, sorted)
    ]

-- How many elements pass a test.
abbrev pub tally : (ℕ → Bool) → List ℕ → ℕ
tally p [] = 0
tally p (x ∷ l) = (if p x then 1 else 0) + tally p l

abbrev AtLeast : ℕ → List ℕ → Type 0
AtLeast x [] = Unit {0}
AtLeast x (y ∷ l) = (x ≤ y) × AtLeast x l

abbrev IsSorted : List ℕ → Type 0
IsSorted [] = Unit {0}
IsSorted (x ∷ l) = AtLeast x l × IsSorted l

AtLeast-trans : (x y : ℕ) (l : List ℕ) → x ≤ y → AtLeast y l → AtLeast x l
AtLeast-trans x y [] h a = tt
AtLeast-trans x y (z ∷ l) h (a, b) = (omega arith, AtLeast-trans x y l h b)

AtLeast-insert : (x y : ℕ) (l : List ℕ) → x ≤ y → AtLeast x l → AtLeast x (insert y l)
unfolding insert
AtLeast-insert x y [] h a = (h, tt)
AtLeast-insert x y (z ∷ l) h (a, b) = elim (Bool-cases (leb y z)) [
  | inl e ↦ rw e (h, (a, b))
  | inr e ↦ rw e (a, AtLeast-insert x y l h b)
]

insert-IsSorted : (x : ℕ) (l : List ℕ) → IsSorted l → IsSorted (insert x l)
unfolding insert
insert-IsSorted x [] s = (tt, tt)
insert-IsSorted x (y ∷ l) (a, s) = elim (Bool-cases (leb x y)) [
  | inl e ↦ rw e ((ground arith, AtLeast-trans x y l (ground arith) a), (a, s))
  | inr e ↦ rw e (AtLeast-insert y x l (ground arith) a, insert-IsSorted x l s)
]

sort-IsSorted : (l : List ℕ) → IsSorted (sort l)
unfolding sort
sort-IsSorted [] = tt
sort-IsSorted (x ∷ l) = insert-IsSorted x (sort l) (sort-IsSorted l)

tally-insert :
    (p : ℕ → Bool) (x : ℕ) (l : List ℕ) → tally p (insert x l) ≡ (if p x then 1 else 0) + tally p l
unfolding insert
tally-insert p x [] = refl
tally-insert p x (y ∷ l) = elim (Bool-cases (leb x y)) [
  | inl e ↦ rw e refl
  | inr e ↦ rw e (omega (arith, tally-insert p x l))
]

tally-sort : (p : ℕ → Bool) (l : List ℕ) → tally p (sort l) ≡ tally p l
unfolding sort
tally-sort p [] = refl
tally-sort p (x ∷ l) = omega (arith, tally-insert p x (sort l), tally-sort p l)

length-insert : (x : ℕ) (l : List ℕ) → length (insert x l) ≡ suc (length l)
unfolding insert
length-insert x [] = refl
length-insert x (y ∷ l) = elim (Bool-cases (leb x y)) [
  | inl e ↦ rw e refl
  | inr e ↦ rw e (ap suc (length-insert x l))
]

length-sort : (l : List ℕ) → length (sort l) ≡ length l
unfolding sort
length-sort [] = refl
length-sort (x ∷ l) = length-insert x (sort l) ∙ ap suc (length-sort l)

none_below : (v x : ℕ) (l : List ℕ) → AtLeast x l → v ≤ x → tally (λ y. ltb y v) l ≡ 0
none_below v x [] a h = refl
none_below v x (y ∷ l) (a, b) h = ground (arith, none_below v x l b h)

elem-AtLeast : (x : ℕ) (l : List ℕ) (i v : ℕ) → AtLeast x l → get_elem? l i ≡ some v → x ≤ v
elem-AtLeast x [] i v a e = cc
elem-AtLeast x (y ∷ l) zero v (a, b) e = ground arith
elem-AtLeast x (y ∷ l) (suc i) v (a, b) e = elem-AtLeast x l i v b e

-- In a sorted list the element at `i` has at most `i` below it, and more than `i` not above it.
rank :
    (l : List ℕ) (i v : ℕ)
    → IsSorted l
    → get_elem? l i ≡ some v
    → (tally (λ y. ltb y v) l ≤ i) × (i < tally (λ y. leb y v) l)
rank [] i v s e = cc
rank (x ∷ l) zero v (a, s) e =
    let same : x ≡ v = ground arith in (ground (arith, none_below v x l a), ground arith)
rank (x ∷ l) (suc i) v (a, s) e =
    let (m, n) = rank l i v s e in let h = elem-AtLeast x l i v a e in (ground arith, ground arith)

elem_there : {A : Type 0} (l : List A) (i : ℕ) → i < length l → (v : A) × (get_elem? l i ≡ some v)
elem_there [] i h = absurd (omega arith)
elem_there (x ∷ l) zero h = (x, refl)
elem_there (x ∷ l) (suc i) h = elem_there l i (omega arith)

percentile_place_lem :
    (scale : ℕ → ℕ) (n : ℕ)
    → 0 < n
    → n < 2 ^ 64
    → (percentile_place scale n ≡ (if leb n (scale n) then n - 1 else scale n))
      × (percentile_place scale n < n)
unfolding percentile_place
percentile_place_lem scale n h k = (ground arith, ground arith)

percentile-some :
    (scale : ℕ → ℕ) (samples : List ℕ) (v : ℕ)
    → get_elem? (sort samples) (percentile_place scale (length samples)) ≡ some v
    → percentile scale samples ≡ some (v, sort samples)
unfolding percentile
percentile-some scale samples v e = rw (percentile, length-sort samples, e) refl

-- On data that is not empty and has less than 2^64 elements, `Percentile` returns an element,
-- and the place that it computes is within the data: at most so many elements are below the
-- returned one, and more than so many are not above it. The data is sorted after it.
pub percentile_lem :
    (scale : ℕ → ℕ) (samples : List ℕ)
    → 0 < length samples
    → length samples < 2 ^ 64
    → (v : ℕ) × (percentile scale samples ≡ some (v, sort samples))
      × (tally (λ y. ltb y v) samples ≤ percentile_place scale (length samples))
      × (percentile_place scale (length samples) < tally (λ y. leb y v) samples)
      × (percentile_place scale (length samples) < length samples)
unfolding percentile
percentile_lem scale samples h k =
    let place = percentile_place scale (length samples) in
    let inside = (percentile_place_lem scale (length samples) h k).1 in
    let (v, e) = elem_there (sort samples) place (omega (arith, length-sort samples)) in
    let (low, high) = rank (sort samples) place v (sort-IsSorted samples) e in
    (
      v,
      percentile-some scale samples v e,
      omega (arith, tally-sort (λ y. ltb y v) samples),
      omega (arith, tally-sort (λ y. leb y v) samples),
      inside,
    )

-- On no data the place wraps round, and `Percentile` reads past the end.
pub percentile_empty : (scale : ℕ → ℕ) → percentile scale [] ≡ none
unfolding percentile sort
percentile_empty scale = refl
