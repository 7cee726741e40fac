-- ===== src/Bench/Values.antt =====
-- The keys and values of the benchmarks: `GenerateValue` and `FormatSize` of
-- bindings/cpp/benchmarks/ffi_overhead_benchmark.cpp, `InitializeKeys` of benchmark_main.cpp.
use kvstore_ffi.Prelude.{
  ℕ, zero, suc, ◌+◌, ◌*◌, ◌-◌, ◌/◌, ◌%◌, ◌<◌, ◌≡◌, ◌≢◌, refl, true, some, List, [], ◌∷◌, ◌++◌,
  arith, ltb, leb, if◌then◌else◌, length, get_elem?, length-append, sym, ap, ◌∙◌, Bool-cases, inl,
  inr, ◌⊎◌, subst,
}
use kvstore_ffi.Text.{Text}

-- `static_cast<char>('A' + (i % 26))`
abbrev pub letter : ℕ → ℕ
letter i = b'A' + i % 26

-- The loop of `GenerateValue`, with `n` rounds to go.
unfoldable pub append_letters : ℕ → ℕ → Text → Text
append_letters zero i value = value
append_letters (suc n) i value = append_letters n (suc i) (value ++ (letter i ∷ []))

-- `GenerateValue(size)`
unfoldable pub generate_value : ℕ → Text
unfolding append_letters
generate_value size = append_letters size 0 []

-- `std::to_string` of an unsigned number: its decimal digits, before those of `acc`. A number has at
-- most as many digits as it counts, so that `suc n` rounds are enough for `n`.
unfoldable pub digits : ℕ → ℕ → Text → Text
digits zero n acc = acc
digits (suc fuel) n acc =
    let c = b'0' + n % 10 in
    let rest = digits fuel (n / 10) (c ∷ acc) in if ltb n 10 then c ∷ acc else rest

unfoldable pub to_string : ℕ → Text
unfolding digits
to_string n = digits (suc n) n []

-- `FormatSize(bytes)`
unfoldable pub format_size : ℕ → Text
unfolding to_string
format_size bytes =
    if leb (1024 * 1024) bytes
    then to_string (bytes / (1024 * 1024)) ++ (b'M' ∷ b'B' ∷ [])
    else if leb 1024 bytes
    then to_string (bytes / 1024) ++ (b'K' ∷ b'B' ∷ [])
    else to_string bytes ++ (b'B' ∷ [])

-- `NUM_KEYS`
abbrev pub num_keys : ℕ
num_keys = 1000

-- `"key" + std::to_string(i)` and `"value" + std::to_string(i)`
unfoldable pub key_text : ℕ → Text
unfolding to_string
key_text i = b'k' ∷ b'e' ∷ b'y' ∷ to_string i

unfoldable pub value_text : ℕ → Text
unfolding to_string
value_text i = b'v' ∷ b'a' ∷ b'l' ∷ b'u' ∷ b'e' ∷ to_string i

-- The loop of `InitializeKeys`, with `n` rounds to go, on `g_keys` and `g_values`.
unfoldable pub push_keys : ℕ → ℕ → List Text × List Text → List Text × List Text
unfolding key_text value_text
push_keys zero i g = g
push_keys (suc n) i (keys, values) =
    push_keys n (suc i) (keys ++ (key_text i ∷ []), values ++ (value_text i ∷ []))

-- `InitializeKeys()` on `g_keys` and `g_values`: nothing happens where keys are there.
unfoldable pub initialize_keys : List Text × List Text → List Text × List Text
unfolding push_keys
initialize_keys ([], values) = push_keys num_keys 0 ([], values)
initialize_keys (k ∷ keys, values) = (k ∷ keys, values)

-- The number that digits stand for, after `r`.
read : ℕ → Text → ℕ
read r [] = r
read r (c ∷ t) = read (r * 10 + (c - b'0')) t

small_digit : (n : ℕ) → ltb n 10 ≡ true → 0 * 10 + (b'0' + n % 10 - b'0') ≡ n
small_digit n h = ground arith

read-digits : (fuel n : ℕ) (acc : Text) → n < fuel → read 0 (digits fuel n acc) ≡ read n acc
unfolding digits read
read-digits zero n acc h = absurd (omega arith)
read-digits (suc fuel) n acc h = elim (Bool-cases (ltb n 10)) [
  | inl small ↦ rw small (ap (λ x. read x acc) (small_digit n small))
  | inr big ↦ rw big (
      read-digits fuel (n / 10) ((b'0' + n % 10) ∷ acc) (ground arith)
      ∙ ap (λ x. read x acc) (omega arith))
]

read-to_string : (n : ℕ) → read 0 (to_string n) ≡ n
unfolding to_string read
read-to_string n = read-digits (suc n) n [] (omega arith)

-- Different indices have different keys.
pub key_text_inj : (i j : ℕ) → key_text i ≡ key_text j → i ≡ j
unfolding key_text
key_text_inj i j e =
    let same : to_string i ≡ to_string j = cc in
    sym (read-to_string i) ∙ ap (read 0) same ∙ read-to_string j

get_elem-append_lt :
    {A : Type 0} (l m : List A) (i : ℕ) → i < length l → get_elem? (l ++ m) i ≡ get_elem? l i
get_elem-append_lt [] m i h = absurd (omega arith)
get_elem-append_lt (x ∷ l) m zero h = refl
get_elem-append_lt (x ∷ l) m (suc i) h = get_elem-append_lt l m i (omega arith)

get_elem-append_length :
    {A : Type 0} (l : List A) (x : A) → get_elem? (l ++ (x ∷ [])) (length l) ≡ some x
get_elem-append_length [] x = refl
get_elem-append_length (y ∷ l) x = get_elem-append_length l x

-- The list is filled with `f 0`, …, `f (n - 1)`.
pub record IsFilled {A : Type 0} (f : ℕ → A) (n : ℕ) (l : List A) : Type 0 where
  pub length_lem : length l ≡ n
  pub elems : (j : ℕ) → j < n → get_elem? l j ≡ some (f j)

IsFilled-push :
    {A : Type 0} (f : ℕ → A) (n : ℕ) (l : List A)
    → IsFilled f n l
    → IsFilled f (suc n) (l ++ (f n ∷ []))
IsFilled-push f n l h = record {
  length_lem = omega (arith, length-append l (f n ∷ []), h.length_lem);
  elems = λ j le. elim (lt_or_eq n j le) [
    | inl before ↦
        get_elem-append_lt l (f n ∷ []) j (omega (arith, h.length_lem)) ∙ h.elems j before
    | inr now ↦ rw (← now) (
        subst (λ m. get_elem? (l ++ (f n ∷ [])) m ≡ some (f n)) h.length_lem
          (get_elem-append_length l (f n)))
  ];
}
  where
    lt_or_eq : (n j : ℕ) → j < suc n → (j < n) ⊎ (n ≡ j)
    lt_or_eq n j le = ground arith

append_letters_lem :
    (n i : ℕ) (value : Text)
    → IsFilled letter i value
    → IsFilled letter (i + n) (append_letters n i value)
unfolding append_letters
append_letters_lem zero i value h = subst (λ m. IsFilled letter m value) (omega arith) h
append_letters_lem (suc n) i value h =
    subst (λ m. IsFilled letter m (append_letters n (suc i) (value ++ (letter i ∷ []))))
      (omega arith)
      (append_letters_lem n (suc i) (value ++ (letter i ∷ [])) (IsFilled-push letter i value h))

-- `GenerateValue(size)` has `size` characters; the one at `i` is the letter `'A' + i % 26`.
pub generate_value_lem : (size : ℕ) → IsFilled letter size (generate_value size)
unfolding generate_value
generate_value_lem size =
    subst (λ m. IsFilled letter m (append_letters size 0 [])) (omega arith)
      (append_letters_lem size 0 []
        (record { length_lem = refl; elems = λ j l. absurd (omega arith) }))

push_keys_lem :
    (n i : ℕ) (keys values : List Text)
    → IsFilled key_text i keys
    → IsFilled value_text i values
    → IsFilled key_text (i + n) (push_keys n i (keys, values)).0
      × IsFilled value_text (i + n) (push_keys n i (keys, values)).1
unfolding push_keys
push_keys_lem zero i keys values h k = (
  subst (λ m. IsFilled key_text m keys) (omega arith) h,
  subst (λ m. IsFilled value_text m values) (omega arith) k,
)
push_keys_lem (suc n) i keys values h k =
    let (a, b) =
      push_keys_lem n (suc i) (keys ++ (key_text i ∷ [])) (values ++ (value_text i ∷ []))
        (IsFilled-push key_text i keys h) (IsFilled-push value_text i values k) in
    (
      subst
          (λ m.
            IsFilled key_text m
              (push_keys n (suc i) (keys ++ (key_text i ∷ []), values ++ (value_text i ∷ []))).0)
          (omega arith) a,
      subst
          (λ m.
            IsFilled value_text m
              (push_keys n (suc i) (keys ++ (key_text i ∷ []), values ++ (value_text i ∷ []))).1)
          (omega arith) b,
    )

-- `InitializeKeys` on no keys and no values gives `NUM_KEYS` of both, `key<i>` and `value<i>` at `i`,
-- and a second call changes nothing.
pub initialize_keys_lem :
    IsFilled key_text num_keys (initialize_keys ([], [])).0
    × IsFilled value_text num_keys (initialize_keys ([], [])).1
    × (initialize_keys (initialize_keys ([], [])) ≡ initialize_keys ([], []))
unfolding initialize_keys
initialize_keys_lem =
    let (a, b) =
      push_keys_lem num_keys 0 [] []
        (record { length_lem = refl; elems = λ j l. absurd (omega arith) })
        (record { length_lem = refl; elems = λ j l. absurd (omega arith) }) in
    (a, b, again (push_keys num_keys 0 ([], [])) a.length_lem)
  where
    again : (g : List Text × List Text) → length g.0 ≡ num_keys → initialize_keys g ≡ g
    again ([], values) e = absurd (omega arith)
    again (k ∷ keys, values) e = refl

-- The keys of `InitializeKeys` at two different places below `NUM_KEYS` differ.
pub initialize_keys_distinct :
    (i j : ℕ)
    → i < num_keys
    → j < num_keys
    → i ≢ j
    → get_elem? (initialize_keys ([], [])).0 i ≢ get_elem? (initialize_keys ([], [])).0 j
initialize_keys_distinct i j hi hj ne e =
    let k = initialize_keys_lem.0 in ne (key_text_inj i j (cc (k.elems i hi, k.elems j hj, e)))
