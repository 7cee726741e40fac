-- ===== src/Tests/ListCache.antt =====
-- A bounded cache as a list of entries, newest first, which drops the oldest: an instance of the
-- cache that the development takes as a parameter.
use kvstore_ffi.Prelude.{
  ℕ, zero, suc, ◌+◌, ◌<◌, ◌≡◌, refl, ◌≢◌, ◌⊎◌, inl, inr, false, Option, none, some, List, [], ◌∷◌,
  ◌++◌, arith, leb, if◌then◌else◌, length, take, count, list_eq, list_eq_sound, list_eq_refl,
  Bool-cases, ap,
}
use kvstore_ffi.Text.{Text}
use kvstore_ffi.Platform.{Moka}

abbrev pub Entries : Type 0
Entries = List (Text × ℕ)

pub record Store : Type 0 where
  pub capacity : ℕ
  pub entries : Entries

abbrev pub addresses : Entries → List ℕ
addresses [] = []
addresses ((_, a) ∷ l) = a ∷ addresses l

abbrev pub find : Text → Entries → Option ℕ
find k [] = none
find k ((j, a) ∷ l) = if list_eq k j then some a else find k l

abbrev pub erase : Text → Entries → Entries
erase k [] = []
erase k ((j, a) ∷ l) = if list_eq k j then erase k l else (j, a) ∷ erase k l

-- The addresses that `erase` drops.
abbrev pub gone : Text → Entries → List ℕ
gone k [] = []
gone k ((j, a) ∷ l) = if list_eq k j then a ∷ gone k l else gone k l

abbrev pub drop : ℕ → Entries → Entries
drop zero l = l
drop (suc n) [] = []
drop (suc n) (x ∷ l) = drop n l

count-append : (b : ℕ) (xs ys : List ℕ) → count b (xs ++ ys) ≡ count b xs + count b ys
count-append b [] ys = omega arith
count-append b (x ∷ xs) ys = omega (arith, count-append b xs ys)

pub count-erase :
    (b : ℕ) (k : Text) (l : Entries)
    → count b (addresses (erase k l)) + count b (gone k l) ≡ count b (addresses l)
count-erase b k [] = refl
count-erase b k ((j, a) ∷ l) = elim (Bool-cases (list_eq k j)) [
  | inl hit ↦ rw hit (omega (arith, count-erase b k l))
  | inr miss ↦ rw miss (omega (arith, count-erase b k l))
]

count-take-drop :
    (b n : ℕ) (l : Entries)
    → count b (addresses (take n l)) + count b (addresses (drop n l)) ≡ count b (addresses l)
count-take-drop b zero l = omega arith
count-take-drop b (suc n) [] = refl
count-take-drop b (suc n) ((j, a) ∷ l) = omega (arith, count-take-drop b n l)

find-take :
    (n : ℕ) (k : Text) (l : Entries) → (find k (take n l) ≡ find k l) ⊎ (find k (take n l) ≡ none)
find-take zero k l = inr refl
find-take (suc n) k [] = inr refl
find-take (suc n) k ((j, a) ∷ l) = elim (Bool-cases (list_eq k j)) [
  | inl hit ↦ inl (rw hit)
  | inr miss ↦ rw miss (find-take n k l)
]

pub find-erase_self : (k : Text) (l : Entries) → find k (erase k l) ≡ none
find-erase_self k [] = refl
find-erase_self k ((j, a) ∷ l) = elim (Bool-cases (list_eq k j)) [
  | inl hit ↦ rw hit (find-erase_self k l)
  | inr miss ↦ rw (miss, miss) (find-erase_self k l)
]

find-erase_ne : (k j : Text) (l : Entries) → j ≢ k → find j (erase k l) ≡ find j l
find-erase_ne k j [] n = refl
find-erase_ne k j ((i, a) ∷ l) n = elim (Bool-cases (list_eq k i)) [
  | inl hit ↦
      let other : list_eq j i ≡ false = ground (arith, list_eq_sound k i hit, list_eq_sound j i) in
      rw (hit, other) (find-erase_ne k j l n)
  | inr miss ↦ rw miss (ground (arith, find-erase_ne k j l n))
]

pub find-count : (k : Text) (a : ℕ) (l : Entries) → find k l ≡ some a → 0 < count a (addresses l)
find-count k a [] e = cc
find-count k a ((j, b) ∷ l) e = ground (arith, find-count k a l)

abbrev pub insert_entry : Store → Text → ℕ → Store × List ℕ
insert_entry s k a =
    let all = (k, a) ∷ erase k s.entries in
    (
      record s { entries = take s.capacity all },
      addresses (drop s.capacity all) ++ gone k s.entries,
    )

abbrev pub millis_1000_years : ℕ
millis_1000_years = 31536000000000

pub insert_self :
    (s : Store) (k : Text) (a : ℕ)
    → (find k (insert_entry s k a).0.entries ≡ some a)
      ⊎ (find k (insert_entry s k a).0.entries ≡ none)
insert_self s k a = subst' (find-take s.capacity k ((k, a) ∷ erase k s.entries))
  where
    subst' :
        (find k (take s.capacity ((k, a) ∷ erase k s.entries))
            ≡ find k ((k, a) ∷ erase k s.entries))
          ⊎ (find k (take s.capacity ((k, a) ∷ erase k s.entries)) ≡ none)
        → (find k (insert_entry s k a).0.entries ≡ some a)
          ⊎ (find k (insert_entry s k a).0.entries ≡ none)
    subst' (inl e) = inl (rw e (rw (list_eq_refl k)))
    subst' (inr e) = inr e

pub insert_ne :
    (s : Store) (k j : Text) (a : ℕ)
    → j ≢ k
    → (find j (insert_entry s k a).0.entries ≡ find j s.entries)
      ⊎ (find j (insert_entry s k a).0.entries ≡ none)
insert_ne s k j a n = other (find-take s.capacity j ((k, a) ∷ erase k s.entries))
  where
    miss : list_eq j k ≡ false
    miss = ground (arith, list_eq_sound j k)

    other :
        (find j (take s.capacity ((k, a) ∷ erase k s.entries))
            ≡ find j ((k, a) ∷ erase k s.entries))
          ⊎ (find j (take s.capacity ((k, a) ∷ erase k s.entries)) ≡ none)
        → (find j (insert_entry s k a).0.entries ≡ find j s.entries)
          ⊎ (find j (insert_entry s k a).0.entries ≡ none)
    other (inl e) = inl (rw e (rw miss (find-erase_ne k j s.entries n)))
    other (inr e) = inr e

pub invalidate_other :
    (k j : Text) (l : Entries) → (find j (erase k l) ≡ find j l) ⊎ (find j (erase k l) ≡ none)
invalidate_other k j l = elim (Bool-cases (list_eq j k)) [
  | inl same ↦ inr (rw (list_eq_sound j k same) (find-erase_self k l))
  | inr miss ↦ inl (find-erase_ne k j l (λ e. other (rw (← e) at miss)))
]
  where
    other : list_eq j j ≡ false → ⊥
    other e = ground (arith, list_eq_refl j)

abbrev pub build_store : ℕ → ℕ → Option Store
build_store n t =
    if leb t millis_1000_years then some (record { capacity = n; entries = [] }) else none

pub build_empty : (n t : ℕ) (s : Store) → build_store n t ≡ some s → s.entries ≡ []
build_empty n t s e = ground arith

pub refs_insert :
    (s : Store) (k : Text) (a b : ℕ)
    → count b (addresses (insert_entry s k a).0.entries) + count b (insert_entry s k a).1
      ≡ count b (addresses s.entries) + count b (a ∷ [])
refs_insert s k a b = omega (
  arith,
  count-append b (addresses (drop s.capacity ((k, a) ∷ erase k s.entries))) (gone k s.entries),
  count-take-drop b s.capacity ((k, a) ∷ erase k s.entries),
  count-erase b k s.entries,
)

abbrev pub list_cache : Moka
list_cache = record {
  Store = Store;
  build = build_store;
  get = λ s k. find k s.entries;
  insert = insert_entry;
  invalidate = λ s k. (record s { entries = erase k s.entries }, gone k s.entries);
  invalidate_all = λ s. (record s { entries = [] }, addresses s.entries);
  housekeep = λ s. (s, []);
  discard = λ s. addresses s.entries;
  entry_count = λ s. length s.entries;
  refs = λ s b. count b (addresses s.entries);
  get-build = λ n t s k e. ap (find k) (build_empty n t s e);
  get-insert_self = insert_self;
  get-insert_ne = insert_ne;
  get-invalidate_self = λ s k. find-erase_self k s.entries;
  get-invalidate = λ s k j. invalidate_other k j s.entries;
  get-invalidate_all = λ s k. refl;
  get-housekeep = λ s k. inl refl;
  refs-get = λ s k a e. find-count k a s.entries e;
  refs-build = λ n t s b e. ap (λ l. count b (addresses l)) (build_empty n t s e);
  refs-insert = refs_insert;
  refs-invalidate = λ s k b. count-erase b k s.entries;
  refs-invalidate_all = λ s b. omega arith;
  refs-housekeep = λ s b. omega arith;
  refs-discard = λ s b. refl;
}
