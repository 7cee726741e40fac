-- ===== src/Async/Owners.antt =====
-- Which object of `KvStoreAsyncClient` owns which boxed client.
use kvstore_ffi.Prelude.{
  ℕ, Option, none, some, ◌≡◌, ◌≢◌, ◌⊎◌, inl, inr, false, sym, ap, subst, ◌∙◌, arith, ◌==◌,
  Bool-cases,
}
use kvstore_ffi.Prelude.Table.{Table, deref, write, alloc, fresh, deref-write, deref-alloc}

-- The objects that were not moved from own boxed clients, no two the same.
pub record Owners (objects boxes : Table ℕ) : Type 0 where
  pub owning :
      (a p : ℕ) → deref objects a ≡ some p → (p == 0) ≡ false → (c : ℕ) × (deref boxes p ≡ some c)
  pub single :
      (a b p : ℕ) → deref objects a ≡ some p → deref objects b ≡ some p → (p == 0) ≡ false → a ≡ b

-- What a table holds after a write.
after_write :
    {A : Type 0} (t : Table A) (a b : ℕ) (x y : A) (v : Option A)
    → deref t a ≡ some x
    → deref (write t a v) b ≡ some y
    → ((a ≡ b) × (v ≡ some y)) ⊎ ((a ≢ b) × (deref t b ≡ some y))
after_write t a b x y v e q = elim (Bool-cases (a == b)) [
  | inl here ↦ inl (ground arith, ground (arith, deref-write t a b x v e))
  | inr other ↦ inr (ground arith, ground (arith, deref-write t a b x v e))
]

after_alloc :
    {A : Type 0} (t : Table A) (b : ℕ) (x y : A)
    → deref (alloc t x) b ≡ some y
    → ((fresh t ≡ b) × (x ≡ y)) ⊎ (deref t b ≡ some y)
after_alloc t b x y q = elim (Bool-cases (fresh t == b)) [
  | inl here ↦ inl (ground arith, ground (arith, deref-alloc t b x))
  | inr other ↦ inr (ground (arith, deref-alloc t b x))
]

module _ {objects boxes : Table ℕ} (o : Owners objects boxes) where
  -- An object ends or becomes null.
  pub Owners-less :
      (a p : ℕ) (v : Option ℕ)
      → deref objects a ≡ some p
      → ((q : ℕ) → v ≡ some q → q ≡ 0)
      → Owners (write objects a v) boxes
  Owners-less a p v e null =
      let old : (b q : ℕ)
          → deref (write objects a v) b ≡ some q
          → (q == 0) ≡ false
          → deref objects b ≡ some q =
        λ b q f own. elim (after_write objects a b p q v e f) [
          | inl (here, new) ↦ absurd (ground (arith, null q new))
          | inr (other, before) ↦ before
        ] in
      record {
        owning = λ b q f own. o.owning b q (old b q f own) own;
        single = λ b b' q f f' own. o.single b b' q (old b q f own) (old b' q f' own) own;
      }

  -- A boxed client ends with the object that owned it.
  pub Owners-without :
      (a p c : ℕ) (v : Option ℕ)
      → deref objects a ≡ some p
      → (p == 0) ≡ false
      → deref boxes p ≡ some c
      → ((q : ℕ) → v ≡ some q → q ≡ 0)
      → Owners (write objects a v) (write boxes p none)
  Owners-without a p c v e own there null =
      let less = Owners-less a p v e null in
      record {
        owning = λ b q f nonnull.
            let (d, before) = less.owning b q f nonnull in
            elim (after_write objects a b p q v e f) [
              | inl (here, new) ↦ absurd (ground (arith, null q new))
              | inr (other, old) ↦
                  let differ : p ≢ q =
                    λ same. other (o.single a b p e (old ∙ ap some (sym same)) own) in
                  (d, ground (arith, deref-write boxes p q c none there))
            ];
        single = less.single;
      }

  -- A new object for a boxed client that no object owns.
  pub Owners-more :
      (p : ℕ)
      → ((p == 0) ≡ false → (c : ℕ) × (deref boxes p ≡ some c))
      → ((b : ℕ) → (p == 0) ≡ false → deref objects b ≢ some p)
      → Owners (alloc objects p) boxes
  Owners-more p there unowned = record {
    owning = λ b q f own. elim (after_alloc objects b p q f) [
      | inl (here, same) ↦
          subst (λ x. (c : ℕ) × (deref boxes x ≡ some c)) same
            (there (subst (λ x. (x == 0) ≡ false) (sym same) own))
      | inr old ↦ o.owning b q old own
    ];
    single = λ b b' q f f' own. elim (after_alloc objects b p q f) [
      | inl (here, same) ↦ elim (after_alloc objects b' p q f') [
        | inl (here', same') ↦ sym here ∙ here'
        | inr old ↦
            absurd
              (unowned b' (subst (λ x. (x == 0) ≡ false) (sym same) own) (old ∙ ap some (sym same)))
      ]
      | inr old ↦ elim (after_alloc objects b' p q f') [
        | inl (here', same') ↦
            absurd (
              unowned b (subst (λ x. (x == 0) ≡ false) (sym same') own) (old ∙ ap some (sym same')))
        | inr old' ↦ o.single b b' q old old' own
      ]
    ];
  }

  -- A null object takes over a boxed client that no object owns.
  pub Owners-set :
      (a p : ℕ)
      → deref objects a ≡ some 0
      → ((p == 0) ≡ false → (c : ℕ) × (deref boxes p ≡ some c))
      → ((b : ℕ) → (p == 0) ≡ false → deref objects b ≢ some p)
      → Owners (write objects a (some p)) boxes
  Owners-set a p e there unowned =
      let mine : (b q : ℕ)
          → (q == 0) ≡ false
          → deref (write objects a (some p)) b ≡ some q
          → ((a ≡ b) × (p ≡ q)) ⊎ ((p ≢ q) × (deref objects b ≡ some q)) =
        λ b q own f. elim (after_write objects a b 0 q (some p) e f) [
          | inl (here, same) ↦ inl (here, ground (arith, same))
          | inr (other, old) ↦ inr (
            λ same.
                unowned b (subst (λ x. (x == 0) ≡ false) (sym same) own) (old ∙ ap some (sym same)),
            old,
          )
        ] in
      record {
        owning = λ b q f own. elim (mine b q own f) [
          | inl (here, same) ↦
              subst (λ x. (c : ℕ) × (deref boxes x ≡ some c)) same
                (there (subst (λ x. (x == 0) ≡ false) (sym same) own))
          | inr (n, old) ↦ o.owning b q old own
        ];
        single = λ b b' q f f' own. elim (mine b q own f) [
          | inl (here, same) ↦ elim (mine b' q own f') [
            | inl (here', same') ↦ sym here ∙ here'
            | inr (n, old) ↦ absurd (n same)
          ]
          | inr (n, old) ↦ elim (mine b' q own f') [
            | inl (here', same') ↦ absurd (n same')
            | inr (n', old') ↦ o.single b b' q old old' own
          ]
        ];
      }
