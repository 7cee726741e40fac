-- ===== src/Async/Ledger.antt =====
-- Who settles which promise: each unsettled one has one context, which is the `user_data` of one
-- task. Said of one kind of call, gets or sets, by three functions: the context of the task at an
-- address, the promise of a context, and whether a promise is pending.
use kvstore_ffi.Prelude.{
  ℕ, Bool, true, false, Option, none, some, ◌≡◌, ◌==◌, ==_iff, Bool-cases, inl, inr, refl,
  if◌then◌else◌, arith, ◌∙◌, sym,
}

abbrev pub put : {A : Type 0} → (ℕ → A) → ℕ → A → ℕ → A
put f p v q = if p == q then v else f q

pub record Ledger (payer promise : ℕ → Option ℕ) (waits : ℕ → Bool) : Type 0 where
  pub pays : (i p : ℕ) → payer i ≡ some p → (a : ℕ) × (promise p ≡ some a)
  pub unsettled : (p a : ℕ) → promise p ≡ some a → waits a ≡ true
  pub once : (i j p : ℕ) → payer i ≡ some p → payer j ≡ some p → i ≡ j
  pub apart : (p q a : ℕ) → promise p ≡ some a → promise q ≡ some a → p ≡ q
  pub awaited :
      (a : ℕ) → waits a ≡ true → (i : ℕ) × (p : ℕ) × (payer i ≡ some p) × (promise p ≡ some a)

module _ {payer promise : ℕ → Option ℕ} {waits : ℕ → Bool} where
  -- A task is spawned for a new context of a new promise.
  pub Ledger-start :
      (i p a : ℕ)
      → Ledger payer promise waits
      → payer i ≡ none
      → promise p ≡ none
      → waits a ≡ false
      → Ledger (put payer i (some p)) (put promise p (some a)) (put waits a true)
  Ledger-start i p a l ei ep ea = record {
    pays = λ j q e. elim (Bool-cases (p == q)) [
      | inl here ↦ (a, rw here refl)
      | inr other ↦ let (b, f) = l.pays j q (ground arith) in (b, rw other f)
    ];
    unsettled = λ q b e. elim (Bool-cases (p == q)) [
      | inl here ↦ ground arith
      | inr other ↦ ground (arith, l.unsettled q b (ground arith))
    ];
    once = λ j k q e f. elim (Bool-cases (p == q)) [
      | inl here ↦
          let same : p ≡ q = (==_iff p q).0 here in
          let mine : (x : ℕ) → put payer i (some p) x ≡ some q → i ≡ x = λ x g.
            elim (Bool-cases (i == x)) [
              | inl at ↦ (==_iff i x).0 at
              | inr off ↦ let (b, h) = l.pays x q (ground arith) in ground arith
            ] in
          sym (mine j e) ∙ mine k f
      | inr other ↦ l.once j k q (ground arith) (ground arith)
    ];
    apart = λ q r b e f. elim (Bool-cases (a == b)) [
      | inl here ↦
          let mine : (x : ℕ) → put promise p (some a) x ≡ some b → p ≡ x = λ x g.
            elim (Bool-cases (p == x)) [
              | inl at ↦ (==_iff p x).0 at
              | inr off ↦ let h = l.unsettled x b (ground arith) in ground arith
            ] in
          sym (mine q e) ∙ mine r f
      | inr other ↦ l.apart q r b (ground arith) (ground arith)
    ];
    awaited = λ b w. elim (Bool-cases (a == b)) [
      | inl here ↦ (i, p, ground arith, ground arith)
      | inr other ↦
          let (j, q, e, f) = l.awaited b (ground arith) in (j, q, ground arith, ground arith)
    ];
  }

  -- A task settles its promise and ends.
  pub Ledger-finish :
      (i p a : ℕ)
      → Ledger payer promise waits
      → payer i ≡ some p
      → promise p ≡ some a
      → Ledger (put payer i none) (put promise p none) (put waits a false)
  Ledger-finish i p a l ei ep = record {
    pays = λ j q e.
        let (b, f) = l.pays j q (ground arith) in
        elim (Bool-cases (p == q)) [
          | inl here ↦ absurd (ground (arith, l.once i j q (ground arith) (ground arith)))
          | inr other ↦ (b, rw other f)
        ];
    unsettled = λ q b e.
        let w = l.unsettled q b (ground arith) in
        elim (Bool-cases (a == b)) [
          | inl here ↦ absurd (ground (arith, l.apart p q b (ground arith) (ground arith)))
          | inr other ↦ ground arith
        ];
    once = λ j k q e f. l.once j k q (ground arith) (ground arith);
    apart = λ q r b e f. l.apart q r b (ground arith) (ground arith);
    awaited =
        λ b w. let (j, q, e, f) = l.awaited b (ground arith) in (j, q, ground arith, ground arith);
  }

  -- The same ledger, said of other functions.
  pub Ledger-same :
      {payer' promise' : ℕ → Option ℕ} {waits' : ℕ → Bool}
      → Ledger payer promise waits
      → ((i : ℕ) → payer' i ≡ payer i)
      → ((p : ℕ) → promise' p ≡ promise p)
      → ((a : ℕ) → waits' a ≡ waits a)
      → Ledger payer' promise' waits'
  Ledger-same l same_payer same_promise same_waits = record {
    pays = λ i p e. let (a, f) = l.pays i p (sym (same_payer i) ∙ e) in (a, same_promise p ∙ f);
    unsettled = λ p a e. same_waits a ∙ l.unsettled p a (sym (same_promise p) ∙ e);
    once = λ i j p e f. l.once i j p (sym (same_payer i) ∙ e) (sym (same_payer j) ∙ f);
    apart = λ p q a e f. l.apart p q a (sym (same_promise p) ∙ e) (sym (same_promise q) ∙ f);
    awaited = λ a w.
        let (i, p, e, f) = l.awaited a (sym (same_waits a) ∙ w) in
        (i, p, same_payer i ∙ e, same_promise p ∙ f);
  }
