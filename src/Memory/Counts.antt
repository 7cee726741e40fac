-- ===== src/Memory/Counts.antt =====
-- The strong counts under each operation on `Arc`, and what stays of the other cells.
use kvstore_ffi.Prelude.{
  ℕ, suc, ◌+◌, ◌≤◌, ◌<◌, ◌≡◌, refl, ◌⊎◌, ◌≢◌, inl, inr, Option, none, some, List, [], ◌∷◌, arith,
  ◌==◌, if◌then◌else◌, count, Option-cases, ◌∙◌,
}
use kvstore_ffi.Prelude.Table.{
  deref, write, fresh, deref-write, deref-alloc, deref-fresh, lt_fresh, fresh-write, fresh-alloc,
}
use kvstore_ffi.Prelude.State.{Returns, returns, bind, mono}
use kvstore_ffi.Text.{Text}
use kvstore_ffi.Memory.{
  Cell, Arcs, strong_at, text_at, arc_new, arc_clone, dec_strong, arc_drop, arc_drop_all,
}

-- 1 at the address `a`, 0 elsewhere.
abbrev pub one : ℕ → ℕ → ℕ
one a b = if a == b then 1 else 0

-- No live cell has count 0.
abbrev pub IsCounted : Arcs → Type 0
IsCounted h = (a : ℕ) (c : Cell) → deref h a ≡ some c → 0 < c.strong

-- Each cell of `h` still has its text in `g`, or is gone; addresses are only added.
pub record Keeps (h g : Arcs) : Type 0 where
  pub grows : fresh h ≤ fresh g
  pub old : (a : ℕ) → a < fresh h → (text_at g a ≡ text_at h a) ⊎ (text_at g a ≡ none)

pub Keeps-refl : (h : Arcs) → Keeps h h
Keeps-refl h = record { grows = omega arith; old = λ a l. inl refl }

pub Keeps-trans : {h g k : Arcs} → Keeps h g → Keeps g k → Keeps h k
Keeps-trans {h} {g} {k} p q = record {
  grows = omega (arith, p.grows, q.grows);
  old = λ a l. both a (p.old a l) (q.old a (omega (arith, p.grows)));
}
  where
    both :
        (a : ℕ)
        → (text_at g a ≡ text_at h a) ⊎ (text_at g a ≡ none)
        → (text_at k a ≡ text_at g a) ⊎ (text_at k a ≡ none)
        → (text_at k a ≡ text_at h a) ⊎ (text_at k a ≡ none)
    both a (inl e) (inl d) = inl (d ∙ e)
    both a (inr e) (inl d) = inr (d ∙ e)
    both a x (inr d) = inr d

pub text_at_lt : (h : Arcs) (a : ℕ) (t : Text) → text_at h a ≡ some t → a < fresh h
unfolding text_at
text_at_lt h a t e = elim (Option-cases (deref h a)) [
  | inl n ↦ ground arith
  | inr (c, q) ↦ lt_fresh h a c q
]

-- In a counted heap a text is there exactly where the count is positive.
pub text_at_of_pos : (h : Arcs) (a : ℕ) → 0 < strong_at h a → text_at h a ≢ none
unfolding text_at strong_at
text_at_of_pos h a l = ground arith

-- A text survives in every later heap in which its address is still counted.
pub Keeps-text :
    {h g : Arcs}
    → Keeps h g
    → (a : ℕ) (t : Text) → text_at h a ≡ some t
    → 0 < strong_at g a
    → text_at g a ≡ some t
Keeps-text {h} {g} k a t e l = elim (k.old a (text_at_lt h a t e)) [
  | inl same ↦ same ∙ e
  | inr gone ↦ absurd (text_at_of_pos g a l gone)
]

-- What an operation on one cell does: the counts, the other texts.
pub record Counts (h g : Arcs) (up down : ℕ → ℕ) : Type 0 where
  pub keeps : Keeps h g
  pub counted : IsCounted g
  pub counts : (b : ℕ) → strong_at g b + down b ≡ strong_at h b + up b

abbrev pub nothing : ℕ → ℕ
nothing b = 0

Keeps-write :
    (h : Arcs) (a : ℕ) (c : Cell) (v : Option Cell)
    → deref h a ≡ some c
    → ((d : Cell) → v ≡ some d → d.text ≡ c.text)
    → Keeps h (write h a v)
unfolding text_at
Keeps-write h a c none e same = record {
  grows = omega (arith, fresh-write h a none);
  old = λ b l. ground (arith, deref-write h a b c none e);
}
Keeps-write h a c (some d) e same = record {
  grows = omega (arith, fresh-write h a (some d));
  old = λ b l. ground (arith, deref-write h a b c (some d) e, same d);
}

-- `Arc::new` gives a new address with count 1.
pub arc_new_lem :
    (t : Text) (h : Arcs)
    → IsCounted h
    → Returns
        (λ a g.
          Counts h g (one a) nothing × (text_at g a ≡ some t) × (a ≡ fresh h) × (strong_at h a ≡ 0))
        (arc_new t h)
unfolding arc_new text_at strong_at
arc_new_lem t h ok = returns (
  record {
    keeps = record {
      grows = omega (arith, fresh-alloc h (record { text = t; strong = 1 }));
      old = λ b l. ground (arith, deref-alloc h b (record { text = t; strong = 1 }));
    };
    counted = λ b d q. ground (arith, deref-alloc h b (record { text = t; strong = 1 }), ok b d);
    counts = λ b. ground (arith, deref-alloc h b (record { text = t; strong = 1 }), deref-fresh h);
  },
  ground (arith, deref-alloc h (fresh h) (record { text = t; strong = 1 })),
  refl,
  ground (arith, deref-fresh h),
)

-- `clone` adds one reference to a live cell.
pub arc_clone_lem :
    (a : ℕ) (h : Arcs)
    → IsCounted h
    → 0 < strong_at h a
    → Returns (λ _ g. Counts h g (one a) nothing) (arc_clone a h)
unfolding arc_clone strong_at
arc_clone_lem a h ok l = elim (Option-cases (deref h a)) [
  | inl n ↦ absurd (ground arith)
  | inr (c, e) ↦
      let d : Cell = record c { strong = suc c.strong } in
      rw (e, arc_clone)
        (returns (record {
          keeps = Keeps-write h a c (some d) e (λ x q. ground arith);
          counted = λ b x q. ground (arith, deref-write h a b c (some d) e, ok b x);
          counts = λ b. ground (arith, deref-write h a b c (some d) e);
        }))
]

-- A drop takes one reference from a live cell, and frees it if that was the last.
pub arc_drop_lem :
    (a : ℕ) (h : Arcs)
    → IsCounted h
    → 0 < strong_at h a
    → Returns (λ _ g. Counts h g nothing (one a)) (arc_drop a h)
unfolding arc_drop strong_at
arc_drop_lem a h ok l = elim (Option-cases (deref h a)) [
  | inl n ↦ absurd (ground arith)
  | inr (c, e) ↦
      rw (e, arc_drop)
        (returns (record {
          keeps = Keeps-write h a c (dec_strong c) e (λ x q. ground arith);
          counted = λ b x q. ground (arith, deref-write h a b c (dec_strong c) e, ok b x, ok a c);
          counts = λ b. ground (arith, deref-write h a b c (dec_strong c) e, ok a c);
        }))
]

pub Counts-trans :
    {h g k : Arcs} {u v x y : ℕ → ℕ}
    → Counts h g u v
    → Counts g k x y
    → Counts h k (λ b. u b + x b) (λ b. v b + y b)
Counts-trans p q = record {
  keeps = Keeps-trans p.keeps q.keeps;
  counted = q.counted;
  counts = λ b. omega (arith, p.counts b, q.counts b);
}

-- Dropping a list of references, of which each cell has enough.
pub arc_drop_all_lem :
    (l : List ℕ) (h : Arcs)
    → IsCounted h
    → ((b : ℕ) → count b l ≤ strong_at h b)
    → Returns (λ _ g. Counts h g nothing (λ b. count b l)) (arc_drop_all l h)
unfolding arc_drop_all
arc_drop_all_lem [] h ok enough =
    returns (record { keeps = Keeps-refl h; counted = ok; counts = λ b. omega arith })
arc_drop_all_lem (a ∷ l) h ok enough =
    bind (arc_drop_lem a h ok (ground (arith, enough a))) λ _ g first.
      mono (arc_drop_all_lem l g first.counted (λ b. omega (arith, enough b, first.counts b)))
        λ _ k rest. Counts-trans first rest

pub strong_text : (h : Arcs) (a : ℕ) → 0 < strong_at h a → (t : Text) × (text_at h a ≡ some t)
unfolding text_at strong_at
strong_text h a l = elim (Option-cases (deref h a)) [
  | inl n ↦ absurd (ground arith)
  | inr (c, e) ↦ (c.text, ground arith)
]
