-- ===== src/Async/Entries.antt =====
-- The ledger of one kind of call on the tables of tasks, contexts and promises, and what the changes
-- of the tables do to it.
use kvstore_ffi.Prelude.{
  ℕ, true, false, Option, none, some, ◌≡◌, refl, ◌==◌, ==_iff, Bool-cases, inl, inr, sym, ap, ◌∙◌,
}
use kvstore_ffi.Prelude.Table.{
  Table, deref, write, alloc, fresh, deref-fresh, deref-write, deref-alloc, deref-alloc_self,
}
use kvstore_ffi.Async.{Shared, pending, value, exception, Task}
use kvstore_ffi.Async.Ledger.{put, Ledger, Ledger-same, Ledger-finish, Ledger-start}
use kvstore_ffi.Async.Invariant.{waits, put-write, put-alloc}

pub waiting : {A : Type 0} (c : Option (Shared A)) → waits c ≡ true → c ≡ some pending
waiting none w = cc
waiting (some pending) w = refl
waiting (some (value v)) w = cc
waiting (some (exception e)) w = cc

-- Nothing changes where the old value is put.
put-idle : {A : Type 0} (f : ℕ → A) (i : ℕ) (v : A) → f i ≡ v → (j : ℕ) → put f i v j ≡ f j
put-idle f i v e j = elim (Bool-cases (i == j)) [
  | inl here ↦ rw here (sym e ∙ ap f ((==_iff i j).0 here))
  | inr other ↦ rw other refl
]

-- A slot that was made is written at once.
pub once_more :
    {A B : Type 0} (f : Option A → B) (t : Table A) (a : A) (v : Option A)
    → (q : ℕ)
    → f (deref (write (alloc t a) (fresh t) v) q) ≡ put (λ x. f (deref t x)) (fresh t) (f v) q
once_more f t a v q = elim (Bool-cases (fresh t == q)) [
  | inl here ↦ rw (deref-write (alloc t a) (fresh t) q a v (deref-alloc_self t a), here) refl
  | inr other ↦
      rw (deref-write (alloc t a) (fresh t) q a v (deref-alloc_self t a), deref-alloc t q a, other)
        refl
]

module _ {C A : Type 0} (point : Option Task → Option ℕ) (prom : Option C → Option ℕ) where
  abbrev pub Entries : Table Task → Table C → Table (Shared A) → Type 0
  Entries tasks contexts cells =
      Ledger (λ i. point (deref tasks i)) (λ p. prom (deref contexts p))
        (λ a. waits (deref cells a))

  module _ (tasks : Table Task) (contexts : Table C) (cells : Table (Shared A))
      (l : Entries tasks contexts cells) where
    -- A task settles its promise, frees its context and ends.
    pub Entries-settled :
        (i p a : ℕ) (t : Task) (ctx : C) (v : Shared A)
        → point none ≡ none
        → prom none ≡ none
        → deref tasks i ≡ some t
        → point (some t) ≡ some p
        → deref contexts p ≡ some ctx
        → prom (some ctx) ≡ some a
        → waits (some v) ≡ false
        → Entries (write tasks i none) (write contexts p none) (write cells a (some v))
    Entries-settled i p a t ctx v pn cn et ep ec ea ev =
        let promised : prom (deref contexts p) ≡ some a = ap prom ec ∙ ea in
        let cell = waiting (deref cells a) (l.unsettled p a promised) in
        Ledger-same (Ledger-finish i p a l (ap point et ∙ ep) promised)
          (λ j.
            put-write point tasks i t none et j
            ∙ ap (λ x. put (λ y. point (deref tasks y)) i x j) pn)
          (λ q.
            put-write prom contexts p ctx none ec q
            ∙ ap (λ x. put (λ y. prom (deref contexts y)) p x q) cn)
          (λ b.
            put-write waits cells a pending (some v) cell b
            ∙ ap (λ x. put (λ y. waits (deref cells y)) a x b) ev)

    -- A task changes, or ends, and its context stays what it was.
    pub Entries-idle :
        (i : ℕ) (t : Task) (v : Option Task)
        → deref tasks i ≡ some t
        → point v ≡ point (some t)
        → Entries (write tasks i v) contexts cells
    Entries-idle i t v et e =
        Ledger-same l
          (λ j.
            put-write point tasks i t v et j
            ∙ put-idle (λ y. point (deref tasks y)) i (point v) (ap point et ∙ sym e) j)
          (λ q. refl) (λ b. refl)

    -- A task of the other kind is spawned.
    pub Entries-other :
        (t : Task)
        → point none ≡ none
        → point (some t) ≡ none
        → Entries (alloc tasks t) contexts cells
    Entries-other t pn e =
        Ledger-same l
          (λ j.
            put-alloc point tasks t j
            ∙ put-idle (λ y. point (deref tasks y)) (fresh tasks) (point (some t))
                (ap point (deref-fresh tasks) ∙ pn ∙ sym e) j)
          (λ q. refl) (λ b. refl)

    -- A settled promise is taken.
    pub Entries-taken :
        (a : ℕ) (c : Shared A)
        → deref cells a ≡ some c
        → waits (some c) ≡ false
        → Entries tasks contexts (write cells a none)
    Entries-taken a c e w =
        Ledger-same l (λ j. refl) (λ q. refl)
          (λ b.
            put-write waits cells a c none e b
            ∙ put-idle (λ y. waits (deref cells y)) a false (ap waits e ∙ w) b)

    -- A task is spawned for a new context of a new promise.
    pub Entries-spawned :
        (t : Task) (ctx : C)
        → point none ≡ none
        → prom none ≡ none
        → point (some t) ≡ some (fresh contexts)
        → prom (some ctx) ≡ some (fresh cells)
        → Entries (alloc tasks t) (alloc contexts ctx) (alloc cells pending)
    Entries-spawned t ctx pn cn ep ea =
        Ledger-same
          (Ledger-start (fresh tasks) (fresh contexts) (fresh cells) l
            (ap point (deref-fresh tasks) ∙ pn) (ap prom (deref-fresh contexts) ∙ cn)
            (ap waits (deref-fresh cells)))
          (λ j.
            put-alloc point tasks t j
            ∙ ap (λ x. put (λ y. point (deref tasks y)) (fresh tasks) x j) ep)
          (λ q.
            put-alloc prom contexts ctx q
            ∙ ap (λ x. put (λ y. prom (deref contexts y)) (fresh contexts) x q) ea)
          (λ b. put-alloc waits cells pending b)

    -- A new promise is settled at once, and its context freed.
    pub Entries-immediate :
        (ctx : C) (v : Shared A)
        → prom none ≡ none
        → waits (some v) ≡ false
        → Entries tasks
            (write (alloc contexts ctx) (fresh contexts) none)
            (write (alloc cells pending) (fresh cells) (some v))
    Entries-immediate ctx v cn ev =
        Ledger-same l (λ j. refl)
          (λ q.
            once_more prom contexts ctx none q
            ∙ put-idle (λ y. prom (deref contexts y)) (fresh contexts) (prom none)
                (ap prom (deref-fresh contexts)) q)
          (λ b.
            once_more waits cells pending (some v) b
            ∙ put-idle (λ y. waits (deref cells y)) (fresh cells) (waits (some v))
                (ap waits (deref-fresh cells) ∙ sym ev) b)
