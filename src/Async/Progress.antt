-- ===== src/Async/Progress.antt =====
-- What a step of a task of core-sdk/src/ffi_async.rs does to the promises.
use kvstore_ffi.Prelude.{
  ℕ, Option, none, some, ◌≡◌, refl, inl, inr, false, sym, ap, subst, ◌∙◌, arith, ◌==◌, Bool-cases,
}
use kvstore_ffi.Prelude.Table.{Table, deref, write, deref-write}
use kvstore_ffi.Prelude.State.{Returns, mono}
use kvstore_ffi.Platform.{Platform}
use kvstore_ffi.Ffi.Set.{set_result}
use kvstore_ffi.Async.{
  Shared, pending, value, GetContext, SetContext, Job, asks_get, answered_get, asks_set,
  answered_set, Task, Post, AsyncApp,
}
use kvstore_ffi.Async.Callbacks.{set_settled}
use kvstore_ffi.Async.Runtime.{task_finishes}
use kvstore_ffi.Async.Invariant.{
  get_pointer_of, set_pointer_of, get_pointer, set_pointer, get_promise, set_promise, waits,
  AsyncInv, Went,
}
use kvstore_ffi.Async.Entries.{waiting}
use kvstore_ffi.Async.Finish.{task_finishes_get_lem, task_finishes_set_lem}

-- The promises of one kind: none is lost, and one that has its result keeps it.
abbrev pub Progress : {A : Type 0} → Table (Shared A) → Table (Shared A) → Type 0
Progress {A} before after =
    (f : ℕ) (c : Shared A)
    → deref before f ≡ some c
    → (d : Shared A) × (deref after f ≡ some d) × (waits (some c) ≡ false → d ≡ c)

pub Progress-refl : {A : Type 0} (cells : Table (Shared A)) → Progress cells cells
Progress-refl cells f c e = (c, e, λ w. refl)

pub Progress-trans :
    {A : Type 0} (x y z : Table (Shared A)) → Progress x y → Progress y z → Progress x z
Progress-trans {A} x y z p q f c e =
    let (d, ed, same) = p f c e in
    let (g, eg, same') = q f d ed in
    (g, eg, λ w. same' (ap (λ (v : Shared A). waits (some v)) (same w) ∙ w) ∙ same w)

Progress-write :
    {A : Type 0} (cells : Table (Shared A)) (a : ℕ) (v : Shared A)
    → deref cells a ≡ some pending
    → Progress cells (write cells a (some v))
Progress-write cells a v e f c q = elim (Bool-cases (a == f)) [
  | inl here ↦
      let same : c ≡ pending = ground (arith, e, q) in
      (v, ground (arith, deref-write cells a f pending (some v) e), λ w. absurd (contra c same w))
  | inr other ↦ (c, ground (arith, deref-write cells a f pending (some v) e, q), λ w. refl)
]
  where
    contra : {A : Type 0} (c : Shared A) → c ≡ pending → waits (some c) ≡ false → ⊥
    contra c same w = cc

-- The context that a pointer to one names.
get_context_of :
    (o : Option GetContext) (a : ℕ) → get_promise o ≡ some a → (ctx : GetContext) × (o ≡ some ctx)
get_context_of none a e = absurd (ground arith)
get_context_of (some ctx) a e = (ctx, refl)

set_context_of :
    (o : Option SetContext) (a : ℕ) → set_promise o ≡ some a → (ctx : SetContext) × (o ≡ some ctx)
set_context_of none a e = absurd (ground arith)
set_context_of (some ctx) a e = (ctx, refl)

-- A job whose request was answered.
abbrev pub IsAnswered : Job → Type 0
IsAnswered (asks_get key) = ⊥
IsAnswered (asks_set key text) = ⊥
IsAnswered (answered_get key r) = Unit {0}
IsAnswered (answered_set key text r) = Unit {0}

module _ ⦃P : Platform⦄ where
  -- A task has ended, and nothing of the other tasks or of settled promises changed.
  pub record Ended (i : ℕ) (s u : AsyncApp) : Type 0 where
    pub went : Went s u
    pub tasks : u.tasks ≡ write s.tasks i none
    pub gets : Progress s.gets u.gets
    pub sets : Progress s.sets u.sets

  pub task_finishes_lem :
      (i : ℕ) (t : Task) (s : AsyncApp)
      → AsyncInv s
      → deref s.tasks i ≡ some t
      → IsAnswered t.job
      → Returns (λ _ u. Ended i s u) (task_finishes i s)
  task_finishes_lem i t s inv e answered = go t.job refl answered
    where
      go :
          (job : Job)
          → t.job ≡ job
          → IsAnswered job
          → Returns (λ _ u. Ended i s u) (task_finishes i s)
      go (answered_get key r) same _ =
          let (a, promised) =
            inv.get_ledger.pays i t.user_data
              (ap get_pointer e ∙ ap (λ j. get_pointer_of j t.user_data) same) in
          let (ctx, ec) = get_context_of (deref s.get_contexts t.user_data) a promised in
          let cell =
            waiting (deref s.gets ctx.promise)
              (inv.get_ledger.unsettled t.user_data ctx.promise (ap get_promise ec)) in
          mono (task_finishes_get_lem i t ctx key r s inv e same ec) λ _ u d. record {
            went = d.went;
            tasks = ap (λ (x : Post). x.tasks) d.post;
            gets =
                subst (λ (x : Post). Progress s.gets x.gets) (sym d.post)
                  (Progress-write s.gets ctx.promise (value d.place) cell);
            sets = subst (λ (x : Post). Progress s.sets x.sets) (sym d.post) (Progress-refl s.sets);
          }
      go (answered_set key text r) same _ =
          let (a, promised) =
            inv.set_ledger.pays i t.user_data
              (ap set_pointer e ∙ ap (λ j. set_pointer_of j t.user_data) same) in
          let (ctx, ec) = set_context_of (deref s.set_contexts t.user_data) a promised in
          let cell =
            waiting (deref s.sets ctx.promise)
              (inv.set_ledger.unsettled t.user_data ctx.promise (ap set_promise ec)) in
          mono (task_finishes_set_lem i t ctx key text r s inv e same ec) λ _ u d. record {
            went = d.went;
            tasks = ap (λ (x : Post). x.tasks) d.post;
            gets = subst (λ (x : Post). Progress s.gets x.gets) (sym d.post) (Progress-refl s.gets);
            sets =
                subst (λ (x : Post). Progress s.sets x.sets) (sym d.post)
                  (Progress-write s.sets ctx.promise (set_settled (set_result r).error_code) cell);
          }
      go (asks_get key) same never = absurd never
      go (asks_set key text) same never = absurd never
