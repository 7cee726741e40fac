-- ===== src/Async/Drain.antt =====
-- What becomes of the promises when the runtime runs its tasks to their ends, in any order.
use kvstore_ffi.Prelude.{
  ℕ, List, [], ◌∷◌, none, some, ◌≡◌, ◌≢◌, refl, ◌⊎◌, inl, inr, false, sym, ap, subst, ◌∙◌, arith,
  Bool-cases, Option-cases,
}
use kvstore_ffi.Prelude.Table.{Table, deref, deref-write, deref-write_self}
use kvstore_ffi.Prelude.State.{Run, Returns, returns, bind, mono, pure, ◌>>◌}
use kvstore_ffi.Memory.Counts.{Keeps-refl, Keeps-trans}
use kvstore_ffi.Platform.{Platform}
use kvstore_ffi.Ffi.State.{KvStoreClient as BoxedClient}
use kvstore_ffi.Async.{
  Shared, Job, asks_get, answered_get, asks_set, answered_set, Task, Post, AsyncApp,
}
use kvstore_ffi.Async.Runtime.{task_asks, task_finishes}
use kvstore_ffi.Async.Invariant.{get_pointer, set_pointer, waits, AsyncInv, Went}
use kvstore_ffi.Async.Tasks.{IsAsking, answer, task_asks_lem}
use kvstore_ffi.Async.Progress.{
  Progress, Progress-refl, Progress-trans, IsAnswered, Ended, task_finishes_lem,
}

-- The number is in the list.
abbrev pub IsAmong : ℕ → List ℕ → Type 0
IsAmong i [] = ⊥
IsAmong i (j ∷ js) = (i ≡ j) ⊎ IsAmong i js

module _ ⦃P : Platform⦄ where
  -- A task is run to its end, from where it stands.
  unfoldable pub complete_job : ℕ → Job → Run AsyncApp (Unit {0})
  complete_job i (asks_get key) = do task_asks i; task_finishes i
  complete_job i (asks_set key text) = do task_asks i; task_finishes i
  complete_job i (answered_get key r) = task_finishes i
  complete_job i (answered_set key text r) = task_finishes i

  unfoldable pub complete : ℕ → Run AsyncApp (Unit {0})
  unfolding complete_job
  complete i s = elim (deref s.tasks i) [ none ↦ pure tt s | some t ↦ complete_job i t.job s ]

  -- The tasks at the addresses of a list are run to their ends, one after the other.
  unfoldable pub drain : List ℕ → Run AsyncApp (Unit {0})
  drain [] = pure tt
  drain (i ∷ is) = do complete i; drain is

  record Completed (i : ℕ) (s u : AsyncApp) : Type 0 where
    went : Went s u
    gone : deref u.tasks i ≡ none
    others : (j : ℕ) → i ≢ j → deref u.tasks j ≡ deref s.tasks j
    gets : Progress s.gets u.gets
    sets : Progress s.sets u.sets

  Completed-of_Ended :
      (i : ℕ) (t : Task) (s u : AsyncApp) → deref s.tasks i ≡ some t → Ended i s u → Completed i s u
  Completed-of_Ended i t s u e d = record {
    went = d.went;
    gone = ap (λ x. deref x i) d.tasks ∙ deref-write_self s.tasks i t none e;
    others = λ j n. ground (arith, ap (λ x. deref x j) d.tasks, deref-write s.tasks i j t none e);
    gets = d.gets;
    sets = d.sets;
  }

  answer-IsAnswered :
      (k : BoxedClient) (job : Job) (w : P.World) → IsAsking job → IsAnswered (answer k job w).0
  answer-IsAnswered k (asks_get key) w asking = tt
  answer-IsAnswered k (asks_set key text) w asking = tt
  answer-IsAnswered k (answered_get key r) w asking = tt
  answer-IsAnswered k (answered_set key text r) w asking = tt

  asks_and_finishes :
      (i : ℕ) (t : Task) (s : AsyncApp)
      → AsyncInv s
      → deref s.tasks i ≡ some t
      → IsAsking t.job
      → Returns (λ _ u. Completed i s u) ((task_asks i >> task_finishes i) s)
  asks_and_finishes i t s inv e asking =
      let (k, there) = inv.working i t e in
      let t' : Task = record t { job = (answer k t.job s.app.sdk.world).0 } in
      bind (task_asks_lem i t k s inv e asking there) λ _ u asked.
        let tasks = ap (λ (x : Post). x.tasks) asked.post in
        let e' : deref u.tasks i ≡ some t' =
          ap (λ x. deref x i) tasks ∙ deref-write_self s.tasks i t (some t') e in
        mono
          (task_finishes_lem i t' u asked.went.0 e'
            (answer-IsAnswered k t.job s.app.sdk.world asking))
          λ _ w ended.
            let d = Completed-of_Ended i t' u w e' ended in
            record {
              went = (d.went.0, Keeps-trans asked.went.1 d.went.1);
              gone = d.gone;
              others = λ j n.
                  d.others j n
                  ∙ ap (λ x. deref x j) tasks
                  ∙ ground (arith, deref-write s.tasks i j t (some t') e);
              gets = subst (λ (x : Post). Progress x.gets w.gets) asked.post d.gets;
              sets = subst (λ (x : Post). Progress x.sets w.sets) asked.post d.sets;
            }

  complete_job_lem :
      (i : ℕ) (t : Task) (s : AsyncApp)
      → AsyncInv s
      → deref s.tasks i ≡ some t
      → (job : Job) → t.job ≡ job
      → Returns (λ _ u. Completed i s u) (complete_job i job s)
  unfolding complete_job
  complete_job_lem i t s inv e (asks_get key) same =
      asks_and_finishes i t s inv e (subst IsAsking (sym same) tt)
  complete_job_lem i t s inv e (asks_set key text) same =
      asks_and_finishes i t s inv e (subst IsAsking (sym same) tt)
  complete_job_lem i t s inv e (answered_get key r) same =
      mono (task_finishes_lem i t s inv e (subst IsAnswered (sym same) tt))
        λ _ u d. Completed-of_Ended i t s u e d
  complete_job_lem i t s inv e (answered_set key text r) same =
      mono (task_finishes_lem i t s inv e (subst IsAnswered (sym same) tt))
        λ _ u d. Completed-of_Ended i t s u e d

  complete_lem :
      (i : ℕ) (s : AsyncApp) → AsyncInv s → Returns (λ _ u. Completed i s u) (complete i s)
  unfolding complete
  complete_lem i s inv = elim (Option-cases (deref s.tasks i)) [
    | inl none_there ↦
        rw (complete, none_there)
          (returns (record {
            went = (inv, Keeps-refl s.app.sdk.arcs);
            gone = none_there;
            others = λ j n. refl;
            gets = Progress-refl s.gets;
            sets = Progress-refl s.sets;
          }))
    | inr (t, e) ↦ rw (complete, e) (complete_job_lem i t s inv e t.job refl)
  ]

  -- What running tasks leaves: those of the list are gone, and no other was added.
  record Drained (is : List ℕ) (s u : AsyncApp) : Type 0 where
    went : Went s u
    gone :
        (i : ℕ) (t : Task)
        → deref u.tasks i ≡ some t
        → (deref s.tasks i ≡ some t) × (IsAmong i is → ⊥)
    gets : Progress s.gets u.gets
    sets : Progress s.sets u.sets

  drain-Drained :
      (is : List ℕ) (s : AsyncApp) → AsyncInv s → Returns (λ _ u. Drained is s u) (drain is s)
  unfolding drain
  drain-Drained [] s inv = returns (record {
    went = (inv, Keeps-refl s.app.sdk.arcs);
    gone = λ i t e. (e, λ never. never);
    gets = Progress-refl s.gets;
    sets = Progress-refl s.sets;
  })
  drain-Drained (i ∷ is) s inv = bind (complete_lem i s inv) λ _ t c.
      mono (drain-Drained is t c.went.0) λ _ u d. record {
        went = (d.went.0, Keeps-trans c.went.1 d.went.1);
        gone = λ j x e.
            let (before, absent) = d.gone j x e in
            let differ : i ≢ j = λ same. ground (arith, c.gone, before, same) in
            (
              sym (c.others j differ) ∙ before,
              λ among. elim among [ inl here ↦ differ (sym here) | inr later ↦ absent later ],
            );
        gets = Progress-trans s.gets t.gets u.gets c.gets d.gets;
        sets = Progress-trans s.sets t.sets u.sets c.sets d.sets;
      }

  settled_cell :
      {A : Type 0} (before after : Table (Shared A)) (f : ℕ) (c : Shared A)
      → deref before f ≡ some c
      → Progress before after
      → ((a : ℕ) → waits (deref after a) ≡ false)
      → (d : Shared A) × (deref after f ≡ some d)
        × (waits (some d) ≡ false)
        × (waits (some c) ≡ false → d ≡ c)
  settled_cell before after f c e p idle =
      let (d, there, same) = p f c e in (d, there, ap waits (sym there) ∙ idle f, same)

  -- When the runtime runs its tasks to their ends, in whatever order `is` has them, from a state that
  -- keeps the invariant, the run does not fault and every promise of a get or a set has its result:
  -- none is left pending, and one that had its result keeps it. No task is left.
  pub drain_lem :
      (is : List ℕ) (s : AsyncApp)
      → AsyncInv s
      → ((i : ℕ) (t : Task) → deref s.tasks i ≡ some t → IsAmong i is)
      → Returns
          (λ _ u.
            Went s u
            × ((i : ℕ) → deref u.tasks i ≡ none)
            × ((f : ℕ) (c : Shared ℕ)
                → deref s.gets f ≡ some c
                → (d : Shared ℕ) × (deref u.gets f ≡ some d)
                  × (waits (some d) ≡ false)
                  × (waits (some c) ≡ false → d ≡ c))
            × ((f : ℕ) (c : Shared (Unit {0}))
                → deref s.sets f ≡ some c
                → (d : Shared (Unit {0})) × (deref u.sets f ≡ some d)
                  × (waits (some d) ≡ false)
                  × (waits (some c) ≡ false → d ≡ c)))
          (drain is s)
  drain_lem is s inv all = mono (drain-Drained is s inv) λ _ u d.
      let no_task : (i : ℕ) → deref u.tasks i ≡ none = λ i. elim (Option-cases (deref u.tasks i)) [
        | inl e ↦ e
        | inr (t, e) ↦ let (before, absent) = d.gone i t e in absurd (absent (all i t before))
      ] in
      let idle_gets : (a : ℕ) → waits (deref u.gets a) ≡ false = λ a.
        elim (Bool-cases (waits (deref u.gets a))) [
          | inl w ↦
              let (i, p, e, _) = d.went.0.get_ledger.awaited a w in
              absurd (nobody (ap get_pointer (sym (no_task i)) ∙ e))
          | inr w ↦ w
        ] in
      let idle_sets : (a : ℕ) → waits (deref u.sets a) ≡ false = λ a.
        elim (Bool-cases (waits (deref u.sets a))) [
          | inl w ↦
              let (i, p, e, _) = d.went.0.set_ledger.awaited a w in
              absurd (nobody (ap set_pointer (sym (no_task i)) ∙ e))
          | inr w ↦ w
        ] in
      (
        d.went,
        no_task,
        λ f c e. settled_cell s.gets u.gets f c e d.gets idle_gets,
        λ f c e. settled_cell s.sets u.sets f c e d.sets idle_sets,
      )
    where
      nobody : {p : ℕ} → none ≡ some p → ⊥
      nobody e = cc
