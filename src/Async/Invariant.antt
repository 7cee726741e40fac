-- ===== src/Async/Invariant.antt =====
-- The invariant of the asynchronous wrapper: what the objects, boxed clients, tasks, contexts and
-- promises of a state have to do with each other.
use kvstore_ffi.Prelude.{
  ℕ, Bool, true, false, Option, none, some, ◌≡◌, refl, ◌==◌, Bool-cases, inl, inr,
}
use kvstore_ffi.Prelude.Table.{Table, deref, write, alloc, fresh, deref-write, deref-alloc}
use kvstore_ffi.Memory.Counts.{Keeps}
use kvstore_ffi.Platform.{Platform}
use kvstore_ffi.Ffi.State.{Sdk, KvStoreClient}
use kvstore_ffi.Binding.State.{ValueRef}
use kvstore_ffi.Binding.Ownership.{AppInv}
use kvstore_ffi.Async.{
  Shared, pending, value, GetContext, SetContext, Job, asks_get, answered_get, asks_set,
  answered_set, Task, AsyncApp,
}
use kvstore_ffi.Async.Ledger.{put, Ledger}

-- The context of a task of one kind.
abbrev pub get_pointer_of : Job → ℕ → Option ℕ
get_pointer_of (asks_get key) p = some p
get_pointer_of (answered_get key r) p = some p
get_pointer_of (asks_set key text) p = none
get_pointer_of (answered_set key text r) p = none

abbrev pub set_pointer_of : Job → ℕ → Option ℕ
set_pointer_of (asks_get key) p = none
set_pointer_of (answered_get key r) p = none
set_pointer_of (asks_set key text) p = some p
set_pointer_of (answered_set key text r) p = some p

abbrev pub get_pointer : Option Task → Option ℕ
get_pointer none = none
get_pointer (some t) = get_pointer_of t.job t.user_data

abbrev pub set_pointer : Option Task → Option ℕ
set_pointer none = none
set_pointer (some t) = set_pointer_of t.job t.user_data

abbrev pub get_promise : Option GetContext → Option ℕ
get_promise none = none
get_promise (some ctx) = some ctx.promise

abbrev pub set_promise : Option SetContext → Option ℕ
set_promise none = none
set_promise (some ctx) = some ctx.promise

abbrev pub waits : {A : Type 0} → Option (Shared A) → Bool
waits (some pending) = true
waits _ = false

abbrev pub GetLedger : Table Task → Table GetContext → Table (Shared ℕ) → Type 0
GetLedger tasks contexts cells =
    Ledger (λ i. get_pointer (deref tasks i)) (λ p. get_promise (deref contexts p))
      (λ a. waits (deref cells a))

abbrev pub SetLedger : Table Task → Table SetContext → Table (Shared (Unit {0})) → Type 0
SetLedger tasks contexts cells =
    Ledger (λ i. set_pointer (deref tasks i)) (λ p. set_promise (deref contexts p))
      (λ a. waits (deref cells a))

-- A view of a table after a write and after an allocation.
pub put-write :
    {A B : Type 0} (f : Option A → B) (t : Table A) (p : ℕ) (a : A) (v : Option A)
    → deref t p ≡ some a
    → (q : ℕ) → f (deref (write t p v) q) ≡ put (λ x. f (deref t x)) p (f v) q
put-write f t p a v e q = elim (Bool-cases (p == q)) [
  | inl here ↦ rw (deref-write t p q a v e, here) refl
  | inr other ↦ rw (deref-write t p q a v e, other) refl
]

pub put-alloc :
    {A B : Type 0} (f : Option A → B) (t : Table A) (a : A) (q : ℕ)
    → f (deref (alloc t a) q) ≡ put (λ x. f (deref t x)) (fresh t) (f (some a)) q
put-alloc f t a q = elim (Bool-cases (fresh t == q)) [
  | inl here ↦ rw (deref-alloc t q a, here) refl
  | inr other ↦ rw (deref-alloc t q a, other) refl
]

module _ ⦃P : Platform⦄ where
  abbrev pub IsCore : Sdk → ℕ → Type 0
  IsCore s c = (k : KvStoreClient) × (deref s.clients c ≡ some k)

  pub record AsyncInv (s : AsyncApp) : Type 0 where
    pub inv : AppInv s.app
    pub alone : (a : ℕ) → deref s.app.clients a ≡ none
    pub boxed : (b c : ℕ) → deref s.boxes b ≡ some c → IsCore s.app.sdk c
    pub working : (i : ℕ) (t : Task) → deref s.tasks i ≡ some t → IsCore s.app.sdk t.core
    pub get_ledger : GetLedger s.tasks s.get_contexts s.gets
    pub set_ledger : SetLedger s.tasks s.set_contexts s.sets
    pub named :
        (p : ℕ) (ctx : GetContext) → deref s.get_contexts p ≡ some ctx → (ctx.client == 0) ≡ false
    pub owning :
        (a p : ℕ)
        → deref s.objects a ≡ some p
        → (p == 0) ≡ false
        → (c : ℕ) × (deref s.boxes p ≡ some c)
    pub single :
        (a b p : ℕ)
        → deref s.objects a ≡ some p
        → deref s.objects b ≡ some p
        → (p == 0) ≡ false
        → a ≡ b
    pub ready :
        (a v : ℕ) → deref s.gets a ≡ some (value v) → (o : ValueRef) × (deref s.app.refs v ≡ some o)
    pub kept :
        (a b v : ℕ) → deref s.gets a ≡ some (value v) → deref s.gets b ≡ some (value v) → a ≡ b

  -- What every step leaves: the invariant, and every text kept or freed.
  abbrev pub Went : AsyncApp → AsyncApp → Type 0
  Went s t = AsyncInv t × Keeps s.app.sdk.arcs t.app.sdk.arcs
