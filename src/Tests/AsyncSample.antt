-- ===== src/Tests/AsyncSample.antt =====
-- States of the asynchronous wrapper on the sample platform: one client object, and one with a get on
-- its way, and one with an answered get.
use kvstore_ffi.Prelude.{
  ℕ, zero, suc, ◌≡◌, refl, false, Option, none, some, [], ◌∷◌, arith, ap, subst,
}
use kvstore_ffi.Prelude.Table.{deref, slot, total, alloc, fresh}
use kvstore_ffi.ErrorCode.{ErrorCode}
use kvstore_ffi.Ffi.{get_error}
use kvstore_ffi.Text.{Text}
use kvstore_ffi.Http.{Result, err}
use kvstore_ffi.Ffi.State.{KvStoreClient as BoxedClient}
use kvstore_ffi.Ffi.Get.{Answers}
use kvstore_ffi.Ffi.Books.{Inv-congr}
use kvstore_ffi.Binding.State.{ValueRef}
use kvstore_ffi.Binding.Ownership.{AppInv}
use kvstore_ffi.Async.{Shared, pending, value, asks_get, AsyncApp}
use kvstore_ffi.Async.Ledger.{Ledger, Ledger-same}
use kvstore_ffi.Async.Invariant.{
  AsyncInv, waits, get_pointer, set_pointer, get_promise, set_promise,
}
use kvstore_ffi.Async.Cores.{app_inv}
use kvstore_ffi.Async.Gets.{get-AsyncInv}
use kvstore_ffi.Tests.Sample.{sample, text_a, boxed, sdk, sdk-Inv}

abbrev pub idle : AsyncApp
idle = record {
  app = record { sdk = sdk; refs = []; clients = [] };
  post = record {
    get_contexts = [];
    set_contexts = [];
    gets = [];
    sets = [];
    tasks = [];
    boxes = some 1 ∷ [];
    objects = some 1 ∷ [];
  };
}

nil : {A : Type 0} (a : ℕ) → deref {A = A} [] a ≡ none
unfolding deref slot
nil zero = refl
nil (suc i) = refl

nil_view : {A B : Type 0} (f : Option A → B) (a : ℕ) → f (deref [] a) ≡ f none
nil_view f a = ap f (nil a)

nothing_there : {A : Type 0} {x : A} (a : ℕ) → deref [] a ≡ some x → ⊥
nothing_there a e = cc (nil a)

empty-Ledger : Ledger (λ i. none) (λ p. none) (λ a. false)
empty-Ledger = record {
  pays = λ i p e. absurd (ground arith);
  unsettled = λ p a e. absurd (ground arith);
  once = λ i j p e f. absurd (ground arith);
  apart = λ p q a e f. absurd (ground arith);
  awaited = λ a w. absurd (ground arith);
}

only_one : (a p : ℕ) → deref idle.boxes a ≡ some p → (1 ≡ a) × (1 ≡ p)
unfolding deref slot
only_one zero p e = cc
only_one (suc zero) p e = (refl, ground arith)
only_one (suc (suc a)) p e = cc

idle_app : AppInv idle.app
unfolding total
idle_app =
    app_inv idle.app (Inv-congr (λ b. refl) sdk-Inv) (λ a o e. absurd (nothing_there a e)) nil

pub idle-AsyncInv : AsyncInv idle
unfolding deref slot
idle-AsyncInv = record {
  inv = idle_app;
  alone = nil;
  boxed = λ b c e.
      subst (λ x. (k : BoxedClient) × (deref sdk.clients x ≡ some k)) (only_one b c e).1
        (boxed, refl);
  working = λ i t e. absurd (nothing_there i e);
  get_ledger =
      Ledger-same empty-Ledger (nil_view get_pointer) (nil_view get_promise)
        (nil_view {A = Shared ℕ} waits);
  set_ledger =
      Ledger-same empty-Ledger (nil_view set_pointer) (nil_view set_promise)
        (nil_view {A = Shared (Unit {0})} waits);
  named = λ p ctx e. absurd (nothing_there p e);
  owning = λ a p e own. (1, subst (λ x. deref idle.boxes x ≡ some 1) (only_one a p e).1 refl);
  single = λ a b p e f own. ground (arith, (only_one a p e).0, (only_one b p f).0);
  ready = λ a v e. absurd (nothing_there a e);
  kept = λ a b v e f. absurd (nothing_there a e);
}

-- A get of "a" is on its way.
abbrev pub asking_get : AsyncApp
asking_get = record idle {
  post = record idle.post {
    get_contexts = some (record { client = 1; promise = 1 }) ∷ [];
    gets = some pending ∷ [];
    tasks = some (record { core = 1; job = asks_get text_a; user_data = 1 }) ∷ [];
  };
}

pub core_there : deref sdk.clients 1 ≡ some boxed
unfolding deref slot
core_there = refl

pub box_there : deref idle.boxes 1 ≡ some 1
unfolding deref slot
box_there = refl

pub asking_get-AsyncInv : AsyncInv asking_get
unfolding alloc fresh
asking_get-AsyncInv = get-AsyncInv 1 1 text_a idle idle-AsyncInv refl (boxed, core_there)

-- The server does not know the key of a get, and its future is ready.
abbrev pub missing : ValueRef
missing = record { client = 1; result = get_error ErrorCode.key_not_found }

abbrev pub answered : AsyncApp
answered = record idle {
  app = record idle.app { refs = some missing ∷ [] };
  post = record idle.post { gets = some (value 1) ∷ [] };
}

pub missing_there : deref answered.app.refs 1 ≡ some missing
unfolding deref slot
missing_there = refl

pub future_there : deref answered.gets 1 ≡ some (value 1)
unfolding deref slot
future_there = refl

only_missing : (a : ℕ) (o : ValueRef) → deref answered.app.refs a ≡ some o → missing ≡ o
unfolding deref slot
only_missing zero o e = cc
only_missing (suc zero) o e = cc
only_missing (suc (suc a)) o e = cc

only_ready : (a v : ℕ) → deref answered.gets a ≡ some (value v) → (1 ≡ a) × (1 ≡ v)
unfolding deref slot
only_ready zero v e = cc
only_ready (suc zero) v e = (refl, ground arith)
only_ready (suc (suc a)) v e = cc

none_waits : (a : ℕ) → waits (deref answered.gets a) ≡ false
unfolding deref slot
none_waits zero = refl
none_waits (suc zero) = refl
none_waits (suc (suc a)) = refl

answered_app : AppInv answered.app
unfolding total get_error
answered_app =
    app_inv answered.app (Inv-congr (λ b. refl) sdk-Inv)
      (λ a o e own.
        subst (λ (x : ValueRef). (res : Result Text) × Answers x.result [] res) (only_missing a o e)
          (err ErrorCode.key_not_found, refl))
      nil

pub answered-AsyncInv : AsyncInv answered
answered-AsyncInv = record {
  inv = answered_app;
  alone = nil;
  boxed = idle-AsyncInv.boxed;
  working = idle-AsyncInv.working;
  get_ledger = Ledger-same empty-Ledger (nil_view get_pointer) (nil_view get_promise) none_waits;
  set_ledger = idle-AsyncInv.set_ledger;
  named = idle-AsyncInv.named;
  owning = idle-AsyncInv.owning;
  single = idle-AsyncInv.single;
  ready = λ a v e. (
    missing,
    subst (λ x. deref answered.app.refs x ≡ some missing) (only_ready a v e).1 missing_there,
  );
  kept = λ a b v e f. ground (arith, (only_ready a v e).0, (only_ready b v f).0);
}
