-- ===== src/Async/Delivery.antt =====
-- What the callbacks do to the invariant of the asynchronous wrapper.
use kvstore_ffi.Prelude.{ℕ, false, none, some, ◌≡◌, ◌⊎◌, inl, inr, ◌==◌, arith, sym, ap, ◌∙◌, ◌+◌}
use kvstore_ffi.Prelude.Table.{Table, deref}
use kvstore_ffi.Memory.Counts.{Keeps}
use kvstore_ffi.Platform.{Platform}
use kvstore_ffi.Ffi.State.{Sdk, KvGetResult}
use kvstore_ffi.Ffi.Books.{Inv}
use kvstore_ffi.Ffi.Get.{owns}
use kvstore_ffi.Binding.State.{ValueRef}
use kvstore_ffi.Binding.Ownership.{holds, held, IsSound, AllSound-Keeps}
use kvstore_ffi.Async.{Shared, value, GetContext, Task, AsyncApp}
use kvstore_ffi.Async.GetCallback.{Arrives, Delivered}
use kvstore_ffi.Async.Invariant.{GetLedger, SetLedger, IsCore, AsyncInv}
use kvstore_ffi.Async.Cores.{Below, box-shares, task-shares}

-- Where each value of the new cells comes from.
abbrev pub Grown : Table (Shared ℕ) → ℕ → ℕ → Table (Shared ℕ) → Type 0
Grown old a place new =
    (b v : ℕ)
    → deref new b ≡ some (value v)
    → ((b ≡ a) × (v ≡ place)) ⊎ (deref old b ≡ some (value v))

module _ ⦃P : Platform⦄ where
  -- A new object of a client will own what a result brings.
  pub holding :
      (client : ℕ) (r : KvGetResult) (s : AsyncApp) (t : Sdk)
      → (client == 0) ≡ false
      → Inv (λ b. held s.app.refs b + owns r.arc_handle b) t
      → Inv (λ b. held s.app.refs b + holds b (record { client = client; result = r })) t
  holding client r s t own books = rw own books

  -- A result that nobody holds yet is on its way to a callback with a client.
  pub Arrives-of_result :
      (client : ℕ) (r : KvGetResult) (s t : AsyncApp)
      → AsyncInv s
      → Inv (λ b. held s.app.refs b + holds b (record { client = client; result = r })) t.app.sdk
      → Keeps s.app.sdk.arcs t.app.sdk.arcs
      → IsSound t.app.sdk.arcs r
      → t.app.refs ≡ s.app.refs
      → t.app.clients ≡ s.app.clients
      → Arrives client r t.app
  Arrives-of_result client r s t i books keeps sound refs clients = record {
    books = rw refs books;
    sound = rw refs (
        AllSound-Keeps s.app.sdk.arcs t.app.sdk.arcs s.app.refs keeps
          (λ b. omega (arith, books.balance b)) i.inv.sound);
    good = sound;
    live = rw clients λ a k e q. absurd (ground (arith, i.alone a));
    apart = rw clients λ a b k l e f q same. absurd (ground (arith, i.alone a));
  }

  -- From `s` something below changed (`t`), then a value was delivered (`u`); `w` has the same app.
  pub AsyncInv-delivered :
      (s t u w : AsyncApp) (p : ℕ) (ctx : GetContext) (r : KvGetResult)
      → AsyncInv s
      → Below s t.app.sdk
      → t.app.refs ≡ s.app.refs
      → t.app.clients ≡ s.app.clients
      → (d : Delivered t p ctx r u) → w.app ≡ u.app
      → w.boxes ≡ s.boxes
      → w.objects ≡ s.objects
      → ((j : ℕ) (x : Task) → deref w.tasks j ≡ some x → deref s.tasks j ≡ some x)
      → GetLedger w.tasks w.get_contexts w.gets
      → SetLedger w.tasks w.set_contexts w.sets
      → ((q : ℕ) (c : GetContext)
          → deref w.get_contexts q ≡ some c
          → deref s.get_contexts q ≡ some c)
      → Grown s.gets ctx.promise d.place w.gets
      → AsyncInv w
  AsyncInv-delivered s t u w p ctx r i below refs clients d app boxes objects tasks gl sl contexts
        grown =
      let alone : (a : ℕ) → deref w.app.clients a ≡ none =
        λ a. rw (app, d.clients, clients) (i.alone a) in
      let cores : (c : ℕ) → IsCore t.app.sdk c → IsCore w.app.sdk c =
        λ c (k, e). (k, ap (λ x. deref x.sdk.clients c) app ∙ ap (λ x. deref x c) d.boxed ∙ e) in
      let other : (b v : ℕ)
          → deref s.gets b ≡ some (value v)
          → (o : ValueRef) × (deref t.app.refs v ≡ some o) =
        λ b v e. let (o, q) = i.ready b v e in (o, ap (λ x. deref x v) refs ∙ q) in
      record {
        inv = rw app d.inv;
        alone = alone;
        boxed = λ b c e.
            let e' = ap (λ x. deref x b) (sym boxes) ∙ e in
            cores c (below.cores c (box-shares s b c e') (i.boxed b c e'));
        working = λ j x e.
            cores x.core
              (below.cores x.core (task-shares s j x (tasks j x e)) (i.working j x (tasks j x e)));
        get_ledger = gl;
        set_ledger = sl;
        named = λ q c e. i.named q c (contexts q c e);
        owning = rw (boxes, objects) i.owning;
        single = rw objects i.single;
        ready = λ b v e. elim (grown b v e) [
          | inl (here, new) ↦ (
            record { client = ctx.client; result = r },
            ap (λ x. deref x.refs v) app ∙ ap (deref u.app.refs) new ∙ d.owner,
          )
          | inr old ↦
              let (o, q) = other b v old in (o, ap (λ x. deref x.refs v) app ∙ d.others v o q)
        ];
        kept = λ a b v e f. elim (grown a v e) [
          | inl (ha, na) ↦ elim (grown b v f) [
            | inl (hb, nb) ↦ ha ∙ sym hb
            | inr old ↦ let (o, q) = other b v old in absurd (ground (arith, d.new, na, q))
          ]
          | inr old ↦ elim (grown b v f) [
            | inl (hb, nb) ↦ let (o, q) = other a v old in absurd (ground (arith, d.new, nb, q))
            | inr old' ↦ i.kept a b v old old'
          ]
        ];
      }
