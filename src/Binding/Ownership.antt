-- ===== src/Binding/Ownership.antt =====
-- Who owns the references of the results: each `ValueRef` with a client owns that of its result.
-- The invariant of the wrapper's objects.
use kvstore_ffi.Prelude.{
  ℕ, ◌+◌, ◌≤◌, ◌≡◌, refl, inl, inr, false, Option, some, arith, ◌==◌, ==_iff, if◌then◌else◌,
  Bool-cases, sym, ap, subst, ◌∙◌,
}
use kvstore_ffi.Prelude.Table.{
  Table, deref, write, alloc, fresh, total, total-alloc, weight-le-total, deref-write, deref-alloc,
}
use kvstore_ffi.Prelude.State.{Run, Returns, returns, bind}
use kvstore_ffi.Text.{Text}
use kvstore_ffi.Memory.{Arcs, strong_at}
use kvstore_ffi.Memory.Counts.{Keeps, Keeps-text}
use kvstore_ffi.Platform.{Platform}
use kvstore_ffi.Http.{Result, ok, err}
use kvstore_ffi.Cache.{KvCache}
use kvstore_ffi.Ffi.State.{KvGetResult, Sdk, KvStoreClient as BoxedClient}
use kvstore_ffi.Ffi.Books.{Inv, Inv-congr, Updated}
use kvstore_ffi.Ffi.Get.{owns, Answers, text_at_ne_null}
use kvstore_ffi.Binding.State.{ValueRef, KvStoreClient, App, on_sdk, ref_at, set_ref, value_ref_new}

-- The reference that an object owns: that of its result, unless it was moved from.
abbrev pub holds : ℕ → ValueRef → ℕ
holds b o = if o.client == 0 then 0 else owns o.result.arc_handle b

abbrev pub held : Table ValueRef → ℕ → ℕ
held refs b = total (holds b) refs

-- A result that says something true of the heap.
abbrev pub IsSound : Arcs → KvGetResult → Type 0
IsSound h r = (res : Result Text) × Answers r h res

abbrev pub AllSound : Arcs → Table ValueRef → Type 0
AllSound h refs =
    (a : ℕ) (o : ValueRef) → deref refs a ≡ some o → (o.client == 0) ≡ false → IsSound h o.result

module _ ⦃P : Platform⦄ where
  -- The client objects that were not moved from point to boxed clients, no two to one.
  abbrev pub AllLive : Table KvStoreClient → Sdk → Type 0
  AllLive clients t =
      (a : ℕ) (k : KvStoreClient)
      → deref clients a ≡ some k
      → (k.client == 0) ≡ false
      → (c : BoxedClient) × (deref t.clients k.client ≡ some c)

  abbrev pub AllApart : Table KvStoreClient → Type 0
  AllApart clients =
      (a b : ℕ) (k l : KvStoreClient)
      → deref clients a ≡ some k
      → deref clients b ≡ some l
      → (k.client == 0) ≡ false
      → k.client ≡ l.client
      → a ≡ b

  pub record AppInv (s : App) : Type 0 where
    pub books : Inv (held s.refs) s.sdk
    pub sound : AllSound s.sdk.arcs s.refs
    pub live : AllLive s.clients s.sdk
    pub apart : AllApart s.clients

  -- The results stay sound while the heap keeps what they own.
  pub AllSound-Keeps :
      (h g : Arcs) (refs : Table ValueRef)
      → Keeps h g
      → ((b : ℕ) → held refs b ≤ strong_at g b)
      → AllSound h refs
      → AllSound g refs
  AllSound-Keeps h g refs k enough sound a o e owner = go (sound a o e owner)
    where
      go : IsSound h o.result → IsSound g o.result
      go (err code, q) = (err code, q)
      go (ok v, q) = (
        ok v,
        (
          q.0,
          q.1,
          q.2,
          Keeps-text k o.result.arc_handle v q.3 (
              ground (
                arith,
                enough o.result.arc_handle,
                weight-le-total (holds o.result.arc_handle) refs a o e,
                text_at_ne_null h o.result.arc_handle v q.3,
              )),
        ),
      )

  -- A change of one cache leaves every client object with its boxed client.
  pub AllLive-Updated :
      {s t : Sdk} {p : ℕ} {c : BoxedClient} {d : KvCache} (clients : Table KvStoreClient)
      → Updated s p c d t
      → AllLive clients s
      → AllLive clients t
  AllLive-Updated {p} {c} {d} clients up live a k e owner = elim (Bool-cases (p == k.client)) [
    | inl here ↦ (record c { cache = d }, rw (← (==_iff p k.client).0 here) up.here)
    | inr other ↦ let (b, q) = live a k e owner in (b, up.elsewhere k.client (ground arith) ∙ q)
  ]

  pub on_sdk_lem :
      {A : Type 0} {Q : A → Sdk → Type 0} (m : Run Sdk A) (s : App)
      → Returns Q (m s.sdk)
      → Returns (λ a t. Q a t.sdk × (t.refs ≡ s.refs) × (t.clients ≡ s.clients)) (on_sdk m s)
  unfolding on_sdk
  on_sdk_lem m s r = bind r λ a t q. returns (q, refl, refl)

  pub AllLive-same :
      (s t : Sdk) (clients : Table KvStoreClient)
      → t.clients ≡ s.clients
      → AllLive clients s
      → AllLive clients t
  AllLive-same s t clients e live a k q owner =
      let (c, d) = live a k q owner in (c, ap (λ x. deref x k.client) e ∙ d)

  pub ref_at-eq :
      (a : ℕ) (o : ValueRef) (s : App) → deref s.refs a ≡ some o → ref_at a s ≡ some (o, s)
  unfolding ref_at
  ref_at-eq a o s e = rw (e, ref_at)

  -- A new object takes over the reference of its result.
  pub value_ref_new_lem :
      (client : ℕ) (r : KvGetResult) (s : App)
      → Inv (λ b. held s.refs b + holds b (record { client = client; result = r })) s.sdk
      → AllSound s.sdk.arcs s.refs
      → ((client == 0) ≡ false → IsSound s.sdk.arcs r)
      → AllLive s.clients s.sdk
      → AllApart s.clients
      → Returns
          (λ a t.
            AppInv t
            × (t.sdk ≡ s.sdk)
            × (t.clients ≡ s.clients)
            × (a ≡ fresh s.refs)
            × (t.refs ≡ alloc s.refs (record { client = client; result = r })))
          (value_ref_new client r s)
  unfolding value_ref_new
  value_ref_new_lem client r s i sound good live apart =
      let new : ValueRef = record { client = client; result = r } in
      returns (
        record {
          books = Inv-congr (λ b. sym (total-alloc (holds b) s.refs new)) i;
          sound = λ a o e owner. elim (Bool-cases (fresh s.refs == a)) [
            | inl here ↦
                let same : new ≡ o = ground (arith, deref-alloc s.refs a new) in
                subst (λ x. (x.client == 0) ≡ false → IsSound s.sdk.arcs x.result) same good owner
            | inr other ↦ sound a o (ground (arith, deref-alloc s.refs a new)) owner
          ];
          live = live;
          apart = apart;
        },
        refl,
        refl,
        refl,
        refl,
      )

  pub AllSound-write :
      (h : Arcs) (refs : Table ValueRef) (a : ℕ) (o : ValueRef) (v : Option ValueRef)
      → deref refs a ≡ some o
      → AllSound h refs
      → ((x : ValueRef) → v ≡ some x → (x.client == 0) ≡ false → IsSound h x.result)
      → AllSound h (write refs a v)
  AllSound-write h refs a o v e sound good b x q owner = elim (Bool-cases (a == b)) [
    | inl here ↦ good x (ground (arith, deref-write refs a b o v e)) owner
    | inr other ↦ sound b x (ground (arith, deref-write refs a b o v e)) owner
  ]

  -- An object is overwritten or ends: its books and results are those of the new table.
  pub set_ref_lem :
      (a : ℕ) (v : Option ValueRef) (s : App)
      → Inv (held (write s.refs a v)) s.sdk
      → AllSound s.sdk.arcs (write s.refs a v)
      → AllLive s.clients s.sdk
      → AllApart s.clients
      → Returns
          (λ _ t.
            AppInv t × (t.sdk ≡ s.sdk) × (t.clients ≡ s.clients) × (t.refs ≡ write s.refs a v))
          (set_ref a v s)
  unfolding set_ref
  set_ref_lem a v s i sound live apart =
      returns (record { books = i; sound = sound; live = live; apart = apart }, refl, refl, refl)
