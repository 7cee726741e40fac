-- ===== src/Ffi/Books.antt =====
-- The books of the interface: each strong count is what the caches own and what the callers hold.
use kvstore_ffi.Prelude.{
  ℕ, ◌+◌, ◌-◌, ◌≤◌, ◌≡◌, refl, ◌≢◌, some, arith, ap, subst, ◌∙◌, ◌==◌, ==_iff, Bool-cases, inl, inr,
}
use kvstore_ffi.Prelude.Table.{
  deref, total, total-write, weight-le-total, deref-write_self, deref-write_ne,
}
use kvstore_ffi.Prelude.State.{Run, Returns, returns, bind}
use kvstore_ffi.Memory.{Arcs, strong_at}
use kvstore_ffi.Memory.Counts.{IsCounted, Keeps, Counts}
use kvstore_ffi.Platform.{Platform}
use kvstore_ffi.Http.{KvHttpClient}
use kvstore_ffi.Cache.{KvCache}
use kvstore_ffi.Cache.Accounts.{Accounts, Owned}
use kvstore_ffi.Ffi.State.{KvStoreClient, Sdk, on_arcs, on_cache, on_http}

module _ ⦃P : Platform⦄ where
  open P use {refs}

  -- The references to `b` that the cache of a client owns, and those of all clients.
  abbrev pub client_refs : ℕ → KvStoreClient → ℕ
  client_refs b c = refs c.cache.store b

  abbrev pub owed : Sdk → ℕ → ℕ
  owed s b = total (client_refs b) s.clients

  -- The books are right when the callers hold `held b` references to each address `b`.
  pub record Inv (held : ℕ → ℕ) (s : Sdk) : Type 0 where
    pub counted : IsCounted s.arcs
    pub balance : (b : ℕ) → strong_at s.arcs b ≡ owed s b + held b

  pub Inv-Owned :
      {held : ℕ → ℕ} {s : Sdk} (p : ℕ) (c : KvStoreClient)
      → Inv held s
      → deref s.clients p ≡ some c
      → Owned c.cache s.arcs
  Inv-Owned {s} p c i e b =
      omega (arith, weight-le-total (client_refs b) s.clients p c e, i.balance b)

  pub Inv-congr :
      {held held' : ℕ → ℕ} {s : Sdk} → ((b : ℕ) → held b ≡ held' b) → Inv held s → Inv held' s
  Inv-congr same i = record {
    counted = i.counted;
    balance = λ b. omega (arith, i.balance b, same b);
  }

  -- Only the client at `p` changed, and of it only the cache.
  pub record Updated (s : Sdk) (p : ℕ) (c : KvStoreClient) (d : KvCache) (t : Sdk) : Type 0 where
    pub here : deref t.clients p ≡ some (record c { cache = d })
    pub elsewhere : (q : ℕ) → p ≢ q → deref t.clients q ≡ deref s.clients q

  -- Every boxed client is as it was, but for its cache.
  abbrev pub Recached : Sdk → Sdk → Type 0
  Recached s t =
      (q : ℕ) (c : KvStoreClient)
      → deref s.clients q ≡ some c
      → (d : KvCache) × (deref t.clients q ≡ some (record c { cache = d }))

  pub Updated-Recached :
      {s t : Sdk} {p : ℕ} {c : KvStoreClient} {d : KvCache}
      → deref s.clients p ≡ some c
      → Updated s p c d t
      → Recached s t
  Updated-Recached {s} {t} {p} {c} {d} e up q x there = elim (Bool-cases (p == q)) [
    | inl same ↦
        let z : p ≡ q = (==_iff p q).0 same in
        let one : c ≡ x = cc in
        (
          d,
          subst (λ r. deref t.clients r ≡ some (record x { cache = d })) z
              (subst (λ y. deref t.clients p ≡ some (record y { cache = d })) one up.here),
        )
    | inr other ↦ (x.cache, up.elsewhere q (λ z. ground arith) ∙ there)
  ]

  pub Updated-refl :
      (s : Sdk) (p : ℕ) (c : KvStoreClient) → deref s.clients p ≡ some c → Updated s p c c.cache s
  Updated-refl s p c e = record { here = e; elsewhere = λ q n. refl }

  pub Updated-trans :
      {s t t' u : Sdk} {p : ℕ} {c : KvStoreClient} {d d' : KvCache}
      → Updated s p c d t
      → t'.clients ≡ t.clients
      → Updated t' p (record c { cache = d }) d' u
      → Updated s p c d' u
  Updated-trans {p} x e y = record {
    here = y.here;
    elsewhere = λ q n. y.elsewhere q n ∙ ap (λ k. deref k q) e ∙ x.elsewhere q n;
  }

  pub on_arcs_lem :
      {A : Type 0} {held : ℕ → ℕ} (up down : ℕ → ℕ) (Q : A → Arcs → Type 0) (m : Run Arcs A)
      (s : Sdk)
      → ((b : ℕ) → down b ≤ held b)
      → Inv held s
      → Returns (λ a g. Counts s.arcs g up down × Q a g) (m s.arcs)
      → Returns
          (λ a t.
            Inv (λ b. held b + up b - down b) t
            × Keeps s.arcs t.arcs
            × (t.clients ≡ s.clients)
            × (t.world ≡ s.world)
            × Q a t.arcs)
          (on_arcs m s)
  unfolding on_arcs
  on_arcs_lem up down Q m s enough i r = bind r λ a g (k, q). returns (
    record { counted = k.counted; balance = λ b. omega (arith, k.counts b, i.balance b, enough b) },
    k.keeps,
    refl,
    refl,
    q,
  )

  pub on_cache_lem :
      {A : Type 0} {held : ℕ → ℕ} (got : A → ℕ → ℕ) (Q : A → KvCache → Arcs → Type 0)
      (f : KvCache → Run Arcs (A × KvCache)) (p : ℕ) (c : KvStoreClient) (s : Sdk)
      → Inv held s
      → deref s.clients p ≡ some c
      → Returns (λ (a, d) g. Accounts c.cache s.arcs d g (got a) × Q a d g) (f c.cache s.arcs)
      → Returns
          (λ a t.
            Inv (λ b. held b + got a b) t
            × Keeps s.arcs t.arcs
            × (t.world ≡ s.world)
            × ((d : KvCache) × Updated s p c d t × Q a d t.arcs))
          (on_cache p f s)
  unfolding on_cache
  on_cache_lem got Q f p c s i e r =
      rw (e, on_cache)
        (bind r λ (a, d) g (k, q).
          let c' : KvStoreClient = record c { cache = d } in
          returns (
            record {
              counted = k.counted;
              balance = λ b. omega (
                arith,
                k.balance b,
                i.balance b,
                total-write (client_refs b) s.clients p c (some c') e,
              );
            },
            k.keeps,
            refl,
            (
              d,
              record {
                here = deref-write_self s.clients p c (some c') e;
                elsewhere = λ x n. deref-write_ne s.clients p x (some c') n;
              },
              q,
            ),
          ))

  pub on_http_lem :
      {A : Type 0} {held : ℕ → ℕ} (f : KvHttpClient → P.World → A × P.World) (p : ℕ)
      (c : KvStoreClient) (s : Sdk)
      → Inv held s
      → deref s.clients p ≡ some c
      → Returns
          (λ a t.
            Inv held t
            × (t.arcs ≡ s.arcs)
            × (t.clients ≡ s.clients)
            × (a ≡ (f c.http_client s.world).0)
            × (t.world ≡ (f c.http_client s.world).1))
          (on_http p f s)
  unfolding on_http
  on_http_lem f p c s i e =
      rw (e, on_http)
        (returns (record { counted = i.counted; balance = i.balance }, refl, refl, refl, refl))
