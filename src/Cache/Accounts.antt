-- ===== src/Cache/Accounts.antt =====
-- The books of the cache (core-sdk/src/cache.rs): what changes in the strong counts, what the cache
-- owns more or less, and what the caller gets.
use kvstore_ffi.Prelude.{
  ℕ, ◌+◌, ◌%◌, ◌^◌, ◌≤◌, ◌≡◌, refl, inl, inr, Option, none, some, List, arith, count, Option-cases,
}
use kvstore_ffi.Prelude.State.{Returns, returns, bind, mono}
use kvstore_ffi.Text.{Text}
use kvstore_ffi.Memory.{Arcs, strong_at, text_at, arc_drop_all}
use kvstore_ffi.Memory.Counts.{
  one, nothing, IsCounted, Keeps, Keeps-refl, Keeps-trans, Keeps-text, Counts-trans, arc_new_lem,
  arc_clone_lem, arc_drop_all_lem,
}
use kvstore_ffi.Platform.{Platform}
use kvstore_ffi.Cache.{
  KvCache, cache_get, cache_insert, cache_invalidate, cache_clear, cache_maintain,
}

-- The reference that a lookup hands out.
abbrev pub gained : Option ℕ → ℕ → ℕ
gained none b = 0
gained (some a) b = one a b

module _ ⦃P : Platform⦄ where
  open P use {
    get, insert, invalidate, invalidate_all, refs, refs-get, refs-insert, refs-invalidate,
    refs-invalidate_all, housekeep, refs-housekeep,
  }

  -- Each reference that the cache owns is counted in the heap.
  abbrev pub Owned : KvCache → Arcs → Type 0
  Owned c h = (b : ℕ) → refs c.store b ≤ strong_at h b

  pub record Accounts (c : KvCache) (h : Arcs) (d : KvCache) (g : Arcs) (got : ℕ → ℕ) : Type 0 where
    pub keeps : Keeps h g
    pub counted : IsCounted g
    pub balance : (b : ℕ) → strong_at g b + refs c.store b ≡ strong_at h b + refs d.store b + got b

  -- An access counts one hit or one miss; nothing else counts.
  abbrev pub Accessed : {A : Type 0} → Option A → KvCache → KvCache → Type 0
  Accessed (some x) c d = (d.hits ≡ (c.hits + 1) % 2 ^ 64) × (d.misses ≡ c.misses)
  Accessed none c d = (d.hits ≡ c.hits) × (d.misses ≡ (c.misses + 1) % 2 ^ 64)

  abbrev pub SameCounts : KvCache → KvCache → Type 0
  SameCounts c d = (d.hits ≡ c.hits) × (d.misses ≡ c.misses)

  -- What else the operations do.
  abbrev pub LooksUp : Text → KvCache → Option ℕ → KvCache → Arcs → Type 0
  LooksUp key c found d g = (found ≡ get c.store key) × (d.store ≡ c.store) × Accessed found c d

  abbrev pub Inserts : Text → Text → KvCache → Arcs → ℕ → KvCache → Arcs → Type 0
  Inserts key value c h a d g =
      (text_at g a ≡ some value)
      × (strong_at h a ≡ 0)
      × (d.store ≡ (insert c.store key a).0)
      × SameCounts c d

  abbrev pub Invalidates : Text → KvCache → Unit {0} → KvCache → Arcs → Type 0
  Invalidates key c _ d g = (d.store ≡ (invalidate c.store key).0) × SameCounts c d

  abbrev pub Clears : KvCache → Unit {0} → KvCache → Arcs → Type 0
  Clears c _ d g = (d.store ≡ (invalidate_all c.store).0) × SameCounts c d

  abbrev pub Maintains : KvCache → Unit {0} → KvCache → Arcs → Type 0
  Maintains c _ d g = d.store ≡ (housekeep c.store).0

  pub cache_get_lem :
      (key : Text) (c : KvCache) (h : Arcs)
      → IsCounted h
      → Owned c h
      → Returns
          (λ (found, d) g. Accounts c h d g (gained found) × LooksUp key c found d g)
          (cache_get key c h)
  unfolding cache_get
  cache_get_lem key c h ok owned = elim (Option-cases (get c.store key)) [
    | inl miss ↦
        rw (miss, cache_get)
          (returns (
            record { keeps = Keeps-refl h; counted = ok; balance = λ b. omega arith },
            (refl, refl, (refl, refl)),
          ))
    | inr (a, hit) ↦
        rw (hit, cache_get)
          (bind (arc_clone_lem a h ok (omega (arith, refs-get c.store key a hit, owned a))) λ _ g k.
            returns (
              record {
                keeps = k.keeps;
                counted = k.counted;
                balance = λ b. omega (arith, k.counts b);
              },
              (refl, refl, (refl, refl)),
            ))
  ]

  pub cache_insert_lem :
      (key value : Text) (c : KvCache) (h : Arcs)
      → IsCounted h
      → Owned c h
      → Returns
          (λ (a, d) g. Accounts c h d g (one a) × Inserts key value c h a d g)
          (cache_insert key value c h)
  unfolding cache_insert
  cache_insert_lem key value c h ok owned = bind (arc_new_lem value h ok) λ a g1 (k1, text, _, new).
      bind (arc_clone_lem a g1 k1.counted (ground (arith, k1.counts a))) λ _ g2 k2.
        bind
          (arc_drop_all_lem (insert c.store key a).1 g2 k2.counted
            (λ b. omega (arith, refs-insert c.store key a b, owned b, k1.counts b, k2.counts b)))
          λ _ g3 k3.
            let all = Counts-trans (Counts-trans k1 k2) k3 in
            returns (
              record {
                keeps = all.keeps;
                counted = all.counted;
                balance = λ b. omega (arith, all.counts b, refs-insert c.store key a b);
              },
              (
                Keeps-text (Keeps-trans k2.keeps k3.keeps) a value text
                    (ground (arith, all.counts a, refs-insert c.store key a a, owned a)),
                new,
                refl,
                (refl, refl),
              ),
            )

  -- Dropping what the cache gives up.
  drop_lem :
      (c d : KvCache) (dropped : List ℕ) (h : Arcs)
      → IsCounted h
      → Owned c h
      → ((b : ℕ) → refs d.store b + count b dropped ≡ refs c.store b)
      → Returns (λ _ g. Accounts c h d g nothing) (arc_drop_all dropped h)
  drop_lem c d dropped h ok owned law =
      mono (arc_drop_all_lem dropped h ok (λ b. omega (arith, law b, owned b))) λ _ g k. record {
        keeps = k.keeps;
        counted = k.counted;
        balance = λ b. omega (arith, k.counts b, law b);
      }

  pub cache_invalidate_lem :
      (key : Text) (c : KvCache) (h : Arcs)
      → IsCounted h
      → Owned c h
      → Returns
          (λ (x, d) g. Accounts c h d g nothing × Invalidates key c x d g)
          (cache_invalidate key c h)
  unfolding cache_invalidate
  cache_invalidate_lem key c h ok owned =
      bind
        (drop_lem c (record c { store = (invalidate c.store key).0 }) (invalidate c.store key).1 h
          ok owned (refs-invalidate c.store key))
        λ _ g k. returns (k, (refl, (refl, refl)))

  pub cache_clear_lem :
      (c : KvCache) (h : Arcs)
      → IsCounted h
      → Owned c h
      → Returns (λ (x, d) g. Accounts c h d g nothing × Clears c x d g) (cache_clear c h)
  unfolding cache_clear
  cache_clear_lem c h ok owned =
      bind
        (drop_lem c (record c { store = (invalidate_all c.store).0 }) (invalidate_all c.store).1 h
          ok owned (refs-invalidate_all c.store))
        λ _ g k. returns (k, (refl, (refl, refl)))

  pub cache_maintain_lem :
      (c : KvCache) (h : Arcs)
      → IsCounted h
      → Owned c h
      → Returns (λ (x, d) g. Accounts c h d g nothing × Maintains c x d g) (cache_maintain c h)
  unfolding cache_maintain
  cache_maintain_lem c h ok owned =
      bind
        (drop_lem c (record c { store = (housekeep c.store).0 }) (housekeep c.store).1 h ok owned
          (refs-housekeep c.store))
        λ _ g k. returns (k, refl)
