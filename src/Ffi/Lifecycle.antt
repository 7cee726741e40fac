-- ===== src/Ffi/Lifecycle.antt =====
-- `kv_store_destroy`, `kv_store_release_get` and `kv_store_cache_clear` of core-sdk/src/ffi.rs.
use kvstore_ffi.Prelude.{
  ℕ, ◌+◌, ◌≡◌, refl, ◌≢◌, inl, inr, none, some, arith, ◌==◌, ==_iff, Bool-cases, ap,
}
use kvstore_ffi.Prelude.Table.{deref, total-write, deref_ne_null, deref-write_self, deref-write_ne}
use kvstore_ffi.Prelude.State.{Returns, returns, bind, mono}
use kvstore_ffi.Text.{Text}
use kvstore_ffi.Memory.Counts.{nothing, Keeps, Keeps-refl, arc_drop_all_lem}
use kvstore_ffi.Platform.{Platform}
use kvstore_ffi.Cache.{KvCache, cache_clear}
use kvstore_ffi.Cache.Accounts.{SameCounts, Clears, cache_clear_lem}
use kvstore_ffi.Cache.View.{cached, cached-clear}
use kvstore_ffi.Ffi.State.{KvGetResult, KvStoreClient, Sdk, on_arcs}
use kvstore_ffi.Ffi.Books.{Inv, Inv-Owned, Inv-congr, Updated, client_refs, on_cache_lem}
use kvstore_ffi.Ffi.Get.{owns}
use kvstore_ffi.Ffi.Set.{release_lem}
use kvstore_ffi.Ffi.{drop_client, kv_store_destroy, kv_store_release_get, kv_store_cache_clear}

module _ ⦃P : Platform⦄ where
  open P use {build, discard, refs, refs-build, refs-discard, get-build}

  -- What a caller gets back from a release: the same result without its handle.
  abbrev pub released : KvGetResult → KvGetResult
  released r = record r { arc_handle = 0 }

  -- Where the books count the reference of a result, `kv_store_release_get` gives it back: the
  -- result that it leaves has no handle, a second release of it changes nothing, and the books
  -- are right without it.
  pub kv_store_release_get_lem :
      {held : ℕ → ℕ} (p : ℕ) (r : KvGetResult) (s : Sdk)
      → Inv (λ b. held b + owns r.arc_handle b) s
      → Returns
          (λ q t.
            (q ≡ some (released r))
            × Inv held t
            × Keeps s.arcs t.arcs
            × (t.clients ≡ s.clients)
            × (t.world ≡ s.world)
            × (kv_store_release_get p q t ≡ some (q, t)))
          (kv_store_release_get p (some r) s)
  unfolding kv_store_release_get
  kv_store_release_get_lem {held} p r s i = elim (Bool-cases (r.arc_handle == 0)) [
    | inl none_held ↦ rw none_held (
        returns (
          ap (λ h. some (record r { arc_handle = h })) ((==_iff r.arc_handle 0).0 none_held),
          Inv-congr (λ b. ground arith) i,
          Keeps-refl s.arcs,
          refl,
          refl,
          rw none_held,
        ))
    | inr some_held ↦ rw some_held (
        bind (release_lem {held = held} r.arc_handle s (Inv-congr (λ b. ground arith) i))
          λ _ t (i', keeps, clients, world). returns (refl, i', keeps, clients, world, refl))
  ]

  -- `kv_store_destroy` frees the client and the references of its cache and no others: every result
  -- that a caller still holds stays readable. Its pointer dangles after that.
  pub kv_store_destroy_lem :
      {held : ℕ → ℕ} (p : ℕ) (c : KvStoreClient) (s : Sdk)
      → Inv held s
      → deref s.clients p ≡ some c
      → Returns
          (λ _ t.
            Inv held t
            × Keeps s.arcs t.arcs
            × (t.world ≡ s.world)
            × (deref t.clients p ≡ none)
            × ((q : ℕ) → p ≢ q → deref t.clients q ≡ deref s.clients q))
          (kv_store_destroy p s)
  unfolding kv_store_destroy on_arcs
  kv_store_destroy_lem {held} p c s i e =
      let left = λ (b : ℕ). total-write (client_refs b) s.clients p c none e in
      rw (deref_ne_null s.clients p c e, e, drop_client)
        (bind
          (arc_drop_all_lem (discard c.cache.store) s.arcs i.counted
            (λ b. omega (arith, refs-discard c.cache.store b, Inv-Owned p c i e b)))
          λ _ g k. returns (
            record {
              counted = k.counted;
              balance =
                  λ b. omega (arith, k.counts b, i.balance b, refs-discard c.cache.store b, left b);
            },
            k.keeps,
            refl,
            deref-write_self s.clients p c none e,
            λ q n. deref-write_ne s.clients p q none n,
          ))

  -- `kv_store_cache_clear` leaves nothing in the cache, the counters as they were, and every held
  -- text readable.
  pub kv_store_cache_clear_lem :
      {held : ℕ → ℕ} (p : ℕ) (c : KvStoreClient) (s : Sdk)
      → Inv held s
      → deref s.clients p ≡ some c
      → Returns
          (λ _ t.
            Inv held t
            × Keeps s.arcs t.arcs
            × (t.world ≡ s.world)
            × ((d : KvCache) × Updated s p c d t
                × ((j : Text) → cached d t.arcs j ≡ none)
                × SameCounts c.cache d))
          (kv_store_cache_clear p s)
  unfolding kv_store_cache_clear
  kv_store_cache_clear_lem p c s i e = rw (deref_ne_null s.clients p c e) (
      mono
        (on_cache_lem (λ _. nothing) (Clears c.cache) cache_clear p c s i e
          (cache_clear_lem c.cache s.arcs i.counted (Inv-Owned p c i e)))
        λ x t (i', keeps, w, (d, up, (store, same))). (
          Inv-congr (λ b. omega arith) i',
          keeps,
          w,
          (d, up, cached-clear d c.cache t.arcs store, same),
        ))
