-- ===== src/Bench/Loops.antt =====
-- The loops of the benchmark runs of bindings/cpp/benchmarks/ffi_overhead_benchmark.cpp.
use kvstore_ffi.Prelude.{
  ℕ, ◌+◌, ◌<◌, ◌%◌, ◌++◌, subst, ◌^◌, ◌≡◌, refl, false, Option, none, some, List, [], ◌∷◌, ◌==◌,
  length, ap, ◌∙◌,
}
use kvstore_ffi.Prelude.Table.{deref, deref-alloc_self}
use kvstore_ffi.Prelude.State.{Returns, returns, bind, mono}
use kvstore_ffi.Text.{Text}
use kvstore_ffi.Memory.Counts.{Keeps, Keeps-refl, Keeps-trans}
use kvstore_ffi.Platform.{Platform}
use kvstore_ffi.Http.{Result, err, http_get}
use kvstore_ffi.Cache.{KvCache}
use kvstore_ffi.Cache.View.{cached}
use kvstore_ffi.Ffi.State.{at, Sdk, KvStoreClient as BoxedClient}
use kvstore_ffi.Ffi.Get.{slice_text}
use kvstore_ffi.Binding.State.{ValueRef, KvStoreClient, Outcome, returned, thrown, App}
use kvstore_ffi.Binding.Ownership.{held, AppInv, ref_at-eq}
use kvstore_ffi.Binding.Expected.{get_outcome}
use kvstore_ffi.Binding.Answers.{spoken}
use kvstore_ffi.Binding.Reads.{get_ref_lem, get_lem, finish_lem}
use kvstore_ffi.Ffi.Books.{Recached, Updated-Recached}
use kvstore_ffi.Binding.Writes.{clear_cache_lem}
use kvstore_ffi.ErrorCode.{ErrorCode}
use kvstore_ffi.Bench.Recorded.{
  all_laps, Recorded, Recorded-none, Recorded-append, push-Recorded, Recorded-fits,
}
use kvstore_ffi.Bench.Runs.{
  Progress, push, push_returned, hit_loop, hit_threads, miss_once, miss_loop,
}

module _ ⦃P : Platform⦄ where
  -- What a loop leaves: the client objects, and as many references as before.
  pub record Left (s t : App) : Type 0 where
    pub inv : AppInv t
    pub keeps : Keeps s.sdk.arcs t.sdk.arcs
    pub clients : t.clients ≡ s.clients
    pub same : (b : ℕ) → held t.refs b ≡ held s.refs b
    pub boxes : Recached s.sdk t.sdk

  pub Left-refl : (s : App) → AppInv s → Left s s
  Left-refl s i = record {
    inv = i;
    keeps = Keeps-refl s.sdk.arcs;
    clients = refl;
    same = λ b. refl;
    boxes = λ q c e. (c.cache, e);
  }

  pub Left-trans : {s t u : App} → Left s t → Left t u → Left s u
  Left-trans p q = record {
    inv = q.inv;
    keeps = Keeps-trans p.keeps q.keeps;
    clients = q.clients ∙ p.clients;
    same = λ b. q.same b ∙ p.same b;
    boxes = λ x c e. let (d, e') = p.boxes x c e in q.boxes x (record c { cache = d }) e';
  }

  -- `RunSDKCacheHitBenchmark`, one thread: on a client that is alive, from a counter below 2^64, the
  -- loop ends without a fault, with the duration of each round recorded, and leaves no reference
  -- behind.
  pub hit_loop_lem :
      (a : ℕ) (k : KvStoreClient) (key : Text) (laps : List ℕ) (p : Progress) (s : App)
      → AppInv s
      → deref s.clients a ≡ some k
      → (k.client == 0) ≡ false
      → p.total_ops < 2 ^ 64
      → Returns (λ q t. Recorded p laps q × Left s t) (hit_loop a key laps p s)
  unfolding hit_loop
  hit_loop_lem a k key [] p s i e own h = returns (Recorded-none p h, Left-refl s i)
  hit_loop_lem a k key (lap ∷ laps) p s i e own h =
      let (c, there) = i.live a k e own in
      bind (get_ref_lem a k c (at key) s i e own there) λ r t n.
        let o : ValueRef = record { client = k.client; result = n.result } in
        rw (ref_at-eq r o t (rw (n.refs, n.place) (deref-alloc_self s.refs o))) (
          bind (finish_lem s t k c (slice_text (at key)) r n) λ _ u d.
            mono
              (hit_loop_lem a k key laps (push lap p) u d.inv (ap (λ x. deref x a) d.clients ∙ e)
                own (Recorded-fits (push-Recorded lap p)))
              λ q v (done, l). (
                Recorded-append (push-Recorded lap p) done,
                Left-trans
                    (record {
                      inv = d.inv;
                      keeps = d.keeps;
                      clients = d.clients;
                      same = d.same;
                      boxes = d.boxes;
                    })
                    l,
              ))

  hit_threads-Recorded :
      (a : ℕ) (k : KvStoreClient) (key : Text) (threads : List (List ℕ)) (p : Progress) (s : App)
      → AppInv s
      → deref s.clients a ≡ some k
      → (k.client == 0) ≡ false
      → p.total_ops < 2 ^ 64
      → Returns (λ q t. Recorded p (all_laps threads) q × Left s t) (hit_threads a key threads p s)
  unfolding hit_threads
  hit_threads-Recorded a k key [] p s i e own h = returns (Recorded-none p h, Left-refl s i)
  hit_threads-Recorded a k key (laps ∷ threads) p s i e own h =
      bind (hit_loop_lem a k key laps p s i e own h) λ q t (first, l).
        mono
          (hit_threads-Recorded a k key threads q t l.inv (ap (λ x. deref x a) l.clients ∙ e) own
            (Recorded-fits first))
          λ r u (rest, l'). (Recorded-append first rest, Left-trans l l')

  -- `RunSDKCacheHitBenchmark`, all threads on one client: on a client object that was not moved
  -- from, in a state that keeps the invariant and from a counter below 2^64, the loops end without a
  -- fault. The latencies are those from before and then the duration of each round, thread by thread;
  -- the counter has grown by the number of rounds, modulo 2^64; no reference is left behind.
  pub hit_threads_lem :
      (a : ℕ) (k : KvStoreClient) (key : Text) (threads : List (List ℕ)) (p : Progress) (s : App)
      → AppInv s
      → deref s.clients a ≡ some k
      → (k.client == 0) ≡ false
      → p.total_ops < 2 ^ 64
      → Returns
          (λ q t.
            (q.latencies ≡ p.latencies ++ all_laps threads)
            × (q.total_ops ≡ (p.total_ops + length (all_laps threads)) % 2 ^ 64)
            × Left s t)
          (hit_threads a key threads p s)
  hit_threads_lem a k key threads p s i e own h =
      mono (hit_threads-Recorded a k key threads p s i e own h)
        λ q t (r, l). (r.latencies, r.total_ops, l)

  -- What the server answers for a key, past the cache, and the world after it.
  abbrev pub asked : BoxedClient → Option Text → P.World → Result Text × P.World
  asked c none w = (err ErrorCode.invalid_input, w)
  asked c (some key) w = http_get c.http_client key w

  spoken_cleared :
      (c d : BoxedClient) (k : Option Text) (s t : Sdk)
      → d.http_client ≡ c.http_client
      → ((j : Text) → cached d.cache t.arcs j ≡ none)
      → t.world ≡ s.world
      → spoken d t k ≡ asked c k s.world
  spoken_cleared c d none s t same empty w = ap (λ x. (err ErrorCode.invalid_input, x)) w
  spoken_cleared c d (some key) s t same empty w = rw (empty key, w, same) refl

  -- `RunSDKCacheMissBenchmark`, one round: on a client object that was not moved from, in a
  -- state that keeps the invariant, a `Get` after `ClearCache` answers what the server says, by
  -- one request for a valid key, whatever the cache held before.
  pub miss_once_lem :
      (a : ℕ) (k : KvStoreClient) (c : BoxedClient) (key : Text) (s : App)
      → AppInv s
      → deref s.clients a ≡ some k
      → (k.client == 0) ≡ false
      → deref s.sdk.clients k.client ≡ some c
      → Returns
          (λ out t.
            (out ≡ get_outcome (at key) (asked c (slice_text (at key)) s.sdk.world).0)
            × (t.sdk.world ≡ (asked c (slice_text (at key)) s.sdk.world).1)
            × Left s t)
          (miss_once a key s)
  unfolding miss_once
  miss_once_lem a k c key s i e own there =
      bind (clear_cache_lem a k c s i e own there)
        λ _ t (j, keeps, objects, refs, world, (d, up, empty)).
          let c' : BoxedClient = record c { cache = d } in
          let same = spoken_cleared c c' (slice_text (at key)) s.sdk t.sdk refl empty world in
          mono (get_lem a k c' (at key) t j (ap (λ x. deref x a) objects ∙ e) own up.here)
            λ out u (q, d'). (
              q ∙ ap (λ x. get_outcome (at key) x.0) same,
              d'.world ∙ ap (λ x. x.1) same,
              record {
                inv = d'.inv;
                keeps = Keeps-trans keeps d'.keeps;
                clients = d'.clients ∙ objects;
                same = λ b. d'.same b ∙ ap (λ x. held x b) refs;
                boxes = λ q x there'.
                    let (w, there'') = Updated-Recached there up q x there' in
                    d'.boxes q (record x { cache = w }) there'';
              },
            )

  -- The answer to a call of each round, one after the other: what `Get` should end with.
  abbrev pub answers_of : BoxedClient → Text → List ℕ → P.World → List (Outcome Text)
  answers_of c key [] w = []
  answers_of c key (lap ∷ laps) w =
      get_outcome (at key) (asked c (slice_text (at key)) w).0
      ∷ answers_of c key laps (asked c (slice_text (at key)) w).1

  asked_again :
      (c : BoxedClient) (d : KvCache) (k : Option Text) (w : P.World)
      → asked (record c { cache = d }) k w ≡ asked c k w
  asked_again c d none w = refl
  asked_again c d (some key) w = refl

  -- What the cache holds does not matter for them.
  answers_of_again :
      (c : BoxedClient) (d : KvCache) (key : Text) (laps : List ℕ) (w : P.World)
      → answers_of (record c { cache = d }) key laps w ≡ answers_of c key laps w
  answers_of_again c d key [] w = refl
  answers_of_again c d key (lap ∷ laps) w = rw (asked_again c d (slice_text (at key)) w) (
      ap (λ l. get_outcome (at key) (asked c (slice_text (at key)) w).0 ∷ l)
        (answers_of_again c d key laps (asked c (slice_text (at key)) w).1))

  -- The durations of the rounds that ended with a value.
  abbrev pub kept : List (Outcome Text) → List ℕ → List ℕ
  kept (returned v ∷ outs) (lap ∷ laps) = lap ∷ kept outs laps
  kept (thrown e ∷ outs) (lap ∷ laps) = kept outs laps
  kept [] laps = []
  kept (out ∷ outs) [] = []

  push_returned-Recorded :
      (out : Outcome Text) (lap : ℕ) (p q : Progress) (outs : List (Outcome Text)) (laps : List ℕ)
      → Recorded (push_returned out lap p) (kept outs laps) q
      → Recorded p (kept (out ∷ outs) (lap ∷ laps)) q
  unfolding push_returned
  push_returned-Recorded (returned v) lap p q outs laps r = Recorded-append (push-Recorded lap p) r
  push_returned-Recorded (thrown e) lap p q outs laps r = r

  push_returned-fits :
      (out : Outcome Text) (lap : ℕ) (p : Progress)
      → p.total_ops < 2 ^ 64
      → (push_returned out lap p).total_ops < 2 ^ 64
  unfolding push_returned
  push_returned-fits (returned v) lap p h = Recorded-fits (push-Recorded lap p)
  push_returned-fits (thrown e) lap p h = h

  miss_loop-Recorded :
      (a : ℕ) (k : KvStoreClient) (c : BoxedClient) (key : Text) (laps : List ℕ) (p : Progress)
      (s : App)
      → AppInv s
      → deref s.clients a ≡ some k
      → (k.client == 0) ≡ false
      → deref s.sdk.clients k.client ≡ some c
      → p.total_ops < 2 ^ 64
      → Returns
          (λ q t. Recorded p (kept (answers_of c key laps s.sdk.world) laps) q × Left s t)
          (miss_loop a key laps p s)
  unfolding miss_loop
  miss_loop-Recorded a k c key [] p s i e own there h = returns (Recorded-none p h, Left-refl s i)
  miss_loop-Recorded a k c key (lap ∷ laps) p s i e own there h =
      bind (miss_once_lem a k c key s i e own there) λ out t (said, world, l).
        let (d, there') = l.boxes k.client c there in
        rw said (
          mono
            (miss_loop-Recorded a k (record c { cache = d }) key laps
              (push_returned (get_outcome (at key) (asked c (slice_text (at key)) s.sdk.world).0)
                lap p)
              t l.inv (ap (λ x. deref x a) l.clients ∙ e) own there' (push_returned-fits _ lap p h))
            λ q u (r, l'). (
              push_returned-Recorded
                  (get_outcome (at key) (asked c (slice_text (at key)) s.sdk.world).0) lap p q
                  (answers_of c key laps (asked c (slice_text (at key)) s.sdk.world).1) laps
                  (subst
                    (λ outs.
                      Recorded
                        (push_returned
                          (get_outcome (at key) (asked c (slice_text (at key)) s.sdk.world).0) lap
                          p)
                        (kept outs laps) q)
                    (answers_of_again c d key laps t.sdk.world
                      ∙ ap (λ w. answers_of c key laps w) world)
                    r),
              Left-trans l l',
            ))

  -- `RunSDKCacheMissBenchmark`, one thread: on a client object that was not moved from, in a state
  -- that keeps the invariant and from a counter below 2^64, the loop ends without a fault whichever
  -- calls throw. The latencies are those from before and then the durations of exactly the rounds for
  -- which the server gave a value, in order; the counter has grown by their number, modulo 2^64; no
  -- reference is left behind.
  pub miss_loop_lem :
      (a : ℕ) (k : KvStoreClient) (c : BoxedClient) (key : Text) (laps : List ℕ) (p : Progress)
      (s : App)
      → AppInv s
      → deref s.clients a ≡ some k
      → (k.client == 0) ≡ false
      → deref s.sdk.clients k.client ≡ some c
      → p.total_ops < 2 ^ 64
      → Returns
          (λ q t.
            (q.latencies ≡ p.latencies ++ kept (answers_of c key laps s.sdk.world) laps)
            × (q.total_ops
                ≡ (p.total_ops + length (kept (answers_of c key laps s.sdk.world) laps)) % 2 ^ 64)
            × Left s t)
          (miss_loop a key laps p s)
  miss_loop_lem a k c key laps p s i e own there h =
      mono (miss_loop-Recorded a k c key laps p s i e own there h)
        λ q t (r, l). (r.latencies, r.total_ops, l)
