-- ===== src/Cache/View.antt =====
-- The cache as its clients see it: a partial map from keys to texts that may forget entries.
use kvstore_ffi.Prelude.{
  ℕ, ◌≡◌, ◌⊎◌, inl, inr, Option, none, some, arith, if◌then◌else◌, list_eq, list_eq_sound,
  list_eq_refl, Bool-cases, Option-cases, sym, ◌∙◌,
}
use mathlib.Core.Bool.{false≢true}
use kvstore_ffi.Text.{Text}
use kvstore_ffi.Memory.{Arcs, text_at}
use kvstore_ffi.Memory.Counts.{Keeps, text_at_lt, strong_text}
use kvstore_ffi.Platform.{Platform}
use kvstore_ffi.Cache.{KvCache}
use kvstore_ffi.Cache.Accounts.{Owned}

-- A map, which knows no value for some keys.
abbrev pub Contents : Type 0
Contents = Text → Option Text

-- The map with one more value.
unfoldable pub learn : Contents → Text → Text → Contents
learn f key value j = if list_eq key j then some value else f j

-- `g` says of each key what `f` says of it, or nothing.
abbrev pub Forgets : Contents → Contents → Type 0
Forgets f g = (j : Text) → (g j ≡ f j) ⊎ (g j ≡ none)

pub Forgets-trans : {f g h : Contents} → Forgets f g → Forgets g h → Forgets f h
Forgets-trans {f} {g} {h} p q j = both (p j) (q j)
  where
    both : (g j ≡ f j) ⊎ (g j ≡ none) → (h j ≡ g j) ⊎ (h j ≡ none) → (h j ≡ f j) ⊎ (h j ≡ none)
    both (inl e) (inl d) = inl (d ∙ e)
    both (inr e) (inl d) = inr (d ∙ e)
    both x (inr d) = inr d

pub Forgets-learn :
    {f g : Contents} (key value : Text)
    → Forgets f g
    → Forgets (learn f key value) (learn g key value)
unfolding learn
Forgets-learn key value p j = elim (Bool-cases (list_eq key j)) [
  | inl hit ↦ inl (rw hit)
  | inr miss ↦ rw miss (p j)
]

-- To learn what is known is to learn nothing.
pub Forgets-known :
    {f g : Contents} (key value : Text)
    → f key ≡ some value
    → Forgets f g
    → Forgets (learn f key value) g
unfolding learn
Forgets-known key value e p j = elim (Bool-cases (list_eq key j)) [
  | inl hit ↦ rw (hit, ← e, list_eq_sound key j hit) (p j)
  | inr miss ↦ rw miss (p j)
]

pub learn_self : (f : Contents) (key value : Text) → learn f key value key ≡ some value
unfolding learn
learn_self f key value = rw (list_eq_refl key)

module _ ⦃P : Platform⦄ where
  open P use {
    get, insert, invalidate, invalidate_all, refs, refs-get, get-insert_self, get-insert_ne,
    get-invalidate, get-invalidate_self, get-invalidate_all,
  }

  -- What a lookup of the key would give.
  unfoldable pub cached : KvCache → Arcs → Contents
  cached c h key = elim (get c.store key) [ none ↦ none | some a ↦ text_at h a ]

  -- Where the entry of a key is the same or gone, so is its text.
  pub cached_same :
      (c d : KvCache) (h g : Arcs) (j : Text)
      → Keeps h g
      → Owned c h
      → (get d.store j ≡ get c.store j) ⊎ (get d.store j ≡ none)
      → (cached d g j ≡ cached c h j) ⊎ (cached d g j ≡ none)
  unfolding cached
  cached_same c d h g j k own (inr gone) = inr (rw (gone, cached))
  cached_same c d h g j k own (inl same) = elim (Option-cases (get c.store j)) [
    | inl e ↦ inr (rw (same ∙ e, cached))
    | inr (a, e) ↦
        let (t, q) = strong_text h a (omega (arith, refs-get c.store j a e, own a)) in
        rw (same, e, cached) (k.old a (text_at_lt h a t q))
  ]

  -- A new entry is learnt; the cache may forget at the same time.
  pub cached-insert :
      (c d : KvCache) (h g : Arcs) (key value : Text) (a : ℕ)
      → Keeps h g
      → Owned c h
      → d.store ≡ (insert c.store key a).0
      → text_at g a ≡ some value
      → Forgets (learn (cached c h) key value) (cached d g)
  unfolding learn cached
  cached-insert c d h g key value a k own e text j = elim (Bool-cases (list_eq key j)) [
    | inl hit ↦
        rw (hit, ← list_eq_sound key j hit)
          (elim (get-insert_self c.store key a) [
            | inl q ↦ inl (rw (e, q, cached) text)
            | inr q ↦ inr (rw (e, q, cached))
          ])
    | inr miss ↦ rw miss (
        cached_same c d h g j k own (
          rw e
            (get-insert_ne c.store key j a λ q. false≢true (sym miss ∙ rw q (list_eq_refl key)))))
  ]

  pub cached-invalidate :
      (c d : KvCache) (h g : Arcs) (key : Text)
      → Keeps h g
      → Owned c h
      → d.store ≡ (invalidate c.store key).0
      → Forgets (cached c h) (cached d g) × (cached d g key ≡ none)
  unfolding cached
  cached-invalidate c d h g key k own e = (
    λ j. cached_same c d h g j k own (rw e (get-invalidate c.store key j)),
    rw (e, cached, get-invalidate_self c.store key),
  )

  pub cached-clear :
      (d : KvCache) (c : KvCache) (g : Arcs)
      → d.store ≡ (invalidate_all c.store).0
      → (j : Text) → cached d g j ≡ none
  unfolding cached
  cached-clear d c g e j = rw (cached, e, get-invalidate_all c.store j)

  pub cached_hit :
      (c : KvCache) (h : Arcs) (key : Text) (a : ℕ)
      → get c.store key ≡ some a
      → cached c h key ≡ text_at h a
  unfolding cached
  cached_hit c h key a e = rw (e, cached)

  pub cached_miss :
      (c : KvCache) (h : Arcs) (key : Text) → get c.store key ≡ none → cached c h key ≡ none
  unfolding cached
  cached_miss c h key e = rw (e, cached)
