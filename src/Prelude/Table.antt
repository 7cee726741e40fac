-- ===== src/Prelude/Table.antt =====
-- A table of slots addressed by pointers: pointer 0 is null, pointer `suc i` is slot `i`. A slot
-- that was given back stays empty, so an address is never used twice.
use Prim.Native.Nat.{ℕ, zero, suc, ◌+◌, ◌≤◌}
use mathlib.Core.Path.{◌≡◌, refl, ap}
use mathlib.Core.Logic.{◌≢◌, inl, inr}
use mathlib.Core.Bool.{false}
use mathlib.Core.List.{List, [], ◌∷◌, ◌++◌}
use mathlib.Core.Option.{Option, none, some}
use native.Mathlib.Omega.{arith}
use kvstore_ffi.Prelude.Tests.{◌==◌, ==_iff, if◌then◌else◌, Bool-cases}
use kvstore_ffi.Prelude.Tests.{Option-cases}
use kvstore_ffi.Prelude.Lists.{length, length-append, set}

abbrev pub Table : Type 0 → Type 0
Table A = List (Option A)

module _ {A : Type 0} where
  -- What slot `i` holds, if it is in use.
  unfoldable pub slot : Table A → ℕ → Option A
  slot [] i = none
  slot (x ∷ t) zero = x
  slot (x ∷ t) (suc i) = slot t i

  unfoldable pub deref : Table A → ℕ → Option A
  unfolding slot
  deref t zero = none
  deref t (suc i) = slot t i

  unfoldable pub write : Table A → ℕ → Option A → Table A
  write t zero v = t
  write t (suc i) v = set t i v

  unfoldable pub alloc : Table A → A → Table A
  alloc t a = t ++ some a ∷ []

  -- The address that the next `alloc` gives.
  unfoldable pub fresh : Table A → ℕ
  fresh t = suc (length t)

  -- The sum of a weight over the slots in use.
  unfoldable pub total : (A → ℕ) → Table A → ℕ
  total w [] = 0
  total w (none ∷ t) = total w t
  total w (some a ∷ t) = w a + total w t

  -- The weight of a slot, 0 where it is empty.
  abbrev pub weight : (A → ℕ) → Option A → ℕ
  weight w none = 0
  weight w (some a) = w a

  slot-set_self :
      (t : Table A) (i : ℕ) (a : A) (v : Option A) → slot t i ≡ some a → slot (set t i v) i ≡ v
  unfolding slot
  slot-set_self [] i a v h = cc
  slot-set_self (x ∷ t) zero a v h = refl
  slot-set_self (x ∷ t) (suc i) a v h = slot-set_self t i a v h

  slot-set_ne : (t : Table A) (i j : ℕ) (v : Option A) → i ≢ j → slot (set t i v) j ≡ slot t j
  unfolding slot
  slot-set_ne [] i j v h = refl
  slot-set_ne (x ∷ t) zero zero v h = absurd (h refl)
  slot-set_ne (x ∷ t) zero (suc j) v h = refl
  slot-set_ne (x ∷ t) (suc i) zero v h = refl
  slot-set_ne (x ∷ t) (suc i) (suc j) v h = slot-set_ne t i j v (omega arith)

  total-set :
      (w : A → ℕ) (t : Table A) (i : ℕ) (a : A) (v : Option A)
      → slot t i ≡ some a
      → total w (set t i v) + w a ≡ total w t + weight w v
  unfolding slot total
  total-set w [] i a v h = cc
  total-set w (x ∷ t) zero a none h = ground arith
  total-set w (x ∷ t) zero a (some b) h = ground arith
  total-set w (none ∷ t) (suc i) a v h = total-set w t i a v h
  total-set w (some b ∷ t) (suc i) a v h = omega (arith, total-set w t i a v h)

  pub deref-write_self :
      (t : Table A) (p : ℕ) (a : A) (v : Option A) → deref t p ≡ some a → deref (write t p v) p ≡ v
  unfolding deref write
  deref-write_self t zero a v h = cc
  deref-write_self t (suc i) a v h = slot-set_self t i a v h

  pub deref-write_ne :
      (t : Table A) (p q : ℕ) (v : Option A) → p ≢ q → deref (write t p v) q ≡ deref t q
  unfolding deref write
  deref-write_ne t zero q v h = refl
  deref-write_ne t (suc i) zero v h = refl
  deref-write_ne t (suc i) (suc j) v h = slot-set_ne t i j v (omega arith)

  pub total-write :
      (w : A → ℕ) (t : Table A) (p : ℕ) (a : A) (v : Option A)
      → deref t p ≡ some a
      → total w (write t p v) + w a ≡ total w t + weight w v
  unfolding deref write
  total-write w t zero a v h = cc
  total-write w t (suc i) a v h = total-set w t i a v h

  -- One slot weighs at most as much as all of them.
  pub weight-le-total :
      (w : A → ℕ) (t : Table A) (p : ℕ) (a : A) → deref t p ≡ some a → w a ≤ total w t
  weight-le-total w t p a h = omega (arith, total-write w t p a none h)

  pub total-alloc : (w : A → ℕ) (t : Table A) (a : A) → total w (alloc t a) ≡ total w t + w a
  unfolding total alloc
  total-alloc w [] a = omega arith
  total-alloc w (none ∷ t) a = total-alloc w t a
  total-alloc w (some b ∷ t) a = omega (arith, total-alloc w t a)

  slot-append_self : (t : Table A) (a : A) → slot (t ++ some a ∷ []) (length t) ≡ some a
  unfolding slot
  slot-append_self [] a = refl
  slot-append_self (x ∷ t) a = slot-append_self t a

  slot-append_ne :
      (t : Table A) (a : A) (i : ℕ) → i ≢ length t → slot (t ++ some a ∷ []) i ≡ slot t i
  unfolding slot
  slot-append_ne [] a zero h = absurd (h refl)
  slot-append_ne [] a (suc i) h = refl
  slot-append_ne (x ∷ t) a zero h = refl
  slot-append_ne (x ∷ t) a (suc i) h = slot-append_ne t a i (omega arith)

  slot-length : (t : Table A) → slot t (length t) ≡ none
  unfolding slot
  slot-length [] = refl
  slot-length (x ∷ t) = slot-length t

  pub deref-alloc_self : (t : Table A) (a : A) → deref (alloc t a) (fresh t) ≡ some a
  unfolding deref alloc fresh
  deref-alloc_self t a = slot-append_self t a

  pub deref-alloc_ne : (t : Table A) (a : A) (p : ℕ) → p ≢ fresh t → deref (alloc t a) p ≡ deref t p
  unfolding deref alloc fresh
  deref-alloc_ne t a zero h = refl
  deref-alloc_ne t a (suc i) h = slot-append_ne t a i (omega arith)

  -- The address that `alloc` gives was not in use.
  pub deref-fresh : (t : Table A) → deref t (fresh t) ≡ none
  unfolding deref fresh
  deref-fresh t = slot-length t

  pub total-congr : (w v : A → ℕ) (t : Table A) → ((a : A) → w a ≡ v a) → total w t ≡ total v t
  unfolding total
  total-congr w v [] h = refl
  total-congr w v (none ∷ t) h = total-congr w v t h
  total-congr w v (some a ∷ t) h = omega (arith, h a, total-congr w v t h)

  slot_bound : (t : Table A) (i : ℕ) (a : A) → slot t i ≡ some a → suc i ≤ length t
  unfolding slot
  slot_bound [] i a h = cc
  slot_bound (x ∷ t) zero a h = omega arith
  slot_bound (x ∷ t) (suc i) a h = omega (arith, slot_bound t i a h)

  length-set : (t : Table A) (i : ℕ) (v : Option A) → length (set t i v) ≡ length t
  length-set [] i v = refl
  length-set (x ∷ t) zero v = refl
  length-set (x ∷ t) (suc i) v = ap suc (length-set t i v)

  pub lt_fresh : (t : Table A) (p : ℕ) (a : A) → deref t p ≡ some a → suc p ≤ fresh t
  unfolding deref fresh
  lt_fresh t zero a h = cc
  lt_fresh t (suc i) a h = omega (arith, slot_bound t i a h)

  -- Past the last address nothing is in use.
  pub deref-beyond : (t : Table A) (p : ℕ) → fresh t ≤ p → deref t p ≡ none
  deref-beyond t p l = elim (Option-cases (deref t p)) [
    | inl e ↦ e
    | inr (a, e) ↦ absurd (omega (arith, lt_fresh t p a e))
  ]

  pub fresh-write : (t : Table A) (p : ℕ) (v : Option A) → fresh (write t p v) ≡ fresh t
  unfolding fresh write
  fresh-write t zero v = refl
  fresh-write t (suc i) v = ap suc (length-set t i v)

  pub fresh-alloc : (t : Table A) (a : A) → fresh (alloc t a) ≡ suc (fresh t)
  unfolding fresh alloc
  fresh-alloc t a = omega (arith, length-append t (some a ∷ []))

  pub fresh_pos : (t : Table A) → 1 ≤ fresh t
  unfolding fresh
  fresh_pos t = omega arith

  pub deref-write :
      (t : Table A) (p q : ℕ) (a : A) (v : Option A)
      → deref t p ≡ some a
      → deref (write t p v) q ≡ (if p == q then v else deref t q)
  deref-write t p q a v h = elim (Bool-cases (p == q)) [
    | inl e ↦ rw (e, ← (==_iff p q).0 e) (deref-write_self t p a v h)
    | inr e ↦ rw e (deref-write_ne t p q v (ground arith))
  ]

  pub deref-alloc :
      (t : Table A) (q : ℕ) (a : A)
      → deref (alloc t a) q ≡ (if fresh t == q then some a else deref t q)
  deref-alloc t q a = elim (Bool-cases (fresh t == q)) [
    | inl e ↦ rw (e, ← (==_iff (fresh t) q).0 e) (deref-alloc_self t a)
    | inr e ↦ rw e (deref-alloc_ne t a q (ground arith))
  ]

  pub deref_ne_null : (t : Table A) (p : ℕ) (a : A) → deref t p ≡ some a → (p == 0) ≡ false
  unfolding deref
  deref_ne_null t zero a h = cc
  deref_ne_null t (suc i) a h = ground arith

  total-slots_empty : (w : A → ℕ) (t : Table A) → ((i : ℕ) → slot t i ≡ none) → total w t ≡ 0
  unfolding slot total
  total-slots_empty w [] h = refl
  total-slots_empty w (none ∷ t) h = total-slots_empty w t (λ i. h (suc i))
  total-slots_empty w (some a ∷ t) h = absurd (ground (arith, h 0))

  -- A table with no slot in use weighs nothing.
  pub total-empty : (w : A → ℕ) (t : Table A) → ((p : ℕ) → deref t p ≡ none) → total w t ≡ 0
  unfolding deref
  total-empty w t h = total-slots_empty w t (λ i. h (suc i))

  set_comm :
      (t : Table A) (i j : ℕ) (v w : Option A) → i ≢ j → set (set t i v) j w ≡ set (set t j w) i v
  set_comm [] i j v w n = refl
  set_comm (x ∷ t) zero zero v w n = absurd (n refl)
  set_comm (x ∷ t) zero (suc j) v w n = refl
  set_comm (x ∷ t) (suc i) zero v w n = refl
  set_comm (x ∷ t) (suc i) (suc j) v w n = ap (λ l. x ∷ l) (set_comm t i j v w (omega arith))

  -- Writes to two slots commute, and a second write to one slot is the one that counts.
  pub write_comm :
      (t : Table A) (p q : ℕ) (v w : Option A)
      → p ≢ q
      → write (write t p v) q w ≡ write (write t q w) p v
  unfolding write
  write_comm t zero q v w n = refl
  write_comm t (suc i) zero v w n = refl
  write_comm t (suc i) (suc j) v w n = set_comm t i j v w (omega arith)

  set-twice : (t : Table A) (i : ℕ) (v w : Option A) → set (set t i v) i w ≡ set t i w
  set-twice [] i v w = refl
  set-twice (x ∷ t) zero v w = refl
  set-twice (x ∷ t) (suc i) v w = ap (λ l. x ∷ l) (set-twice t i v w)

  pub write-twice : (t : Table A) (p : ℕ) (v w : Option A) → write (write t p v) p w ≡ write t p w
  unfolding write
  write-twice t zero v w = refl
  write-twice t (suc i) v w = set-twice t i v w
