-- ===== src/Memory.antt =====
-- Rust's `Arc<String>`, which holds each cached value: cells with a text and a strong count. A cell
-- whose count falls to 0 is freed, and its address is not used again.
pub mod Counts
use kvstore_ffi.Prelude.{
  ℕ, suc, ◌+◌, ◌-◌, ◌≡◌, refl, Option, none, some, List, [], ◌∷◌, ◌==◌, if◌then◌else◌,
}
use kvstore_ffi.Prelude.Table.{Table, deref, write, alloc, fresh, weight}
use kvstore_ffi.Prelude.State.{Run, pure, ◌>>=◌, ◌>>◌}
use kvstore_ffi.Text.{Text}

pub record Cell : Type 0 where
  pub text : Text
  pub strong : ℕ

abbrev pub Arcs : Type 0
Arcs = Table Cell

-- The strong count at an address, 0 where nothing lives.
unfoldable pub strong_at : Arcs → ℕ → ℕ
strong_at h a = weight (λ c. c.strong) (deref h a)

-- The text at an address, while the cell lives.
unfoldable pub text_at : Arcs → ℕ → Option Text
text_at h a = elim (deref h a) [ none ↦ none | some c ↦ some c.text ]

-- `Arc::new(value)`
unfoldable pub arc_new : Text → Run Arcs ℕ
arc_new t h = some (fresh h, alloc h (record { text = t; strong = 1 }))

-- `arc.clone()`
unfoldable pub arc_clone : ℕ → Run Arcs (Unit {0})
arc_clone a h = elim (deref h a) [
  | none ↦ none
  | some c ↦ some (tt, write h a (some (record c { strong = suc c.strong })))
]

-- What is left of a cell that loses one reference.
unfoldable pub dec_strong : Cell → Option Cell
dec_strong c = if c.strong == 1 then none else some (record c { strong = c.strong - 1 })

-- The drop of an `Arc`.
unfoldable pub arc_drop : ℕ → Run Arcs (Unit {0})
unfolding dec_strong
arc_drop a h = elim (deref h a) [ none ↦ none | some c ↦ some (tt, write h a (dec_strong c)) ]

unfoldable pub arc_drop_all : List ℕ → Run Arcs (Unit {0})
arc_drop_all [] = pure tt
arc_drop_all (a ∷ l) = do arc_drop a; arc_drop_all l
