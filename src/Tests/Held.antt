-- ===== src/Tests/Held.antt =====
-- A small state in which a `ValueRef` holds a text.
use kvstore_ffi.Prelude.{
  ℕ, zero, suc, ◌+◌, ◌≤◌, ◌≡◌, subst, refl, false, some, [], ◌∷◌, arith, ◌==◌, if◌then◌else◌,
}
use kvstore_ffi.Prelude.Table.{deref, slot, total}
use kvstore_ffi.Memory.{Cell, strong_at, text_at}
use kvstore_ffi.Ffi.State.{KvGetResult, Sdk}
use kvstore_ffi.Ffi.Books.{Inv}
use kvstore_ffi.Ffi.Get.{owns}
use kvstore_ffi.Binding.State.{App, ValueRef}
use kvstore_ffi.Binding.Ownership.{AppInv, IsSound}
use kvstore_ffi.Http.{ok}
use kvstore_ffi.Tests.Sample.{sample, text_v, boxed, nobody, app, app-AppInv, site}

-- One text, that the `ValueRef` at address 1 holds; one client with an empty cache.
abbrev pub cell : Cell
cell = record { text = text_v; strong = 1 }

abbrev pub got : KvGetResult
got = record { value = record { ptr = 1; len = 2 }; error_code = 0; padding = 0; arc_handle = 1 }

abbrev pub view_of_v : ValueRef
view_of_v = record { client = 1; result = got }

abbrev pub holding : Sdk
holding = record { arcs = some cell ∷ []; clients = some boxed ∷ []; world = site }

abbrev pub held_app : App
held_app = record app { sdk = holding; refs = some view_of_v ∷ [] }

pub held_app-AppInv : AppInv held_app
unfolding deref slot total strong_at text_at
held_app-AppInv = record {
  books = record { counted = only_cell; balance = λ b. balanced b };
  sound = only_ref;
  live = app-AppInv.live;
  apart = app-AppInv.apart;
}
  where
    only_cell : (a : ℕ) (c : Cell) → deref holding.arcs a ≡ some c → 1 ≤ c.strong
    only_cell zero c e = cc
    only_cell (suc zero) c e = ground arith
    only_cell (suc (suc a)) c e = cc

    balanced : (b : ℕ) → strong_at holding.arcs b ≡ 0 + 0 + ((if 1 == b then 1 else 0) + 0)
    balanced zero = refl
    balanced (suc zero) = refl
    balanced (suc (suc b)) = ground arith

    only_ref :
        (a : ℕ) (o : ValueRef)
        → deref held_app.refs a ≡ some o
        → (o.client == 0) ≡ false
        → IsSound holding.arcs o.result
    only_ref zero o e own = cc
    only_ref (suc zero) o e own =
        let same : view_of_v ≡ o = cc in
        subst (λ x. IsSound holding.arcs x.result) same (ok text_v, (refl, refl, refl, refl))
    only_ref (suc (suc a)) o e own = cc

-- A result that holds the text of `holding`.
pub holding-Inv : Inv (λ b. nobody b + owns got.arc_handle b) holding
unfolding owns strong_at total
holding-Inv = record {
  counted = held_app-AppInv.books.counted;
  balance = λ b. omega (arith, held_app-AppInv.books.balance b);
}
