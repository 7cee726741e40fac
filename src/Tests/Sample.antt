-- ===== src/Tests/Sample.antt =====
-- A small platform: the list cache, a server that stores a value for each URL, JSON as a data type;
-- and a state of the program on it with one client.
use kvstore_ffi.Prelude.{
  ℕ, zero, suc, ◌≡◌, refl, Bool, true, false, Option, none, some, List, [], ◌∷◌, arith, ◌==◌, subst,
  list_eq, if◌then◌else◌,
}
use kvstore_ffi.Prelude.Table.{deref, slot, total}
use kvstore_ffi.Text.{Text}
use kvstore_ffi.Memory.{Cell, strong_at}
use kvstore_ffi.Platform.{Platform, Serde, Request, Response, Method}
use kvstore_ffi.Cache.{KvCache}
use kvstore_ffi.Ffi.State.{Sdk, KvStoreClient as BoxedClient}
use kvstore_ffi.Ffi.Books.{Inv}
use kvstore_ffi.Binding.State.{App, ValueRef, KvStoreClient}
use kvstore_ffi.Binding.Ownership.{AppInv}
use kvstore_ffi.Tests.ListCache.{list_cache}

pub data Json : Type 0 where
  value : Text → Json
  success : Bool → Json
  other : Text → Json
  empty : Json

abbrev pub read : Json → Option Text
read (value v) = some v
read _ = none

abbrev pub json : Serde
json = record {
  Body = Json;
  value_body = value;
  success_body = success;
  error_body = other;
  status_body = other;
  no_body = empty;
  read_value = read;
  read_value-value_body = λ v. refl;
}

-- What the server stores; `none` while it cannot be reached.
abbrev pub Site : Type 0
Site = Option (List (Text × Text))

abbrev pub page : Text → List (Text × Text) → Option Text
page u [] = none
page u ((v, t) ∷ l) = if list_eq v u then some t else page u l

abbrev pub reply_to : Request Json → List (Text × Text) → Response Json × List (Text × Text)
reply_to r l = elim r.method [
  | Method.get ↦ elim (page r.url l) [
    | none ↦ (record { status = 404; body = other r.url }, l)
    | some v ↦ (record { status = 200; body = value v }, l)
  ]
  | Method.put ↦ elim (read r.body) [
    | none ↦ (record { status = 422; body = empty }, l)
    | some v ↦ (record { status = 200; body = success true }, (r.url, v) ∷ l)
  ]
  | Method.delete ↦ (record { status = 405; body = empty }, l)
]

abbrev pub deliver : Site → Request Json → Option (Response Json) × Site
deliver none r = (none, none)
deliver (some l) r = (some (reply_to r l).0, some (reply_to r l).1)

instance abbrev pub sample : Platform
sample = record {
  moka = list_cache;
  serde = json;
  World = Site;
  builds = λ n. true;
  send = deliver;
  json_body = value;
  json_value = read;
}

abbrev pub text_a : Text
text_a = b'a' ∷ []

abbrev pub text_v : Text
text_v = b'v' ∷ b'1' ∷ []

abbrev pub fresh_cache : KvCache
fresh_cache = record { store = record { capacity = 2; entries = [] }; hits = 0; misses = 0 }

abbrev pub boxed : BoxedClient
boxed = record { cache = fresh_cache; http_client = record { base_url = [] } }

-- "/kv/a" holds "v1"
abbrev pub site : Site
site = some ((b'/' ∷ b'k' ∷ b'v' ∷ b'/' ∷ b'a' ∷ [], text_v) ∷ [])

abbrev pub sdk : Sdk
sdk = record { arcs = []; clients = some boxed ∷ []; world = site }

abbrev pub nobody : ℕ → ℕ
nobody b = 0

empty_heap : (a : ℕ) → deref {A = Cell} [] a ≡ none
unfolding deref slot
empty_heap zero = refl
empty_heap (suc i) = refl

no_cell : (a : ℕ) (c : Cell) → deref [] a ≡ some c → ⊥
no_cell a c e = cc (empty_heap a)

pub sdk-Inv : Inv nobody sdk
unfolding strong_at total
sdk-Inv = record {
  counted = λ a c e. absurd (no_cell a c e);
  balance = λ b. rw (empty_heap b) (omega arith);
}

abbrev pub app : App
app = record { sdk = sdk; refs = []; clients = some (record { client = 1 }) ∷ [] }

pub app-AppInv : AppInv app
unfolding deref slot total
app-AppInv = record {
  books = sdk-Inv;
  sound = λ a o e. absurd (no_ref a o e);
  live = only_live;
  apart = only_apart;
}
  where
    no_ref : (a : ℕ) (o : ValueRef) → deref [] a ≡ some o → ⊥
    no_ref zero o e = cc
    no_ref (suc i) o e = cc

    only_live :
        (a : ℕ) (k : KvStoreClient)
        → deref app.clients a ≡ some k
        → (k.client == 0) ≡ false
        → (c : BoxedClient) × (deref sdk.clients k.client ≡ some c)
    only_live zero k e owner = cc
    only_live (suc zero) k e owner =
        let q : 1 ≡ k.client = ground arith in
        (boxed, subst (λ n. deref sdk.clients n ≡ some boxed) q refl)
    only_live (suc (suc a)) k e owner = cc

    only_apart :
        (a b : ℕ) (k l : KvStoreClient)
        → deref app.clients a ≡ some k
        → deref app.clients b ≡ some l
        → (k.client == 0) ≡ false
        → k.client ≡ l.client
        → a ≡ b
    only_apart (suc zero) (suc zero) k l e d owner q = refl
    only_apart zero b k l e d owner q = cc
    only_apart (suc zero) zero k l e d owner q = cc
    only_apart (suc zero) (suc (suc b)) k l e d owner q = cc
    only_apart (suc (suc a)) b k l e d owner q = cc
