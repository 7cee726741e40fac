-- ===== src/Tests/ServerRuns.antt =====
-- A world with the server in it, and the theorem on client and server at a small input.
use kvstore_ffi.Prelude.{
  ◌≡◌, ◌≢◌, refl, true, false, Option, none, some, [], ◌∷◌, list_eq, list_eq_refl, list_eq_sound,
  if◌then◌else◌, inl, inr, Bool-cases,
}
use kvstore_ffi.Text.{Text}
use kvstore_ffi.Platform.{Platform}
use kvstore_ffi.Http.{KvHttpClient}
use kvstore_ffi.Server.{DashMap, Axum, handle}
use kvstore_ffi.Tests.ListCache.{list_cache}
use kvstore_ffi.Tests.Sample.{Json, json, empty}

-- A map as a function.
abbrev changed : (Text → Option Text) → Text → Option Text → Text → Option Text
changed m k v j = if list_eq k j then v else m j

changed_self : (m : Text → Option Text) (k : Text) (v : Option Text) → changed m k v k ≡ v
changed_self m k v = rw (list_eq_refl k) refl

changed_ne :
    (m : Text → Option Text) (k : Text) (v : Option Text) (j : Text) → k ≢ j → changed m k v j ≡ m j
changed_ne m k v j n = elim (Bool-cases (list_eq k j)) [
  | inl same ↦ absurd (n (list_eq_sound k j same))
  | inr other ↦ rw other refl
]

abbrev maps : DashMap
maps = record {
  Map = Text → Option Text;
  empty = λ j. none;
  find = λ m j. m j;
  insert = λ m k v. changed m k (some v);
  remove = λ m k. (m k, changed m k none);
  find-empty = λ k. refl;
  find-insert_self = λ m k v. changed_self m k (some v);
  find-insert_ne = λ m k v j n. changed_ne m k (some v) j n;
  remove_old = λ m k. refl;
  find-remove_self = λ m k. changed_self m k none;
  find-remove_ne = λ m k j n. changed_ne m k none j n;
}

-- What follows "/kv/".
abbrev name_of : Text → Option Text
name_of (_ ∷ _ ∷ _ ∷ _ ∷ name) = some name
name_of _ = none

abbrev routes : Axum Json
routes = record {
  path_key = name_of;
  is_health = λ url. false;
  unmatched = λ r. record { status = 404; body = empty };
  rejected = λ r. record { status = 422; body = empty };
}

abbrev served : Platform
served = record {
  moka = list_cache;
  serde = json;
  World = Text → Option Text;
  builds = λ n. true;
  send = λ w r. (some (handle maps json routes r w).0, (handle maps json routes r w).1);
  json_body = json.value_body;
  json_value = json.read_value;
}

abbrev local : KvHttpClient
local = record { base_url = [] }

abbrev nowhere : Text → Option Text
nowhere j = none
