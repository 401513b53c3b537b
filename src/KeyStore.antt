-- ===== src/KeyStore.antt =====
-- The store of API keys, internal/store/store.go. `sha256_hex` is the digest that `HashKey` prints,
-- which crypto/sha256 and fmt compute. A stored key is a pointer in the map, its value here.
pub mod Loading
use gogateway.Base.{
  Bool, true, false, ◌||◌, Option, none, some, List, [], ◌∷◌, is_nil, if◌then◌else◌,
}
use gogateway.Base.Clock.{Time}
use gogateway.Base.Text.{Text}
use gogateway.Base.Maps.{Map, lookup, insert}

pub record ApiKey : Type 0 where
  pub id : Text
  pub key_hash : Text
  pub service : Text
  pub rate_tier : Text
  pub created_at : Time
  pub revoked : Bool

pub record KeyStore : Type 0 where
  pub keys : Map ApiKey

unfoldable pub new_key_store : KeyStore
new_key_store = record { keys = [] }

unfoldable pub find : Text → KeyStore → Option ApiKey
find hash ks = lookup hash ks.keys

unfoldable pub add : ApiKey → KeyStore → KeyStore
add key ks = record { keys = insert key.key_hash key ks.keys }

unfoldable pub revoke : Text → KeyStore → KeyStore × Bool
revoke hash ks = elim (lookup hash ks.keys) [
  | none ↦ (ks, false)
  | some k ↦ (record { keys = insert hash (record k { revoked = true }) ks.keys }, true)
]

pub record KeyFileEntry : Type 0 where
  pub id : Text
  pub key : Text
  pub service : Text
  pub rate_tier : Text

-- What reading the file gives.
pub data FileRead : Type 0 where
  not_exist unreadable : FileRead
  contents : Text → FileRead

module _ (sha256_hex : Text → Text) where
  abbrev pub seeded : Time → KeyFileEntry → ApiKey
  seeded now entry = record {
    id = entry.id;
    key_hash = sha256_hex entry.key;
    service = entry.service;
    rate_tier = entry.rate_tier;
    created_at = now;
    revoked = false;
  }

  -- The loop of `LoadKeyFile`.
  unfoldable pub seed : Time → List KeyFileEntry → KeyStore → KeyStore
  seed now [] ks = ks
  seed now (entry ∷ entries) ks =
      seed now entries
        (if is_nil entry.id || is_nil entry.key then ks else add (seeded now entry) ks)

  -- `none` is an error; `unmarshal` is the YAML library.
  unfoldable pub load_key_file :
      (Text → Option (List KeyFileEntry)) → FileRead → Time → Option KeyStore
  load_key_file unmarshal not_exist now = some new_key_store
  load_key_file unmarshal unreadable now = none
  load_key_file unmarshal (contents data') now = elim (unmarshal data') [
    | none ↦ none
    | some entries ↦ some (seed now entries new_key_store)
  ]
