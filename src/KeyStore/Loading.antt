-- ===== src/KeyStore/Loading.antt =====
-- Which keys internal/store/store.go knows.
use mathlib.Core.Option
use gogateway.Base.{
  ◌≡◌, refl, ap, ◌∙◌, true, ◌||◌, Option, none, some, List, [], ◌∷◌, is_nil, if◌then◌else◌,
  Bool-cases, Option-cases, inl, inr, arith,
}
use gogateway.Base.Clock.{Time}
use gogateway.Base.Text.{Text, text_eq, text_eq_iff}
use gogateway.Base.Maps.{lookup, lookup-insert}
use gogateway.KeyStore.{
  ApiKey, KeyStore, new_key_store, find, add, revoke, KeyFileEntry, seeded, seed, load_key_file,
  contents,
}

find-add :
    (hash : Text) (key : ApiKey) (ks : KeyStore)
    → find hash (add key ks) ≡ (if text_eq key.key_hash hash then some key else find hash ks)
unfolding find add
find-add hash key ks = lookup-insert key.key_hash hash key ks.keys

pub find-revoke :
    (hash j : Text) (ks : KeyStore)
    → find j (revoke hash ks).0 ≡ (
        if text_eq hash j
        then Option.map (λ (k : ApiKey). record k { revoked = true }) (find hash ks)
        else find j ks)
unfolding find revoke
find-revoke hash j ks = elim (Option-cases (lookup hash ks.keys)) [
  | inl absent ↦ ground (arith, text_eq_iff hash j)
  | inr (k, present) ↦
      ground (arith, text_eq_iff hash j, lookup-insert hash j (record k { revoked = true }) ks.keys)
]

module _ (sha256_hex : Text → Text) (now : Time) where
  -- The last entry of the file with an ID and a key whose hash is the given one.
  abbrev pub last_with : Text → List KeyFileEntry → Option ApiKey → Option ApiKey
  last_with hash [] before = before
  last_with hash (entry ∷ entries) before = last_with hash entries (
      if is_nil entry.id || is_nil entry.key
      then before
      else if text_eq (sha256_hex entry.key) hash
      then some (seeded sha256_hex now entry)
      else before)

  find-seed :
      (hash : Text) (entries : List KeyFileEntry) (ks : KeyStore)
      → find hash (seed sha256_hex now entries ks) ≡ last_with hash entries (find hash ks)
  unfolding seed
  find-seed hash [] ks = refl
  find-seed hash (entry ∷ entries) ks = elim (Bool-cases (is_nil entry.id || is_nil entry.key)) [
    | inl skip ↦ rw skip (find-seed hash entries ks)
    | inr use' ↦
        rw use' (rw (find-seed hash entries (add (seeded sha256_hex now entry) ks), find-add))
  ]

-- After a key file is loaded, the key that the store has for a hash is the one of the last entry
-- with this hash, of the entries that have an ID and a key.
pub find-load_key_file :
    (sha256_hex : Text → Text) (unmarshal : Text → Option (List KeyFileEntry)) (file : Text)
    (entries : List KeyFileEntry) (now : Time) (hash : Text)
    → unmarshal file ≡ some entries
    → (ks : KeyStore) × (load_key_file sha256_hex unmarshal (contents file) now ≡ some ks)
      × (find hash ks ≡ last_with sha256_hex now hash entries none)
unfolding load_key_file
find-load_key_file sha256_hex unmarshal file entries now hash parsed = (
  seed sha256_hex now entries new_key_store,
  rw (parsed, load_key_file),
  find-seed sha256_hex now hash entries new_key_store
      ∙ ap (last_with sha256_hex now hash entries) (unfold find new_key_store lookup in refl),
)
