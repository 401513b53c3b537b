-- ===== src/Auth/ApiKeys.antt =====
-- internal/middleware/apikey.go
use gogateway.Base.{◌≡◌, ◌≢◌, ◌↔◌, false, none, some, is_nil, if◌then◌else◌, arith}
use gogateway.Base.Text.{Text, text, has_prefix, trim_prefix, text_eq_iff}
use gogateway.Http.{Header, get}
use gogateway.KeyStore.{ApiKey, KeyStore, find, revoke}
use gogateway.KeyStore.Loading.{find-revoke}
use gogateway.Auth.{bearer}

pub data KeyError : Type 0 where
  missing unknown key_revoked : KeyError

pub data Validation : Type 0 where
  valid : ApiKey → Validation
  invalid : KeyError → Validation

-- The key that the request carries, empty if it carries none.
unfoldable pub raw_key : Header → Text
raw_key h =
    let key = get (text "X-API-Key") h in
    let auth = get (text "Authorization") h in
    if is_nil key then (if has_prefix auth bearer then trim_prefix auth bearer else key) else key

module _ (sha256_hex : Text → Text) where
  unfoldable pub validate : KeyStore → Header → Validation
  validate ks h =
      let raw = raw_key h in
      if is_nil raw then invalid missing else elim (find (sha256_hex raw) ks) [
        | none ↦ invalid unknown
        | some key ↦ if key.revoked then invalid key_revoked else valid key
      ]

  -- A request is authenticated as a key exactly when it carries a text whose hash the store has for
  -- that key, and the key is not revoked.
  validate-eq-valid_iff :
      (ks : KeyStore) (h : Header) (key : ApiKey)
      → (validate ks h ≡ valid key) ↔ (
          (is_nil (raw_key h) ≡ false)
          × (find (sha256_hex (raw_key h)) ks ≡ some key)
          × (key.revoked ≡ false))
  unfolding validate
  validate-eq-valid_iff ks h key = ground arith

  -- Once a hash is revoked, no request that carries a key with this hash is authenticated.
  pub validate-revoke-ne-valid :
      (ks : KeyStore) (h : Header) (hash : Text) (key : ApiKey)
      → sha256_hex (raw_key h) ≡ hash
      → validate (revoke hash ks).0 h ≢ valid key
  unfolding validate
  validate-revoke-ne-valid ks h hash key same accepted = ground (
    arith,
    find-revoke hash (sha256_hex (raw_key h)) ks,
    text_eq_iff hash (sha256_hex (raw_key h)),
  )

  -- Revoking a hash changes no answer to a request that carries a key with another hash.
  validate-revoke_other :
      (ks : KeyStore) (h : Header) (hash : Text)
      → sha256_hex (raw_key h) ≢ hash
      → validate (revoke hash ks).0 h ≡ validate ks h
  unfolding validate
  validate-revoke_other ks h hash other = ground (
    arith,
    find-revoke hash (sha256_hex (raw_key h)) ks,
    text_eq_iff hash (sha256_hex (raw_key h)),
  )
