-- ===== src/Auth/Tests.antt =====
-- Runs of internal/middleware/apikey.go, internal/middleware/jwt.go and internal/store/store.go.
use gogateway.Base.{
  ◌++◌, ◌≡◌, ◌≢◌, ◌↔◌, refl, true, false, Option, none, some, List, [], ◌∷◌, is_nil, arith,
  if◌then◌else◌, Option-cases, inl, inr,
}
use gogateway.Base.Int.{pos}
use gogateway.Base.Text.{Text, text, text_eq, has_prefix, trim_prefix, drop_prefix}
use gogateway.Base.Maps.{lookup}
use gogateway.Config.{JwtConfig}
use gogateway.Http.{Header, get, canonical}
use gogateway.KeyStore.{ApiKey, KeyStore, KeyFileEntry, find, revoke, load_key_file, contents}
use gogateway.KeyStore.Loading.{last_with, find-load_key_file}
use gogateway.Auth.{bearer}
use gogateway.Auth.ApiKeys.{raw_key, valid, validate-revoke-ne-valid}
use gogateway.Auth.ApiKeys
use gogateway.Auth.Jwt
use gogateway.Auth.Jwt.{
  Key, TokenHead, KeyFunc, Token, Claims, string, hmac, secret, JwtAuth, new_jwt_auth,
  default_key_func, key_func_of, issuer_allowed, validate_value, forward_claims, string_of,
}
use gogateway.Auth.Jwt.Accepted.{
  IssuerFits, validate-eq-some_iff, Documented, Trusted, accepted_token-Trusted,
  get-forward_claims_user,
}

-- A stand-in for the digest.
abbrev digest : Text → Text
digest s = b'#' ∷ s

abbrev shop : ApiKey
shop = record {
  id = text "k1";
  key_hash = text "#key";
  service = text "shop";
  rate_tier = text "gold";
  created_at = pos 0;
  revoked = false;
}

abbrev ks : KeyStore
ks = record { keys = (text "#key", shop) ∷ [] }

abbrev with_key : Header
with_key = (text "X-Api-Key", text "key" ∷ []) ∷ []

abbrev with_token : Header
with_token = (text "Authorization", text "Bearer t" ∷ []) ∷ []

token_key : raw_key with_token ≡ text "t"
unfolding raw_key get canonical lookup text_eq has_prefix trim_prefix drop_prefix
token_key = refl

validate-revoke-ne-valid_example :
    ApiKeys.validate digest (revoke (text "#key") ks).0 with_key ≢ valid shop
unfolding raw_key get canonical lookup text_eq
validate-revoke-ne-valid_example =
    validate-revoke-ne-valid digest ks with_key (text "#key") shop refl

abbrev file_entry : KeyFileEntry
file_entry = record {
  id = text "k1";
  key = text "key";
  service = text "shop";
  rate_tier = text "gold";
}

abbrev read_file : Text → Option (List KeyFileEntry)
read_file s = some (file_entry ∷ [])

find-load_key_file_example :
    (loaded : KeyStore) × (load_key_file digest read_file (contents []) (pos 0) ≡ some loaded)
    × (find (text "#key") loaded ≡ last_with digest (pos 0) (text "#key") (file_entry ∷ []) none)
find-load_key_file_example =
    find-load_key_file digest read_file [] (file_entry ∷ []) (pos 0) (text "#key") refl

abbrev alice : Claims
alice = (text "sub", string (text "alice")) ∷ []

abbrev head_of : Text → Option TokenHead
head_of s = some (record { method = hmac; kid = none })

-- A library that finds every signature good.
abbrev parse : KeyFunc → Text → Option Token
parse f s = elim (f (record { method = hmac; kid = none })) [
  | none ↦ none
  | some key ↦ some (record { claims = some alice; valid = true })
]

abbrev Verifies : Key → Text → Type 0
Verifies key s = s ≡ s

parse-Documented : Documented parse head_of Verifies
parse-Documented = record { accepts = λ f s t parsed. go f s t parsed }
  where
    go :
        (f : KeyFunc) (s : Text) (t : Token)
        → parse f s ≡ some t
        → (hd : TokenHead) × (key : Key) × (head_of s ≡ some hd)
          × (f hd ≡ some key)
          × Verifies key s
    go f s t parsed = elim (Option-cases (f (record { method = hmac; kid = none }))) [
      | inl refused ↦ ground arith
      | inr (key, given) ↦ (record { method = hmac; kid = none }, key, refl, given, refl)
    ]

abbrev auth : JwtAuth
auth = record { hmac_secret = some (text "s"); rsa_public_keys = some []; key_func = none }

accepted : Jwt.validate parse auth with_token none ≡ some alice
unfolding Jwt.validate validate_value key_func_of default_key_func issuer_allowed get canonical
    lookup text_eq has_prefix trim_prefix drop_prefix
accepted = refl

abbrev acme_only : JwtConfig
acme_only = record { required = true; issuers = text "acme" ∷ [] }

validate-eq-some_iff_example :
    (Jwt.validate parse auth with_token (some acme_only) ≡ some alice) ↔ (
      (token : Text) × (get (text "Authorization") with_token ≡ bearer ++ token)
      × (parse (key_func_of auth) token ≡ some (record { claims = some alice; valid = true }))
      × IssuerFits (some acme_only) alice)
validate-eq-some_iff_example = validate-eq-some_iff parse auth with_token (some acme_only) alice

accepted_token-Trusted_example :
    (hd : TokenHead) × (key : Key) × (head_of
        (trim_prefix (get (text "Authorization") with_token) bearer)
      ≡ some hd)
    × Trusted auth hd key
    × Verifies key (trim_prefix (get (text "Authorization") with_token) bearer)
accepted_token-Trusted_example =
    accepted_token-Trusted parse head_of Verifies parse-Documented auth with_token none alice refl
      accepted

get-forward_claims_user_example :
    get (text "X-User-ID") (forward_claims (λ c. none) alice with_key) ≡ (
      if is_nil (string_of (lookup (text "sub") alice))
      then get (text "X-User-ID") with_key
      else string_of (lookup (text "sub") alice))
get-forward_claims_user_example = get-forward_claims_user (λ c. none) alice with_key
