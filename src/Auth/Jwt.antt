-- ===== src/Auth/Jwt.antt =====
-- internal/middleware/jwt.go. The token library is a parameter: `parse` takes a key function and a
-- token string. RSA keys and HMAC secrets are opaque.
pub mod Accepted
use gogateway.Base.{
  ◌≡◌, ◌≢◌, ◌↔◌, ◌⊎◌, refl, Bool, true, false, not, ◌&&◌, Option, none, some, List, [], ◌∷◌, ◌++◌,
  is_nil, if◌then◌else◌, Bool-cases, Option-cases, inl, inr, arith,
}
use gogateway.Base.Text.{Text, text, has_prefix, trim_prefix}
use gogateway.Base.Maps.{Map, lookup, insert}
use gogateway.Config.{JwtConfig}
use gogateway.Http.{Header, get, set}
use gogateway.Router.{contains}
use gogateway.Auth.{bearer}

-- A verification key: the shared secret, or the public key of a key ID.
pub data Key : Type 0 where
  secret : Text → Key
  public_key : Text → Key

-- `token.Method`
pub data Method : Type 0 where
  hmac rsa other_method : Method

-- What the key function reads of a token: the signing method, and the `kid` header if it is a
-- string.
pub record TokenHead : Type 0 where
  pub method : Method
  pub kid : Option Text

-- A claim: a string, or any other JSON value.
pub data Claim : Type 0 where
  string : Text → Claim
  other_value : Text → Claim

abbrev pub Claims : Type 0
Claims = Map Claim

-- The token that `jwt.Parse` returns: its claims, if they are `MapClaims`, and `Valid`.
pub record Token : Type 0 where
  pub claims : Option Claims
  pub valid : Bool

-- `none` is an error of the key function.
abbrev pub KeyFunc : Type 0
KeyFunc = TokenHead → Option Key

pub record JwtAuth : Type 0 where
  -- nil, or the secret
  pub hmac_secret : Option Text
  -- nil, or the map by key ID
  pub rsa_public_keys : Option (Map Text)
  pub key_func : Option KeyFunc

unfoldable pub new_jwt_auth : Option Text → JwtAuth
new_jwt_auth s = record { hmac_secret = s; rsa_public_keys = some []; key_func = none }

unfoldable pub add_rsa_key : Text → Text → JwtAuth → JwtAuth
add_rsa_key kid key j = record j {
  rsa_public_keys = some (insert kid key (elim j.rsa_public_keys [ none ↦ [] | some m ↦ m ]));
}

abbrev pub or_empty : Option Text → Text
or_empty none = []
or_empty (some s) = s

unfoldable pub default_key_func : JwtAuth → KeyFunc
default_key_func j token = elim token.method [
  | hmac ↦ elim j.hmac_secret [ none ↦ none | some s ↦ some (secret s) ]
  | rsa ↦ elim j.rsa_public_keys [
    | none ↦ none
    | some keys ↦
        let kid = or_empty token.kid in
        if is_nil kid
        then none
        else elim (lookup kid keys) [ none ↦ none | some k ↦ some (public_key k) ]
  ]
  | other_method ↦ none
]

unfoldable pub key_func_of : JwtAuth → KeyFunc
key_func_of j = elim j.key_func [ none ↦ default_key_func j | some f ↦ f ]

-- claims[name].(string), or ""
abbrev pub string_of : Option Claim → Text
string_of none = []
string_of (some (string s)) = s
string_of (some (other_value v)) = []

unfoldable pub issuer_allowed : Option JwtConfig → Claims → Bool
issuer_allowed none claims = true
issuer_allowed (some cfg) claims =
    if is_nil cfg.issuers
    then true
    else contains cfg.issuers (string_of (lookup (text "iss") claims))

module _ (parse : KeyFunc → Text → Option Token) where
  -- `Validate` of the value of the `Authorization` header; `none` is an error.
  unfoldable pub validate_value : JwtAuth → Text → Option JwtConfig → Option Claims
  validate_value j auth cfg =
      if is_nil auth
      then none
      else if not (has_prefix auth bearer)
      then none
      else elim (parse (key_func_of j) (trim_prefix auth bearer)) [
        | none ↦ none
        | some token ↦ elim token.claims [
          | none ↦ none
          | some claims ↦
              if not token.valid
              then none
              else if issuer_allowed cfg claims
              then some claims
              else none
        ]
      ]

  unfoldable pub validate : JwtAuth → Header → Option JwtConfig → Option Claims
  validate j h cfg = validate_value j (get (text "Authorization") h) cfg

-- `json` is the encoding of the claims by encoding/json, if it succeeds.
unfoldable pub forward_claims : (Claims → Option Text) → Claims → Header → Header
forward_claims json claims h =
    let sub = string_of (lookup (text "sub") claims) in
    let named = if is_nil sub then h else set (text "X-User-ID") sub h in
    elim (json claims) [ none ↦ named | some data' ↦ set (text "X-User-Claims") data' named ]
