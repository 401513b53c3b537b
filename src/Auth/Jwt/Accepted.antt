-- ===== src/Auth/Jwt/Accepted.antt =====
-- Which tokens internal/middleware/jwt.go accepts, and what it forwards of them.
use gogateway.Base.{
  ◌≡◌, ◌↔◌, ◌⊎◌, ◌++◌, ap, sym, ◌∙◌, refl, true, false, Option, none, some, [], ◌∷◌, is_nil,
  if◌then◌else◌, Option-cases, inl, inr, arith,
}
use gogateway.Base.Text.{
  Text, text, text_eq, has_prefix, trim_prefix, has_prefix_split, has_prefix-append,
  drop_prefix-append,
}
use gogateway.Router.Matches.{Member, contains_iff}
use gogateway.Base.Maps.{Map, lookup}
use gogateway.Config.{JwtConfig}
use gogateway.Http.{Header, get, set, get-set, canonical}
use gogateway.Auth.{bearer}
use gogateway.Auth.Jwt.{
  Method, Key, secret, public_key, hmac, rsa, other_method, TokenHead, Claims, Token, KeyFunc,
  JwtAuth, or_empty, default_key_func, key_func_of, string_of, issuer_allowed, validate_value,
  validate, forward_claims,
}

-- The route names no issuers, or that of the claims.
abbrev pub IssuerFits : Option JwtConfig → Claims → Type 0
IssuerFits none claims = Unit
IssuerFits (some cfg) claims =
    (cfg.issuers ≡ []) ⊎ Member (string_of (lookup (text "iss") claims)) cfg.issuers

issuer_allowed_iff :
    (cfg : Option JwtConfig) (claims : Claims)
    → (issuer_allowed cfg claims ≡ true) ↔ IssuerFits cfg claims
unfolding issuer_allowed
issuer_allowed_iff none claims = (λ e. tt, λ u. refl)
issuer_allowed_iff (some cfg) claims =
    ground (arith, contains_iff cfg.issuers (string_of (lookup (text "iss") claims)))

trim_prefix_split : (s p : Text) → has_prefix s p ≡ true → p ++ trim_prefix s p ≡ s
unfolding trim_prefix
trim_prefix_split s p h = rw h (has_prefix_split s p h)

trim_prefix-append : (p s : Text) → trim_prefix (p ++ s) p ≡ s
unfolding trim_prefix
trim_prefix-append p s = rw has_prefix-append (drop_prefix-append p s)

module _ (parse : KeyFunc → Text → Option Token) where
  validate_value-eq-some_iff :
      (j : JwtAuth) (auth : Text) (cfg : Option JwtConfig) (claims : Claims)
      → (validate_value parse j auth cfg ≡ some claims) ↔ (
          (has_prefix auth bearer ≡ true)
          × (parse (key_func_of j) (trim_prefix auth bearer)
              ≡ some (record { claims = some claims; valid = true }))
          × (issuer_allowed cfg claims ≡ true))
  unfolding validate_value
  validate_value-eq-some_iff j [] cfg claims = unfold has_prefix in ground arith
  validate_value-eq-some_iff j (c ∷ s) cfg claims = ground arith

  -- A request is accepted with some claims exactly when its `Authorization` header is "Bearer "
  -- followed by a token that the library parses, with a key of the key function, to a valid token
  -- with these claims, and their issuer is in the route's list, if the route has one that is not
  -- empty. The issuer of claims without a string `iss` is the empty one.
  pub validate-eq-some_iff :
      (j : JwtAuth) (h : Header) (cfg : Option JwtConfig) (claims : Claims)
      → (validate parse j h cfg ≡ some claims) ↔ (
          (token : Text) × (get (text "Authorization") h ≡ bearer ++ token)
          × (parse (key_func_of j) token ≡ some (record { claims = some claims; valid = true }))
          × IssuerFits cfg claims)
  unfolding validate
  validate-eq-some_iff j h cfg claims =
      let auth = get (text "Authorization") h in
      let (there, back) = validate_value-eq-some_iff j auth cfg claims in
      let (fits, allowed) = issuer_allowed_iff cfg claims in
      (
        λ accepted.
            let (prefixed, parsed, issued) = there accepted in
            (
              trim_prefix auth bearer,
              sym (trim_prefix_split auth bearer prefixed),
              parsed,
              fits issued,
            ),
        λ (token, e, parsed, issued).
            let starts =
              ap (λ (a : Text). has_prefix a bearer) e ∙ has_prefix-append bearer token in
            let rest =
              ap (λ (a : Text). trim_prefix a bearer) e ∙ trim_prefix-append bearer token in
            back (starts, ap (λ (s : Text). parse (key_func_of j) s) rest ∙ parsed, allowed issued),
      )

-- What `jwt.Parse` documents: it reads the token's head, asks the key function for the key, and
-- succeeds only if that gives a key with which the signature verifies.
pub record Documented (parse : KeyFunc → Text → Option Token) (head : Text → Option TokenHead)
    (signed : Key → Text → Type 0) : Type 0 where
  pub accepts :
      (f : KeyFunc) (s : Text) (t : Token)
      → parse f s ≡ some t
      → (hd : TokenHead) × (key : Key) × (head s ≡ some hd) × (f hd ≡ some key) × signed key s

-- The key is the gateway's own for the token's method: the secret for HMAC, and for RSA the public
-- key registered for the token's key ID, which is not empty.
pub data Trusted (j : JwtAuth) (hd : TokenHead) (key : Key) : Type 0 where
  by_secret :
      (s : Text) → hd.method ≡ hmac → j.hmac_secret ≡ some s → key ≡ secret s → Trusted j hd key
  by_public_key :
      (keys : Map Text) (k : Text)
      → hd.method ≡ rsa
      → is_nil (or_empty hd.kid) ≡ false
      → j.rsa_public_keys ≡ some keys
      → lookup (or_empty hd.kid) keys ≡ some k
      → key ≡ public_key k
      → Trusted j hd key

default_key_func-Trusted :
    (j : JwtAuth) (hd : TokenHead) (key : Key) → default_key_func j hd ≡ some key → Trusted j hd key
unfolding default_key_func
default_key_func-Trusted j hd key given = go hd.method refl
  where
    go : (m : Method) → hd.method ≡ m → Trusted j hd key
    go hmac e = elim (Option-cases j.hmac_secret) [
      | inl absent ↦ ground arith
      | inr (s, there) ↦ by_secret s e there (ground arith)
    ]
    go rsa e = elim (Option-cases j.rsa_public_keys) [
      | inl absent ↦ ground arith
      | inr (keys, there) ↦ elim (Option-cases (lookup (or_empty hd.kid) keys)) [
        | inl unknown ↦ ground arith
        | inr (k, known) ↦ by_public_key keys k e (ground arith) there known (ground arith)
      ]
    ]
    go other_method e = ground arith

-- Without a key function of its own the gateway accepts a token only if it is signed with a key that
-- is trusted for the token's own method: an RSA public key never serves as an HMAC secret, and no
-- other method is accepted. The token library does what it documents.
pub accepted_token-Trusted :
    (parse : KeyFunc → Text → Option Token) (head : Text → Option TokenHead)
    (signed : Key → Text → Type 0) (doc : Documented parse head signed) (j : JwtAuth) (h : Header)
    (cfg : Option JwtConfig) (claims : Claims)
    → j.key_func ≡ none
    → validate parse j h cfg ≡ some claims
    → (hd : TokenHead) × (key : Key) × (head (trim_prefix (get (text "Authorization") h) bearer)
        ≡ some hd)
      × Trusted j hd key
      × signed key (trim_prefix (get (text "Authorization") h) bearer)
unfolding key_func_of validate
accepted_token-Trusted parse head signed doc j h cfg claims default accepted =
    let (prefixed, parsed, issued) = (validate_value-eq-some_iff parse j _ cfg claims).0 accepted in
    let (hd, key, read, given, verified) = doc.accepts _ _ _ parsed in
    (hd, key, read, default_key_func-Trusted j hd key (ground arith), verified)

get_user-set_claims :
    (value : Text) (h : Header)
    → get (text "X-User-ID") (set (text "X-User-Claims") value h) ≡ get (text "X-User-ID") h
unfolding canonical text_eq
get_user-set_claims value h = get-set (text "X-User-Claims") (text "X-User-ID") value h

get_user-set_user :
    (value : Text) (h : Header) → get (text "X-User-ID") (set (text "X-User-ID") value h) ≡ value
unfolding canonical text_eq
get_user-set_user value h = get-set (text "X-User-ID") (text "X-User-ID") value h

-- The user ID that upstream services receive is the token's subject; if the token has none it is
-- whatever the client itself put into the header.
pub get-forward_claims_user :
    (json : Claims → Option Text) (claims : Claims) (h : Header)
    → get (text "X-User-ID") (forward_claims json claims h) ≡ (
        if is_nil (string_of (lookup (text "sub") claims))
        then get (text "X-User-ID") h
        else string_of (lookup (text "sub") claims))
unfolding forward_claims
get-forward_claims_user json claims h =
    let sub = string_of (lookup (text "sub") claims) in
    let user = get_user-set_user sub h in
    elim (Option-cases (json claims)) [
      | inl failed ↦ ground arith
      | inr (value, made) ↦ ground (
        arith,
        get_user-set_claims value h,
        get_user-set_claims value (set (text "X-User-ID") sub h),
      )
    ]
