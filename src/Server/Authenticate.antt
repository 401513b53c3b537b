-- ===== src/Server/Authenticate.antt =====
-- `authenticate` of internal/server/server.go.
use gogateway.Base.{
  ◌≡◌, ◌↔◌, ◌⊎◌, refl, Bool, true, false, not, ◌&&◌, Option, none, some, if◌then◌else◌, Bool-cases,
  Option-cases, inl, inr, arith,
}
use gogateway.Base.Int.{pos}
use gogateway.Base.Text.{Text, text}
use gogateway.Config.{Route, AuthConfig, JwtConfig, ApiKeyConfig}
use gogateway.Http.{Header, set, Request}
use gogateway.KeyStore.{ApiKey}
use gogateway.Auth.ApiKeys
use gogateway.Auth.ApiKeys.{Validation, KeyError, valid, invalid}
use gogateway.Auth.Jwt
use gogateway.Auth.Jwt.{Claims, forward_claims}
use gogateway.Server.{Outside, Server}
use gogateway.Server.Recorder.{StatusRecorder, write_json}

-- The request and the recorder as the function leaves them, and its result.
pub record Checked : Type 0 where
  pub request : Request
  pub recorder : StatusRecorder
  pub passed : Bool

unfoldable pub jwt_required : Option JwtConfig → Bool
jwt_required none = false
jwt_required (some cfg) = cfg.required

unfoldable pub api_key_required : Option ApiKeyConfig → Bool
api_key_required none = false
api_key_required (some cfg) = cfg.required

unfoldable pub forward_key : ApiKey → Header → Header
forward_key key h = set (text "X-API-Key-Tier") key.rate_tier (set (text "X-API-Key-ID") key.id h)

Validation-cases :
    (v : Validation) → ((key : ApiKey) × (v ≡ valid key)) ⊎ ((e : KeyError) × (v ≡ invalid e))
Validation-cases (valid key) = inl (key, refl)
Validation-cases (invalid e) = inr (e, refl)

module _ {F : Type 0} (out : Outside F) (s : Server F) where
  abbrev pass : Header → Request → StatusRecorder → Checked
  pass h r w = record { request = record r { header = h }; recorder = w; passed = true }

  abbrev refuse : Text → Text → Request → StatusRecorder → Checked
  refuse error code r w = record {
    request = r;
    recorder = write_json (pos 401) (record { error = error; code = code }) w;
    passed = false;
  }

  -- The API key, as the fallback or the only way.
  unfoldable pub authenticate_key : Bool → Request → StatusRecorder → Checked
  authenticate_key required r w =
      let refused = refuse (text "authentication required") (text "AUTH_REQUIRED") r w in
      if required
      then elim (ApiKeys.validate out.sha256_hex s.key_store r.header) [
        | valid key ↦ pass (forward_key key r.header) r w
        | invalid e ↦ refused
      ]
      else refused

  unfoldable pub authenticate_with : AuthConfig → Request → StatusRecorder → Checked
  authenticate_with auth r w =
      let by_jwt = jwt_required auth.jwt in
      let by_key = api_key_required auth.api_key in
      if not by_jwt && not by_key
      then pass r.header r w
      else if by_jwt
      then elim (Jwt.validate out.parse_token s.jwt_auth r.header auth.jwt) [
        | some claims ↦ pass (forward_claims out.claims_json claims r.header) r w
        | none ↦
            if not by_key
            then refuse (text "invalid or missing JWT token") (text "JWT_INVALID") r w
            else authenticate_key by_key r w
      ]
      else authenticate_key by_key r w

  unfoldable pub authenticate : Route → Request → StatusRecorder → Checked
  authenticate route r w = elim route.auth [
    | none ↦ pass r.header r w
    | some auth ↦ authenticate_with auth r w
  ]

  -- The route asks for nothing, or the request has a token or a key of a kind that the route asks
  -- for.
  abbrev pub MayPass : AuthConfig → Header → Type 0
  MayPass auth h =
      ((jwt_required auth.jwt ≡ false) × (api_key_required auth.api_key ≡ false))
      ⊎ ((jwt_required auth.jwt ≡ true)
          × ((claims : Claims) × (Jwt.validate out.parse_token s.jwt_auth h auth.jwt
                ≡ some claims)))
      ⊎ ((api_key_required auth.api_key ≡ true)
          × ((key : ApiKey) × (ApiKeys.validate out.sha256_hex s.key_store h ≡ valid key)))

  authenticate_key_iff :
      (required : Bool) (r : Request) (w : StatusRecorder)
      → ((authenticate_key required r w).passed ≡ true) ↔ (
          (required ≡ true)
          × ((key : ApiKey) × (ApiKeys.validate out.sha256_hex s.key_store r.header ≡ valid key)))
  unfolding authenticate_key
  authenticate_key_iff required r w =
      elim (Validation-cases (ApiKeys.validate out.sha256_hex s.key_store r.header)) [
        | inl (key, accepted) ↦ rw accepted (λ p. (ground arith, (key, refl)), λ m. ground arith)
        | inr (e, refused) ↦
            rw refused (λ p. ground arith, λ (required', (key, accepted)). ground arith)
      ]

  authenticate_with_iff :
      (auth : AuthConfig) (r : Request) (w : StatusRecorder)
      → ((authenticate_with auth r w).passed ≡ true) ↔ MayPass auth r.header
  unfolding authenticate_with
  authenticate_with_iff auth r w =
      let by_key = authenticate_key_iff (api_key_required auth.api_key) r w in
      elim (Option-cases (Jwt.validate out.parse_token s.jwt_auth r.header auth.jwt)) [
        | inl refused ↦ (
          λ p. elim (Bool-cases (jwt_required auth.jwt)) [
            | inl j ↦ inr (inr (by_key.0 (ground arith)))
            | inr j ↦ elim (Bool-cases (api_key_required auth.api_key)) [
              | inl k ↦ inr (inr (by_key.0 (ground arith)))
              | inr k ↦ inl (j, k)
            ]
          ],
          λ m. elim m [
            | inl none_required ↦ ground arith
            | inr (inl (j, (claims, accepted))) ↦ ground arith
            | inr (inr keyed) ↦ let p = by_key.1 keyed in ground arith
          ],
        )
        | inr (claims, accepted) ↦ (
          λ p. elim (Bool-cases (jwt_required auth.jwt)) [
            | inl j ↦ inr (inl (j, (claims, accepted)))
            | inr j ↦ elim (Bool-cases (api_key_required auth.api_key)) [
              | inl k ↦ inr (inr (by_key.0 (ground arith)))
              | inr k ↦ inl (j, k)
            ]
          ],
          λ m. elim m [
            | inl none_required ↦ ground arith
            | inr (inl tokened) ↦ ground arith
            | inr (inr keyed) ↦ let p = by_key.1 keyed in ground arith
          ],
        )
      ]

  -- A request passes the authentication of a route exactly when the route has no authentication
  -- section, or requires nothing in it, or requires a token and the request has an acceptable one,
  -- or requires an API key and the request has a valid one: with both required, one is enough.
  pub authenticate-passed_iff :
      (route : Route) (r : Request) (w : StatusRecorder)
      → ((authenticate route r w).passed ≡ true) ↔ (
          (route.auth ≡ none)
          ⊎ ((auth : AuthConfig) × (route.auth ≡ some auth) × MayPass auth r.header))
  unfolding authenticate
  authenticate-passed_iff route r w = elim (Option-cases route.auth) [
    | inl absent ↦ (λ p. inl absent, λ m. ground arith)
    | inr (auth, present) ↦ (
      λ p. inr (auth, present, (authenticate_with_iff auth r w).0 (ground arith)),
      λ m. elim m [
        | inl absent ↦ ground arith
        | inr (auth', present', may) ↦
            let p = (authenticate_with_iff auth' r w).1 may in ground arith
      ],
    )
  ]
