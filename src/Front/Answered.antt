-- ===== src/Front/Answered.antt =====
-- The handler of internal/server/server.go keeps the request ID in what it answers itself, and in
-- the response and the request that it hands to the proxy.
use gogateway.Base.{
  ◌≡◌, refl, ◌∙◌, Bool, true, false, not, Option, none, some, if◌then◌else◌, is_nil, Bool-cases,
  Option-cases, inl, inr,
}
use gogateway.Base.Text.{Text, text, text_eq}
use gogateway.Base.Maps.{lookup}
use gogateway.Config.{Route, AuthConfig}
use gogateway.Http.{Request, Header, set, canonical}
use gogateway.KeyStore.{ApiKey}
use gogateway.Auth.ApiKeys
use gogateway.Auth.ApiKeys.{Validation, KeyError, valid, invalid}
use gogateway.Auth.Jwt
use gogateway.Auth.Jwt.{Claims, forward_claims, string_of}
use gogateway.Server.{Outside, Server}
use gogateway.Server.Recorder.{StatusRecorder}
use gogateway.Server.Authenticate.{
  Checked, authenticate, authenticate_with, authenticate_key, forward_key, jwt_required,
  api_key_required,
}
use gogateway.Front.Kept.{id_of, Carries, set-KeepsId, write_json-Carries}

set_other :
    (name value : Text) (h : Header)
    → text_eq (canonical name) (canonical (text "X-Request-Id")) ≡ false
    → id_of (set name value h) ≡ id_of h
set_other name value h other = set-KeepsId name value other h

id-forward_key : (key : ApiKey) (h : Header) → id_of (forward_key key h) ≡ id_of h
unfolding forward_key canonical text_eq
id-forward_key key h =
    set_other (text "X-API-Key-Tier") _ _ refl ∙ set_other (text "X-API-Key-ID") _ h refl

id-forward_claims :
    (json : Claims → Option Text) (claims : Claims) (h : Header)
    → id_of (forward_claims json claims h) ≡ id_of h
unfolding forward_claims canonical text_eq
id-forward_claims json claims h =
    let sub = string_of (lookup (text "sub") claims) in
    let named : id_of (if is_nil sub then h else set (text "X-User-ID") sub h) ≡ id_of h =
      elim (Bool-cases (is_nil sub)) [
        | inl nobody ↦ rw nobody refl
        | inr somebody ↦ rw somebody (set_other (text "X-User-ID") sub h refl)
      ] in
    elim (Option-cases (json claims)) [
      | inl failed ↦ rw (forward_claims, failed) named
      | inr (data', encoded) ↦
          rw (forward_claims, encoded) (set_other (text "X-User-Claims") data' _ refl ∙ named)
    ]

module _ (id : Text) where
  -- The checked request and the response have the ID.
  abbrev pub Marked : Checked → Type 0
  Marked c = (id_of c.request.header ≡ id) × Carries id c.recorder.response_writer

  Marked-if : (b : Bool) (t e : Checked) → Marked t → Marked e → Marked (if b then t else e)
  Marked-if true t e p q = p
  Marked-if false t e p q = q

  Marked-option :
      {A : Type 0} (o : Option A) (n : Checked) (f : A → Checked)
      → Marked n
      → ((a : A) → Marked (f a))
      → Marked (elim o as (λ (x : Option A). Checked) [ none ↦ n | some a ↦ f a ])
  Marked-option none n f p q = p
  Marked-option (some a) n f p q = q a

  Marked-validation :
      (v : Validation) (f : ApiKey → Checked) (n : KeyError → Checked)
      → ((key : ApiKey) → Marked (f key))
      → ((e : KeyError) → Marked (n e))
      → Marked (elim v as (λ (x : Validation). Checked) [ valid key ↦ f key | invalid e ↦ n e ])
  Marked-validation (valid key) f n p q = p key
  Marked-validation (invalid e) f n p q = q e

  module _ {F : Type 0} (out : Outside F) (s : Server F) (r : Request) (w : StatusRecorder)
      (asks : id_of r.header ≡ id) (carries : Carries id w.response_writer) where
    authenticate_key-Marked : (required : Bool) → Marked (authenticate_key out s required r w)
    unfolding authenticate_key
    authenticate_key-Marked required =
        Marked-if required _ _
          (Marked-validation (ApiKeys.validate out.sha256_hex s.key_store r.header) _ _
            (λ key. (id-forward_key key r.header ∙ asks, carries))
            (λ e. (asks, write_json-Carries id _ _ w carries)))
          (asks, write_json-Carries id _ _ w carries)

    authenticate_with-Marked : (auth : AuthConfig) → Marked (authenticate_with out s auth r w)
    unfolding authenticate_with
    authenticate_with-Marked auth =
        let by_key = authenticate_key-Marked (api_key_required auth.api_key) in
        Marked-if _ _ _ (asks, carries)
          (Marked-if (jwt_required auth.jwt) _ _
            (Marked-option (Jwt.validate out.parse_token s.jwt_auth r.header auth.jwt) _ _
              (Marked-if (not (api_key_required auth.api_key)) _ _
                (asks, write_json-Carries id _ _ w carries) by_key)
              (λ claims. (id-forward_claims out.claims_json claims r.header ∙ asks, carries)))
            by_key)

    pub authenticate-Marked : (route : Route) → Marked (authenticate out s route r w)
    unfolding authenticate
    authenticate-Marked route =
        Marked-option route.auth _ _ (asks, carries) (λ auth. authenticate_with-Marked auth)
