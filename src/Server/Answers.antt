-- ===== src/Server/Answers.antt =====
-- With which code internal/server/server.go refuses a request.
use gogateway.Base.{
  ◌≡◌, ◌⊎◌, refl, Bool, true, false, not, Option, none, some, if◌then◌else◌, inl, inr,
}
use gogateway.Base.Int.{ℤ, pos}
use gogateway.Config.{Route, RateLimitCfg, AuthConfig}
use gogateway.Http.{Request}
use gogateway.Limiter.{Verdict}
use gogateway.KeyStore.{ApiKey}
use gogateway.Auth.ApiKeys
use gogateway.Auth.ApiKeys.{Validation, KeyError, valid, invalid}
use gogateway.Auth.Jwt
use gogateway.Server.{Outside, Server, Readings}
use gogateway.Server.Recorder.{
  StatusRecorder, ErrorBody, write_json, Fresh, perform, perform_all, perform_all-Fresh,
}
use gogateway.Server.Authenticate.{
  Checked, authenticate, authenticate_with, authenticate_key, jwt_required, api_key_required,
}
use gogateway.Server.RateLimit.{limit_by, report_limit, limit_headers}
use gogateway.Server.Resolved.{
  Resolved, unavailable, no_pick, unguarded, goes_on, turned_away, resolve-Resolved,
}
use gogateway.Server.Handler.{
  Admission, answered, panicked, forwarded, circuit_open, no_upstream, resolve,
}

pub write_json-Fresh :
    (code : ℤ) (body : ErrorBody) (w : StatusRecorder)
    → Fresh w
    → (write_json code body w).status_code ≡ code
unfolding write_json
write_json-Fresh code body w fresh = (perform_all-Fresh _ w fresh).0

-- The recorder is fresh if the check passed, and has the code 401 if not.
abbrev pub Judged : Checked → Type 0
Judged c =
    ((c.passed ≡ true) × Fresh c.recorder)
    ⊎ ((c.passed ≡ false) × (c.recorder.status_code ≡ pos 401))

Judged-if : (b : Bool) (t e : Checked) → Judged t → Judged e → Judged (if b then t else e)
Judged-if true t e p q = p
Judged-if false t e p q = q

Judged-option :
    {A : Type 0} (o : Option A) (n : Checked) (f : A → Checked)
    → Judged n
    → ((a : A) → Judged (f a))
    → Judged (elim o as (λ (x : Option A). Checked) [ none ↦ n | some a ↦ f a ])
Judged-option none n f p q = p
Judged-option (some a) n f p q = q a

Judged-validation :
    (v : Validation) (f : ApiKey → Checked) (n : KeyError → Checked)
    → ((key : ApiKey) → Judged (f key))
    → ((e : KeyError) → Judged (n e))
    → Judged (elim v as (λ (x : Validation). Checked) [ valid key ↦ f key | invalid e ↦ n e ])
Judged-validation (valid key) f n p q = p key
Judged-validation (invalid e) f n p q = q e

module _ {F : Type 0} (out : Outside F) (s : Server F) where
  authenticate_key-Judged :
      (required : Bool) (r : Request) (w : StatusRecorder)
      → Fresh w
      → Judged (authenticate_key out s required r w)
  unfolding authenticate_key
  authenticate_key-Judged required r w fresh =
      Judged-if required _ _
        (Judged-validation (ApiKeys.validate out.sha256_hex s.key_store r.header) _ _
          (λ key. inl (refl, fresh)) (λ e. inr (refl, write_json-Fresh _ _ w fresh)))
        (inr (refl, write_json-Fresh _ _ w fresh))

  authenticate_with-Judged :
      (auth : AuthConfig) (r : Request) (w : StatusRecorder)
      → Fresh w
      → Judged (authenticate_with out s auth r w)
  unfolding authenticate_with
  authenticate_with-Judged auth r w fresh =
      let by_key = authenticate_key-Judged (api_key_required auth.api_key) r w fresh in
      Judged-if _ _ _ (inl (refl, fresh)) (
        Judged-if (jwt_required auth.jwt) _ _
          (Judged-option (Jwt.validate out.parse_token s.jwt_auth r.header auth.jwt) _ _
            (Judged-if (not (api_key_required auth.api_key)) _ _
              (inr (refl, write_json-Fresh _ _ w fresh)) by_key)
            (λ claims. inl (refl, fresh)))
          by_key)

  pub authenticate-Judged :
      (route : Route) (r : Request) (w : StatusRecorder)
      → Fresh w
      → Judged (authenticate out s route r w)
  unfolding authenticate
  authenticate-Judged route r w fresh =
      Judged-option route.auth _ _ (inl (refl, fresh))
        (λ auth. authenticate_with-Judged auth r w fresh)

-- What holds of the recorder if the request is answered.
abbrev pub IfAnswered : (StatusRecorder → Type 0) → Admission → Type 0
IfAnswered P (answered w) = P w
IfAnswered P (panicked w) = Unit
IfAnswered P (forwarded f) = Unit

pub IfAnswered-if :
    {A : Type 0} (P : StatusRecorder → Type 0) (c : Bool) (t e : A × Admission)
    → (c ≡ true → IfAnswered P t.1)
    → (c ≡ false → IfAnswered P e.1)
    → IfAnswered P (if c then t else e).1
IfAnswered-if P true t e p q = p refl
IfAnswered-if P false t e p q = q refl

pub IfAnswered-map :
    (P Q : StatusRecorder → Type 0) (a : Admission)
    → ((w : StatusRecorder) → P w → Q w)
    → IfAnswered P a
    → IfAnswered Q a
IfAnswered-map P Q (answered w) h p = h w p
IfAnswered-map P Q (panicked w) h p = tt
IfAnswered-map P Q (forwarded f) h p = tt

module _ {F : Type 0} (out : Outside F) (rd : Readings) (route : Route) where
  abbrev pub Limited : Server F × StatusRecorder × Bool → Type 0
  Limited t = ((t.2 ≡ true) × Fresh t.1) ⊎ ((t.2 ≡ false) × (t.1.status_code ≡ pos 429))

  Limited-if :
      (c : Bool) (t e : Server F × StatusRecorder × Bool)
      → Limited t
      → Limited e
      → Limited (if c then t else e)
  Limited-if true t e p q = p
  Limited-if false t e p q = q

  report_limit-Limited :
      (lim : RateLimitCfg) (v : Verdict) (w : StatusRecorder) (s : Server F)
      → Fresh w
      → Limited (report_limit out rd route lim v w s)
  unfolding report_limit limit_headers perform_all perform
  report_limit-Limited lim v w s fresh =
      Limited-if v.allowed _ _ (inl (refl, fresh)) (inr (refl, write_json-Fresh _ _ _ fresh))

  pub limit_by-Limited :
      (o : Option RateLimitCfg) (r : Request) (w : StatusRecorder) (s : Server F)
      → Fresh w
      → Limited (limit_by out o rd route r w s)
  unfolding limit_by
  limit_by-Limited none r w s fresh = inl (refl, fresh)
  limit_by-Limited (some lim) r w s fresh =
      Limited-if lim.enabled _ _ (report_limit-Limited lim _ w _ fresh) (inl (refl, fresh))

  abbrev pub Unavailable : StatusRecorder → Type 0
  Unavailable w = w.status_code ≡ pos 503

  Resolved-IfAnswered :
      (r : Request) (w : StatusRecorder) (s : Server F) (t : Server F × Admission)
      → Fresh w
      → Resolved out rd route r w s t
      → IfAnswered Unavailable t.1
  unfolding no_upstream circuit_open
  Resolved-IfAnswered r w s _ fresh unavailable = write_json-Fresh _ _ w fresh
  Resolved-IfAnswered r w s _ fresh no_pick = tt
  Resolved-IfAnswered r w s _ fresh (unguarded target lb open') = tt
  Resolved-IfAnswered r w s _ fresh (goes_on target lb cfg guarded goes) = tt
  Resolved-IfAnswered r w s _ fresh (turned_away target lb cfg guarded stays) =
      write_json-Fresh _ _ w fresh

  pub resolve-IfAnswered :
      (r : Request) (w : StatusRecorder) (s : Server F)
      → Fresh w
      → IfAnswered Unavailable (resolve out rd route r w s).1
  resolve-IfAnswered r w s fresh =
      Resolved-IfAnswered r w s _ fresh (resolve-Resolved out rd route r w s)
