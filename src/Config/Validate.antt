-- ===== src/Config/Validate.antt =====
-- `Load` and `validate` of internal/config/config.go. `validate` writes its defaults into the
-- configuration that it is given, also when it then returns an error.
mod Tests
use mathlib.Core.Path.{subst}
use gogateway.Base.{
  ℕ, ◌+◌, ◌≡◌, ◌≢◌, ◌↔◌, ◌⊎◌, refl, ap, Bool, true, false, Option, none, some, List, [], ◌∷◌,
  is_nil, All, if◌then◌else◌, Bool-cases, Option-cases, inl, inr, arith,
}
use gogateway.Base.Int.{ℤ, pos, negsuc, pos_part, neg_part, leb_ℤ, ◌<ℤ◌}
use gogateway.Base.Text.{Text, text, text_eq}
use gogateway.Config.{Config, GatewayConfig, Route, Upstream}

pub data ConfigError : Type 0 where
  listen_required no_routes : ConfigError
  id_required path_required no_upstreams : ℕ → ConfigError
  url_required : ℕ → ℕ → ConfigError

-- The inner loop, over the upstreams of route `i` from the `j`-th on; `none` is no error.
unfoldable pub check_upstreams : ℕ → ℕ → List Upstream → Option ConfigError
check_upstreams i j [] = none
check_upstreams i j (u ∷ us) =
    let rest = check_upstreams i (j + 1) us in
    if is_nil u.url then some (url_required i j) else rest

unfoldable pub check_route : ℕ → Route → Option ConfigError
check_route i r =
    if is_nil r.id
    then some (id_required i)
    else if is_nil r.path
    then some (path_required i)
    else if is_nil r.upstreams
    then some (no_upstreams i)
    else check_upstreams i 0 r.upstreams

unfoldable pub check_routes : ℕ → List Route → Option ConfigError
check_routes i [] = none
check_routes i (r ∷ rs) =
    let rest = check_routes (i + 1) rs in elim (check_route i r) [ some e ↦ some e | none ↦ rest ]

abbrev pub default_timeout : ℤ
default_timeout = pos 15000000000

unfoldable pub with_defaults : GatewayConfig → GatewayConfig
with_defaults g = record g {
  shutdown_timeout =
      if leb_ℤ g.shutdown_timeout (pos 0) then default_timeout else g.shutdown_timeout;
  log_level = if is_nil g.log_level then text "info" else g.log_level;
}

unfoldable pub validate : Config → Config × Option ConfigError
validate c =
    if is_nil c.gateway.listen
    then (c, some listen_required)
    else (let c' = record c { gateway = with_defaults c.gateway } in
        if is_nil c.routes then (c', some no_routes) else (c', check_routes 0 c.routes))

-- What `Load` returns.
pub data Loaded : Type 0 where
  unreadable unparsable : Loaded
  invalid : ConfigError → Loaded
  loaded : Config → Loaded

-- `file` is what os.ReadFile gives, `unmarshal` the YAML library.
unfoldable pub load : (Text → Option Config) → Option Text → Loaded
load unmarshal none = unreadable
load unmarshal (some file) = elim (unmarshal file) [
  | none ↦ unparsable
  | some c ↦ elim (validate c).1 [ some e ↦ invalid e | none ↦ loaded (validate c).0 ]
]

-- slog.LevelDebug, LevelInfo, LevelWarn, LevelError
unfoldable pub log_level_to_slog : Text → ℤ
log_level_to_slog level =
    if text_eq level (text "debug")
    then negsuc 3
    else if text_eq level (text "info")
    then pos 0
    else if text_eq level (text "warn")
    then pos 4
    else if text_eq level (text "error")
    then pos 8
    else pos 0

abbrev pub HasUrl : Upstream → Type 0
HasUrl u = is_nil u.url ≡ false

pub record IsUsable (r : Route) : Type 0 where
  pub has_id : is_nil r.id ≡ false
  pub has_path : is_nil r.path ≡ false
  pub has_upstreams : is_nil r.upstreams ≡ false
  pub upstreams_have_urls : All HasUrl r.upstreams

check_upstreams-eq-none_iff :
    (i j : ℕ) (us : List Upstream) → (check_upstreams i j us ≡ none) ↔ All HasUrl us
unfolding check_upstreams
check_upstreams-eq-none_iff i j [] = (λ e. tt, λ t. refl)
check_upstreams-eq-none_iff i j (u ∷ us) = ground (arith, check_upstreams-eq-none_iff i (j + 1) us)

check_route-eq-none_iff : (i : ℕ) (r : Route) → (check_route i r ≡ none) ↔ IsUsable r
unfolding check_route
check_route-eq-none_iff i r = ground (arith, check_upstreams-eq-none_iff i 0 r.upstreams)

check_routes-eq-none_iff : (i : ℕ) (rs : List Route) → (check_routes i rs ≡ none) ↔ All IsUsable rs
unfolding check_routes
check_routes-eq-none_iff i [] = (λ e. tt, λ t. refl)
check_routes-eq-none_iff i (r ∷ rs) =
    ground (arith, check_route-eq-none_iff i r, check_routes-eq-none_iff (i + 1) rs)

-- A configuration is accepted exactly when it has a listen address and a route, and every route has
-- an ID, a path, and upstreams that all have a URL.
validate-eq-none_iff :
    (c : Config)
    → ((validate c).1 ≡ none)
      ↔ ((is_nil c.gateway.listen ≡ false) × (is_nil c.routes ≡ false) × All IsUsable c.routes)
unfolding validate
validate-eq-none_iff c = ground (arith, check_routes-eq-none_iff 0 c.routes)

abbrev IsLoaded : Config → Type 0
IsLoaded c =
    (pos 0 <ℤ c.gateway.shutdown_timeout)
    × (is_nil c.gateway.log_level ≡ false)
    × All IsUsable c.routes
    × (validate c ≡ (c, none))

with_defaults_set :
    (g : GatewayConfig)
    → (pos 0 <ℤ (with_defaults g).shutdown_timeout)
      × (is_nil (with_defaults g).log_level ≡ false)
      × ((with_defaults g).listen ≡ g.listen)
unfolding with_defaults
with_defaults_set g = ground arith

with_defaults_idem : (g : GatewayConfig) → with_defaults (with_defaults g) ≡ with_defaults g
unfolding with_defaults
with_defaults_idem g = ground arith

validate-IsLoaded : (c : Config) → (validate c).1 ≡ none → IsLoaded (validate c).0
unfolding validate with_defaults check_routes
validate-IsLoaded c fine =
    let (listens, has_routes, usable) = (validate-eq-none_iff c).0 fine in
    let checked = (check_routes-eq-none_iff 0 c.routes).1 usable in
    let (positive, levelled, same) = with_defaults_set c.gateway in
    let idem = with_defaults_idem c.gateway in
    rw (listens, has_routes)
      (positive, levelled, usable, rw (same, listens, has_routes, idem, checked))

-- A loaded configuration has a positive shutdown timeout, a log level and usable routes, and
-- validating it again changes nothing and finds no error.
pub load-IsUsable :
    (unmarshal : Text → Option Config) (file : Option Text) (c : Config)
    → load unmarshal file ≡ loaded c
    → (pos 0 <ℤ c.gateway.shutdown_timeout)
      × (is_nil c.gateway.log_level ≡ false)
      × All IsUsable c.routes
      × (validate c ≡ (c, none))
unfolding load
load-IsUsable unmarshal none c e = ground arith
load-IsUsable unmarshal (some file) c e = elim (Option-cases (unmarshal file)) [
  | inl unparsed ↦ ground arith
  | inr (d, parsed) ↦ elim (Option-cases (validate d).1) [
    | inr (problem, bad) ↦ ground arith
    | inl fine ↦
        let same : (validate d).0 ≡ c = ground arith in
        subst IsLoaded same (validate-IsLoaded d fine)
  ]
]
