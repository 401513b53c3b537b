-- ===== src/Server/Panics.antt =====
-- No request of a run panics in the handler of internal/server/server.go.
use gogateway.Base.{
  ◌≡◌, ◌≢◌, refl, ◌∙◌, ap, Option, some, List, [], All, Option-cases, inl, inr, arith,
}
use mathlib.Core.Path.{subst}
use gogateway.Base.Text.{Text}
use gogateway.Config.{Route, Config}
use gogateway.Config.Validate.{IsUsable}
use gogateway.Http.{Url, Request}
use gogateway.Router
use gogateway.Router.{match}
use gogateway.Base.Maps.{lookup}
use gogateway.Limiter.{clean_expired}
use gogateway.Discovery.{new_static_registry, get_endpoints, Listed, get_endpoints-nonempty}
use gogateway.KeyStore.{KeyFileEntry}
use gogateway.Server.{Outside, Server, Readings}
use gogateway.Server.Recorder.{StatusRecorder, ResponseWriter}
use gogateway.Server.Handler.{ProxyRun, Admission, panicked, count_in, count_out, begin}
use gogateway.Server.Start.{Surroundings, make_balancers, new}
use gogateway.Server.Runs.{
  State, Step, ends, starts, returns, sweeps, exports, new_writer, Reachable, started, continued,
}
use gogateway.Server.Kept.{
  Kept, Kept-limiter, begin-Kept, export_states-Kept, settle-Kept, complete-Kept,
}
use gogateway.Server.Safety.{Ready, Ready-Kept, NotPanicked, begin-NotPanicked, make_balancers-keep}

module _ {F : Type 0} (out : Outside F) (parse_url : Text → Option Url)
    (unmarshal_keys : Text → Option (List KeyFileEntry)) where
  pub new-Ready :
      (cfg : Config) (around : Surroundings) (s : Server F)
      → All IsUsable cfg.routes
      → new out parse_url unmarshal_keys cfg around ≡ some s
      → Ready s
  unfolding new Router.new
  new-Ready cfg around s usable made =
      elim (Option-cases (new_static_registry parse_url cfg.routes)) [
        | inl failed ↦ ground arith
        | inr (reg, built) ↦
            let table : s.router.routes ≡ cfg.routes = ground arith in
            let registry : s.registry ≡ reg = ground arith in
            let balancers : s.balancers ≡ make_balancers cfg.routes [] = ground arith in
            λ r listed.
              let here = subst (λ (routes : List Route). Listed r routes) table listed in
              let (ep, eps, found) =
                get_endpoints-nonempty parse_url cfg.routes reg r usable here built in
              let (lb, there) = make_balancers-keep cfg.routes [] r.id (inr (r, refl, here)) in
              (
                (ep, eps, ap (get_endpoints r.id) registry ∙ found),
                (lb, ap (lookup r.id) balancers ∙ there),
              )
      ]

module _ {F : Type 0} (out : Outside F) (Upstreams : ProxyRun → Type 0) where
  Step-Ready : (st st' : State F) → Step out Upstreams st st' → Ready st.server → Ready st'.server
  Step-Ready _ _ (ends {s} {s'} rd late r h w begun stopped) ready =
      let kept : Kept (count_in out s) s' =
        subst (λ (x : Server F × Admission). Kept (count_in out s) x.0) begun
          (begin-Kept out rd r (new_writer h) s) in
      Ready-Kept (count_out out s') _ (settle-Kept out (match s.router r) r.method late w s')
        (Ready-Kept (count_in out s) s' kept ready)
  Step-Ready _ _ (starts {s} {s'} rd r h f begun) ready =
      Ready-Kept (count_in out s) s'
        (subst (λ (x : Server F × Admission). Kept (count_in out s) x.0) begun
          (begin-Kept out rd r (new_writer h) s))
        ready
  Step-Ready _ _ (returns {s} before after late f run may) ready =
      Ready-Kept (count_out out s) _ (complete-Kept out late f run s) ready
  Step-Ready _ _ (sweeps {s} now) ready =
      Ready-Kept s _ (Kept-limiter s (clean_expired now s.rate_limiter)) ready
  Step-Ready _ _ (exports {s}) ready = Ready-Kept s _ (export_states-Kept out s) ready

  pub Reachable-Ready :
      (start : Server F) (st : State F)
      → Reachable out Upstreams start st
      → Ready start
      → Ready st.server
  Reachable-Ready start _ started ready = ready
  Reachable-Ready start _ (continued {st} {st'} before few step) ready =
      Step-Ready st st' step (Reachable-Ready start st before ready)

-- In every state that a server of a usable configuration comes through, however requests interleave,
-- no request that begins panics: neither for want of a balancer nor for want of an endpoint.
pub begin-ne-panicked :
    {F : Type 0} (out : Outside F) (parse_url : Text → Option Url)
    (unmarshal_keys : Text → Option (List KeyFileEntry)) (cfg : Config) (around : Surroundings)
    (Upstreams : ProxyRun → Type 0) (start : Server F) (st : State F)
    → All IsUsable cfg.routes
    → new out parse_url unmarshal_keys cfg around ≡ some start
    → Reachable out Upstreams start st
    → (rd : Readings) (r : Request) (writer : ResponseWriter) (w : StatusRecorder)
    → (begin out rd r writer st.server).1 ≢ panicked w
begin-ne-panicked out parse_url unmarshal_keys cfg around Upstreams start st usable made reached rd
      r writer w e =
    let ready =
      Reachable-Ready out Upstreams start st reached
        (new-Ready out parse_url unmarshal_keys cfg around start usable made) in
    subst NotPanicked e (begin-NotPanicked out rd r writer st.server ready)
