-- ===== src/Config.antt =====
-- The configuration model, internal/config/config.go. A pointer that may be nil is an `Option`.
pub mod Validate
use gogateway.Base.{Bool, List, Option}
use gogateway.Base.Int.{ℤ}
use gogateway.Base.Clock.{Duration}
use gogateway.Base.Text.{Text}

pub record Upstream : Type 0 where
  pub url : Text
  pub weight : ℤ

pub record JwtConfig : Type 0 where
  pub required : Bool
  pub issuers : List Text

pub record ApiKeyConfig : Type 0 where
  pub required : Bool

pub record AuthConfig : Type 0 where
  pub jwt : Option JwtConfig
  pub api_key : Option ApiKeyConfig

pub record RateLimitCfg : Type 0 where
  pub enabled : Bool
  pub requests : ℤ
  pub window : Duration
  pub per_client : Bool

pub record CircuitBrkCfg : Type 0 where
  pub enabled : Bool
  pub threshold : ℤ
  pub timeout : Duration
  pub half_open_max_reqs : ℤ

pub record Route : Type 0 where
  pub id : Text
  pub path : Text
  pub methods : List Text
  pub hosts : List Text
  pub upstreams : List Upstream
  pub auth : Option AuthConfig
  pub rate_limit : Option RateLimitCfg
  pub circuit_breaker : Option CircuitBrkCfg
  pub timeout : Duration
  pub retry : ℤ

pub record GatewayConfig : Type 0 where
  pub listen : Text
  pub metrics_listen : Text
  pub shutdown_timeout : Duration
  pub log_level : Text

pub record RedisConfig : Type 0 where
  pub addr : Text
  pub password : Text
  pub db : ℤ
  pub pool_size : ℤ

pub record Config : Type 0 where
  pub gateway : GatewayConfig
  pub redis : RedisConfig
  pub routes : List Route
