-- ===== src/Config.antt =====
-- config/config.go: the typed configuration that the other parts are built from.
-- An `int`, an `int64` and a `time.Duration` (in nanoseconds) are integers.
pub mod Load
pub mod Durations
use xyllo.Base.{Bytes, Bool, List, ℤ}

pub record DispatcherConfig : Type 0 where
  pub workers : ℤ
  pub buffer_size : ℤ

pub record BatcherConfig : Type 0 where
  pub max_size : ℤ
  pub flush_interval : ℤ

pub record DlqConfig : Type 0 where
  pub backend : Bytes
  pub target : Bytes

pub record ObservabilityConfig : Type 0 where
  pub metrics_path : Bytes
  pub metrics_port : Bytes

pub record TlsConfig : Type 0 where
  pub enabled : Bool
  pub cert_file : Bytes
  pub key_file : Bytes

pub record AuthConfig : Type 0 where
  pub auth_mode : Bytes
  pub api_key : Bytes
  pub jwt_secret : Bytes
  pub jwt_issuer : Bytes

pub record RateLimitConfig : Type 0 where
  pub enabled : Bool
  pub requests_per_second : ℤ
  pub burst_size : ℤ

pub record RedisConfig : Type 0 where
  pub enabled : Bool
  pub addr : Bytes
  pub password : Bytes
  pub db : ℤ
  pub stream_prefix : Bytes
  pub consumer_group : Bytes
  pub consumer_name : Bytes
  pub regions : List Bytes
  pub read_batch_size : ℤ
  pub read_block_ms : ℤ

pub record Config : Type 0 where
  pub dispatcher : DispatcherConfig
  pub batcher : BatcherConfig
  pub dlq : DlqConfig
  pub observability : ObservabilityConfig
  pub tls : TlsConfig
  pub auth : AuthConfig
  pub rate_limit : RateLimitConfig
  pub redis : RedisConfig
