-- ===== src/Config/Load.antt =====
-- config/config.go: the defaults, the validation and `Load`. The file system, the environment and
-- the YAML library are parameters of `load`. An error is a constructor for each of the source's
-- messages, with the values that the message prints.
pub mod Validation
pub mod Results
mod Tests
use xyllo.Base.{
  Bytes, codes, ◌==◌, Bool, true, false, not, ◌&&◌, ◌||◌, ℤ, pos, negsuc, ltb_ℤ, Option, none, some,
  List, [], ◌∷◌, if◌then◌else◌,
}
use xyllo.Config.{
  DispatcherConfig, BatcherConfig, DlqConfig, ObservabilityConfig, TlsConfig, AuthConfig,
  RateLimitConfig, RedisConfig, Config,
}

pub data Problem : Type 0 where
  bad_workers : ℤ → Problem
  bad_buffer_size : ℤ → Problem
  bad_max_size : ℤ → Problem
  bad_flush_interval : ℤ → Problem
  bad_auth_mode : Bytes → Problem
  missing_api_key : Bytes → Problem
  missing_jwt_secret : Bytes → Problem
  bad_dlq_backend : Bytes → Problem
  bad_requests_per_second : ℤ → Problem
  bad_burst_size : ℤ → Problem
  missing_redis_addr : Problem
  bad_read_batch_size : ℤ → Problem

-- A section of `validate`: the problem that it returns, or the sections behind it.
abbrev pub or_else : Option Problem → Option Problem → Option Problem
or_else (some p) rest = some p
or_else none rest = rest

abbrev fails : Bool → Problem → Option Problem
fails true p = some p
fails false p = none

abbrev pub known_mode : Bytes → Bool
known_mode mode = mode == codes "none" || (mode == codes "apikey" || mode == codes "jwt")

-- The keys of `validDLQBackends`.
abbrev pub known_backend : Bytes → Bool
known_backend b =
    b == codes ""
    || (b == codes "file" || (b == codes "redis" || (b == codes "kafka" || b == codes "log")))

validate_sizes : DispatcherConfig → BatcherConfig → Option Problem
validate_sizes d b = or_else (fails (ltb_ℤ d.workers (pos 1)) (bad_workers d.workers)) (
    or_else (fails (ltb_ℤ d.buffer_size (pos 1)) (bad_buffer_size d.buffer_size)) (
      or_else (fails (ltb_ℤ b.max_size (pos 1)) (bad_max_size b.max_size))
        (fails (not (ltb_ℤ (pos 0) b.flush_interval)) (bad_flush_interval b.flush_interval))))

validate_auth : AuthConfig → Option Problem
validate_auth a = or_else (fails (not (known_mode a.auth_mode)) (bad_auth_mode a.auth_mode)) (
    or_else (fails (a.auth_mode == codes "apikey" && a.api_key == []) (missing_api_key a.auth_mode))
      (fails (a.auth_mode == codes "jwt" && a.jwt_secret == []) (missing_jwt_secret a.auth_mode)))

validate_dlq : DlqConfig → Option Problem
validate_dlq d = fails (not (known_backend d.backend)) (bad_dlq_backend d.backend)

validate_rate_limit : RateLimitConfig → Option Problem
validate_rate_limit r =
    if r.enabled
    then or_else
        (fails (ltb_ℤ r.requests_per_second (pos 1))
          (bad_requests_per_second r.requests_per_second))
        (fails (ltb_ℤ r.burst_size (pos 1)) (bad_burst_size r.burst_size))
    else none

validate_redis : RedisConfig → Option Problem
validate_redis r =
    if r.enabled
    then or_else (fails (r.addr == []) missing_redis_addr)
        (fails (ltb_ℤ r.read_batch_size (pos 1)) (bad_read_batch_size r.read_batch_size))
    else none

unfoldable pub validate : Config → Option Problem
unfolding validate_sizes validate_auth validate_dlq validate_rate_limit validate_redis
validate cfg = or_else (validate_sizes cfg.dispatcher cfg.batcher) (
    or_else (validate_auth cfg.auth) (
      or_else (validate_dlq cfg.dlq)
        (or_else (validate_rate_limit cfg.rate_limit) (validate_redis cfg.redis))))

abbrev pub defaults : Config
defaults = record {
  dispatcher = record { workers = pos 8; buffer_size = pos 4096 };
  batcher = record { max_size = pos 500; flush_interval = pos 2000000000 };
  dlq = record { backend = codes "file"; target = codes "dlq.log" };
  observability = record { metrics_path = codes "/metrics"; metrics_port = [] };
  tls = record { enabled = false; cert_file = []; key_file = [] };
  auth = record { auth_mode = codes "none"; api_key = []; jwt_secret = []; jwt_issuer = [] };
  rate_limit = record { enabled = true; requests_per_second = pos 1000; burst_size = pos 2000 };
  redis = record {
    enabled = false;
    addr = codes "localhost:6379";
    password = [];
    db = pos 0;
    stream_prefix = codes "xyllo:stream";
    consumer_group = codes "xyllo-consumers";
    consumer_name = codes "xyllo-1";
    regions =
        codes "us-east-1"
        ∷ codes "eu-west-1"
        ∷ codes "ap-southeast-1"
        ∷ codes "sa-east-1"
        ∷ codes "af-south-1"
        ∷ [];
    read_batch_size = pos 100;
    read_block_ms = pos 1000;
  };
}

pub data LoadError : Type 0 where
  unreadable : Bytes → LoadError
  unparsable : Bytes → LoadError
  invalid : Problem → LoadError

pub data Loaded : Type 0 where
  ok : Config → Loaded
  err : LoadError → Loaded

-- An environment variable wins over the value of the file if it is set and not empty.
abbrev pub override : Bytes → Bytes → Bytes
override v old = if v == [] then old else v

-- `getenv` gives the empty string for a variable that is not set.
unfoldable pub apply_environment : (Bytes → Bytes) → Config → Config
apply_environment getenv cfg = record cfg {
  auth = record cfg.auth {
    api_key = override (getenv (codes "XYLLO_API_KEY")) cfg.auth.api_key;
    jwt_secret = override (getenv (codes "XYLLO_JWT_SECRET")) cfg.auth.jwt_secret;
  };
  dlq = record cfg.dlq { target = override (getenv (codes "XYLLO_DLQ_TARGET")) cfg.dlq.target };
  redis = record cfg.redis {
    password = override (getenv (codes "XYLLO_REDIS_PASSWORD")) cfg.redis.password;
  };
}

check_valid : Config → Option Problem → Loaded
check_valid cfg none = ok cfg
check_valid cfg (some p) = err (invalid p)

-- The files by their paths, the environment, and the YAML decoder, which writes what the document
-- says into the configuration that it is given: `none` is an error.
module _ (read_file : Bytes → Option Bytes) (getenv : Bytes → Bytes)
    (unmarshal : Bytes → Config → Option Config) where
  parsed : Bytes → Option Config → Loaded
  parsed path (some cfg) = ok cfg
  parsed path none = err (unparsable path)

  read : Bytes → Option Bytes → Loaded
  unfolding parsed
  read path (some bytes) = parsed path (unmarshal bytes defaults)
  read path none = err (unreadable path)

  unfoldable pub load_file : Bytes → Loaded
  unfolding read
  load_file path = if path == [] then ok defaults else read path (read_file path)

  finish_load : Loaded → Loaded
  unfolding check_valid
  finish_load (ok cfg) =
      let final = apply_environment getenv cfg in check_valid final (validate final)
  finish_load (err e) = err e

  unfoldable pub load : Bytes → Loaded
  unfolding finish_load
  load path = finish_load (load_file path)
