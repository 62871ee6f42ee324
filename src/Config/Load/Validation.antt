-- ===== src/Config/Load/Validation.antt =====
-- What a configuration that passes validation satisfies, and what Load returns.
use xyllo.Base.{codes, ==_iff, true, pos, ◌≤ℤ◌, Option, none, some, [], ◌≡◌, ◌≢◌, ◌⊎◌, ◌↔◌, arith}
use xyllo.Config.{
  DispatcherConfig, BatcherConfig, DlqConfig, AuthConfig, RateLimitConfig, RedisConfig, Config,
}
use xyllo.Config.Load.{
  validate, validate_sizes, validate_auth, validate_dlq, validate_rate_limit, validate_redis,
  or_else, Problem,
}

pub record IsSized (d : DispatcherConfig) (b : BatcherConfig) : Type 0 where
  pub workers : pos 1 ≤ℤ d.workers
  pub buffer_size : pos 1 ≤ℤ d.buffer_size
  pub max_size : pos 1 ≤ℤ b.max_size
  pub flush_interval : pos 1 ≤ℤ b.flush_interval

validate_sizes_iff :
    (d : DispatcherConfig) (b : BatcherConfig) → (validate_sizes d b ≡ none) ↔ IsSized d b
unfolding validate_sizes
validate_sizes_iff d b = ground arith

pub record IsAuthentic (a : AuthConfig) : Type 0 where
  pub known :
      (a.auth_mode ≡ codes "none") ⊎ ((a.auth_mode ≡ codes "apikey") ⊎ (a.auth_mode ≡ codes "jwt"))
  pub api_key : a.auth_mode ≡ codes "apikey" → a.api_key ≢ []
  pub jwt_secret : a.auth_mode ≡ codes "jwt" → a.jwt_secret ≢ []

validate_auth_iff : (a : AuthConfig) → (validate_auth a ≡ none) ↔ IsAuthentic a
unfolding validate_auth
validate_auth_iff a = ground (
  arith,
  ==_iff a.auth_mode (codes "none"),
  ==_iff a.auth_mode (codes "apikey"),
  ==_iff a.auth_mode (codes "jwt"),
  ==_iff a.api_key [],
  ==_iff a.jwt_secret [],
)

pub record IsStorable (d : DlqConfig) : Type 0 where
  pub known :
      (d.backend ≡ codes "")
      ⊎ ((d.backend ≡ codes "file")
          ⊎ ((d.backend ≡ codes "redis")
              ⊎ ((d.backend ≡ codes "kafka") ⊎ (d.backend ≡ codes "log"))))

validate_dlq_iff : (d : DlqConfig) → (validate_dlq d ≡ none) ↔ IsStorable d
unfolding validate_dlq
validate_dlq_iff d = ground (
  arith,
  ==_iff d.backend (codes ""),
  ==_iff d.backend (codes "file"),
  ==_iff d.backend (codes "redis"),
  ==_iff d.backend (codes "kafka"),
  ==_iff d.backend (codes "log"),
)

-- Only an enabled rate limiter has to be coherent; so with Redis.
pub record IsLimited (r : RateLimitConfig) : Type 0 where
  pub rate : r.enabled ≡ true → pos 1 ≤ℤ r.requests_per_second
  pub burst : r.enabled ≡ true → pos 1 ≤ℤ r.burst_size

validate_rate_limit_iff : (r : RateLimitConfig) → (validate_rate_limit r ≡ none) ↔ IsLimited r
unfolding validate_rate_limit
validate_rate_limit_iff r = ground arith

pub record IsReachable (r : RedisConfig) : Type 0 where
  pub addr : r.enabled ≡ true → r.addr ≢ []
  pub read_batch_size : r.enabled ≡ true → pos 1 ≤ℤ r.read_batch_size

validate_redis_iff : (r : RedisConfig) → (validate_redis r ≡ none) ↔ IsReachable r
unfolding validate_redis
validate_redis_iff r = ground (arith, ==_iff r.addr [])

-- A coherent configuration, section by section.
pub record IsValid (cfg : Config) : Type 0 where
  pub sizes : IsSized cfg.dispatcher cfg.batcher
  pub auth : IsAuthentic cfg.auth
  pub dlq : IsStorable cfg.dlq
  pub rate_limit : IsLimited cfg.rate_limit
  pub redis : IsReachable cfg.redis

or_else_iff : (o rest : Option Problem) → (or_else o rest ≡ none) ↔ ((o ≡ none) × (rest ≡ none))
or_else_iff none rest = ground arith
or_else_iff (some p) rest = ground arith

-- `validate` accepts a configuration exactly when it is coherent: at least one worker, a buffer and
-- a batch of at least one, a positive flush interval; a known authentication mode with the secret
-- that it needs; a known dead letter backend; and, where they are enabled, a rate and a burst of
-- at least one, and a Redis address with a read batch of at least one.
pub validate_iff : (cfg : Config) → (validate cfg ≡ none) ↔ IsValid cfg
unfolding validate
validate_iff cfg =
    let (sound_sizes, whole_sizes) = validate_sizes_iff cfg.dispatcher cfg.batcher in
    let (sound_auth, whole_auth) = validate_auth_iff cfg.auth in
    let (sound_dlq, whole_dlq) = validate_dlq_iff cfg.dlq in
    let (sound_rate, whole_rate) = validate_rate_limit_iff cfg.rate_limit in
    let (sound_redis, whole_redis) = validate_redis_iff cfg.redis in
    (
      λ e.
          let (s, e₁) = (or_else_iff _ _).0 e in
          let (a, e₂) = (or_else_iff _ _).0 e₁ in
          let (d, e₃) = (or_else_iff _ _).0 e₂ in
          let (l, r) = (or_else_iff _ _).0 e₃ in
          record {
            sizes = sound_sizes s;
            auth = sound_auth a;
            dlq = sound_dlq d;
            rate_limit = sound_rate l;
            redis = sound_redis r;
          },
      λ v. rw (
        whole_sizes v.sizes,
        whole_auth v.auth,
        whole_dlq v.dlq,
        whole_rate v.rate_limit,
        whole_redis v.redis,
      ),
    )
