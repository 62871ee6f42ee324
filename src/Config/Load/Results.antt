-- ===== src/Config/Load/Results.antt =====
-- What `Load` returns, and what may be built from it.
use xyllo.Base.{
  Bytes, codes, ◌==◌, ==_iff, true, false, ℤ, pos, pos_part, ltb_ℤ, ◌≤ℤ◌, Option, none, some, [],
  ◌≡◌, ◌≢◌, refl, ◌⊎◌, inl, inr, arith, ◌<◌, Bool-cases, Option-cases, sym, length,
  length-replicate,
}
use xyllo.Config.{Config}
use xyllo.Config.Load.{
  defaults, validate, override, apply_environment, Loaded, ok, err, check_valid, finish_load,
  load_file, load, Problem,
}
use xyllo.Config.Load.Validation.{IsValid, validate_iff}
use xyllo.Batcher
use xyllo.Batcher.{Batcher}
use xyllo.Dispatcher
use xyllo.Dispatcher.{Dispatcher}
use xyllo.Middleware.{Chain, World}
use xyllo.Dlq.{Dlq}

check_valid-ok :
    (cfg c : Config) (o : Option Problem)
    → validate cfg ≡ o
    → check_valid cfg o ≡ ok c
    → (c ≡ cfg) × (validate c ≡ none)
unfolding check_valid
check_valid-ok cfg c none v e = let same : cfg ≡ c = ground arith in (sym same, rw (← same) v)
check_valid-ok cfg c (some p) v e = cc

-- Set environment variables have won, and nothing else has changed.
pub record IsOverridden (getenv : Bytes → Bytes) (base c : Config) : Type 0 where
  pub applied : c ≡ apply_environment getenv base
  pub api_key :
      getenv (codes "XYLLO_API_KEY") ≢ [] → c.auth.api_key ≡ getenv (codes "XYLLO_API_KEY")
  pub jwt_secret :
      getenv (codes "XYLLO_JWT_SECRET") ≢ [] → c.auth.jwt_secret ≡ getenv (codes "XYLLO_JWT_SECRET")
  pub target :
      getenv (codes "XYLLO_DLQ_TARGET") ≢ [] → c.dlq.target ≡ getenv (codes "XYLLO_DLQ_TARGET")
  pub password :
      getenv (codes "XYLLO_REDIS_PASSWORD") ≢ []
      → c.redis.password ≡ getenv (codes "XYLLO_REDIS_PASSWORD")

override_set : (v old : Bytes) → v ≢ [] → override v old ≡ v
override_set v old ne = ground (arith, ==_iff v [])

apply_environment-IsOverridden :
    (getenv : Bytes → Bytes) (base c : Config)
    → c ≡ apply_environment getenv base
    → IsOverridden getenv base c
unfolding apply_environment
apply_environment-IsOverridden getenv base c e = record {
  applied = e;
  api_key = λ ne. rw e (override_set _ _ ne);
  jwt_secret = λ ne. rw e (override_set _ _ ne);
  target = λ ne. rw e (override_set _ _ ne);
  password = λ ne. rw e (override_set _ _ ne);
}

module _ (read_file : Bytes → Option Bytes) (getenv : Bytes → Bytes)
    (unmarshal : Bytes → Config → Option Config) where
  finish_load-ok :
      (l : Loaded) (c : Config)
      → finish_load read_file getenv unmarshal l ≡ ok c
      → (base : Config) × (l ≡ ok base) × (c ≡ apply_environment getenv base) × IsValid c
  unfolding finish_load
  finish_load-ok (ok base) c e =
      let (same, valid) = check_valid-ok (apply_environment getenv base) c _ refl e in
      (base, refl, same, (validate_iff c).0 valid)
  finish_load-ok (err x) c e = cc

  load_file-ok :
      (path : Bytes) (base : Config)
      → load_file read_file getenv unmarshal path ≡ ok base
      → ((path ≡ []) × (base ≡ defaults))
        ⊎ ((bytes : Bytes) × (read_file path ≡ some bytes) × (unmarshal bytes defaults ≡ some base))
  unfolding load_file
  load_file-ok path base e = elim (Bool-cases (path == [])) [
    | inl empty ↦ inl ((==_iff path []).0 empty, ground arith)
    | inr named ↦ elim (Option-cases (read_file path)) [
      | inl missing ↦ absurd (ground arith)
      | inr (bytes, there) ↦ inr (bytes, there, ground arith)
    ]
  ]

  -- A configuration that Load returns is coherent. It is the built-in defaults, for the empty path,
  -- or else what the YAML decoder makes of them and of the file's contents, with the four variables
  -- of the environment, where they are set and not empty, in the place of their fields.
  pub load-ok :
      (path : Bytes) (c : Config)
      → load read_file getenv unmarshal path ≡ ok c
      → IsValid c
        × ((base : Config) × (((path ≡ []) × (base ≡ defaults))
              ⊎ ((bytes : Bytes) × (read_file path ≡ some bytes)
                  × (unmarshal bytes defaults ≡ some base)))
            × IsOverridden getenv base c)
  unfolding load
  load-ok path c e =
      let (base, from, same, valid) =
        finish_load-ok (load_file read_file getenv unmarshal path) c e in
      (
        valid,
        (base, load_file-ok path base from, apply_environment-IsOverridden getenv base c same),
      )

positive-not-negative : (a : ℤ) → pos 1 ≤ℤ a → (ltb_ℤ (pos 0) a ≡ true) × (ltb_ℤ a (pos 0) ≡ false)
positive-not-negative a h = ground arith

-- From a coherent configuration the pipeline can be built: neither the batcher's ticker nor the
-- dispatcher's channel panics, the channel has room for a payload, and there is a worker.
pub valid-builds :
    (cfg : Config) (chain : Chain) (dlq : Dlq) (world : World)
    → validate cfg ≡ none
    → (b : Batcher) × (d : Dispatcher) × (Batcher.new cfg.batcher ≡ some b)
      × (Dispatcher.new cfg.dispatcher chain b dlq world ≡ some d)
      × (0 < d.capacity)
      × (0 < length d.workers)
unfolding Batcher.new Dispatcher.new
valid-builds cfg chain dlq world e =
    let sizes = ((validate_iff cfg).0 e).sizes in
    let ticks = (positive-not-negative cfg.batcher.flush_interval sizes.flush_interval).0 in
    let makes = (positive-not-negative cfg.dispatcher.buffer_size sizes.buffer_size).1 in
    let room = sizes.buffer_size in
    let staff = sizes.workers in
    rw (ticks, makes)
      (
        _,
        _,
        refl,
        refl,
        omega arith,
        omega (arith, length-replicate (pos_part cfg.dispatcher.workers) Dispatcher.idle),
      )
