-- ===== src/Middleware.antt =====
-- internal/middleware: the chain of handlers (middleware.go); the rate limiter of ratelimit.go is
-- in the child Bucket, and its handler stands here.
-- A handler works on the state that handlers share, which is the clock, the rate limiter and the
-- metrics, and on the payload's Result, which it is given by reference. It passes, returns an
-- error or panics with a value.
pub mod Bucket
pub mod Order
pub mod Limit
pub mod Quiet
pub mod Validators
mod Tests
use xyllo.Base.{Bytes, codes, Bool, true, false, ◌++◌, ℕ, List, [], ◌∷◌, if◌then◌else◌}
use xyllo.Metrics.{Provider, record_rate_limited}
use xyllo.Xlerr.{Error, plain, quote}
use Bucket.{RateLimiter, limit}

-- The payload on its way through the chain. `Errors` is `problems`.
pub record Result : Type 0 where
  pub source : Bytes
  pub payload : Bytes
  pub problems : List Bytes

pub record World : Type 0 where
  pub now : ℕ
  pub limiter : RateLimiter
  pub metrics : Provider

-- `panicked` holds the text of the value that the handler panics with.
pub data Verdict : Type 0 where
  passed : Verdict
  failed : Error → Verdict
  panicked : Bytes → Verdict

abbrev pub Handler : Type 0
Handler = World → Result → Verdict × World × Result

pub record Chain : Type 0 where
  pub handlers : List Handler

unfoldable pub new_chain : List Handler → Chain
new_chain hs = record { handlers = hs }

-- The loop of `Run`.
unfoldable pub run_handlers : List Handler → Handler
run_handlers [] w r = (passed, w, r)
run_handlers (h ∷ hs) w r =
    let (verdict, w', r') = h w r in
    elim verdict [
      | passed ↦ run_handlers hs w' r'
      | failed err ↦ (failed err, w', r')
      | panicked text ↦ (panicked text, w', r')
    ]

unfoldable pub run : Chain → Handler
unfolding run_handlers
run c = run_handlers c.handlers

-- The method `Middleware` of the rate limiter.
unfoldable pub rate_limit : Handler
rate_limit w r =
    let (limiter, granted) = limit r.source w.now w.limiter in
    let w' : World = record w { limiter = limiter } in
    if granted then (passed, w', r) else (
      failed (plain (codes "rate limit exceeded for source " ++ quote r.source)),
      record w' { metrics = record_rate_limited r.source w.metrics },
      r,
    )
