-- ===== src/Middleware/Bucket.antt =====
-- internal/middleware/ratelimit.go. Times are nanoseconds. A float64 number of tokens is an
-- integer number of 10^-9 tokens, so that elapsed seconds times a rate is an exact product;
-- rounding of the floats is left out.
pub mod Rate
pub mod Sources
use xyllo.Base.{
  Bytes, Bool, true, false, ℕ, ℤ, pos, ◌+ℤ◌, ◌-ℤ◌, ◌*ℤ◌, ltb_ℤ, Option, none, some, [], Assoc,
  bytes_eq, lookup, insert, if◌then◌else◌,
}
use xyllo.Config.{RateLimitConfig}

-- One token, in units of 10^-9 tokens; also the nanoseconds in a second.
abbrev pub nano : ℕ
nano = 1000000000

pub record Bucket : Type 0 where
  pub tokens : ℤ
  pub capacity : ℤ
  pub rate : ℤ
  pub last_fill : ℕ

unfoldable pub new_bucket : RateLimitConfig → ℕ → Bucket
new_bucket cfg now = record {
  tokens = cfg.burst_size *ℤ pos nano;
  capacity = cfg.burst_size *ℤ pos nano;
  rate = cfg.requests_per_second;
  last_fill = now;
}

-- The part of `allow` before the test: the tokens after the refill.
unfoldable pub refill : ℕ → Bucket → ℤ
refill now b =
    let elapsed = pos now -ℤ pos b.last_fill in
    let filled = b.tokens +ℤ elapsed *ℤ b.rate in
    if ltb_ℤ b.capacity filled then b.capacity else filled

-- The bucket after the call, and whether a token was taken.
unfoldable pub allow : ℕ → Bucket → Bucket × Bool
allow now b =
    let filled = refill now b in
    if ltb_ℤ filled (pos nano)
    then (record b { tokens = filled; last_fill = now }, false)
    else (record b { tokens = filled -ℤ pos nano; last_fill = now }, true)

pub record RateLimiter : Type 0 where
  pub cfg : RateLimitConfig
  pub buckets : Assoc Bytes Bucket

unfoldable pub new_rate_limiter : RateLimitConfig → RateLimiter
new_rate_limiter cfg = record { cfg = cfg; buckets = [] }

found_or_new : RateLimiter → Bytes → ℕ → Option Bucket → RateLimiter × Bucket
found_or_new rl source now (some b) = (rl, b)
found_or_new rl source now none =
    let b = new_bucket rl.cfg now in (record rl { buckets = insert source b rl.buckets }, b)

unfoldable pub bucket_for : Bytes → ℕ → RateLimiter → RateLimiter × Bucket
unfolding found_or_new
bucket_for source now rl = found_or_new rl source now (lookup source rl.buckets)

-- `bucketFor` and then `allow` on the bucket, which the map holds by reference.
unfoldable pub limit : Bytes → ℕ → RateLimiter → RateLimiter × Bool
limit source now rl =
    let (rl', b) = bucket_for source now rl in
    let (b', granted) = allow now b in
    (record rl' { buckets = insert source b' rl'.buckets }, granted)
