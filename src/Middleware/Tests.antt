-- ===== src/Middleware/Tests.antt =====
-- Runs of the rate limiter and of a chain.
use xyllo.Base.{
  Bytes, codes, true, false, ℕ, ◌+◌, ◌-◌, ◌*◌, ◌≤◌, pos, List, [], ◌∷◌, ◌++◌, some, ◌≡◌, ◌≢◌, ◌⊎◌,
  refl, arith, lookup, ◌+ℤ◌, ◌-ℤ◌, ◌*ℤ◌, bytes_eq,
}
use xyllo.Config.{RateLimitConfig}
use xyllo.Metrics.{recording, record_rate_limited}
use xyllo.Xlerr.{plain, quote}
use xyllo.Middleware.{Result, World, passed, failed, panicked, Handler, new_chain, run, rate_limit}
use xyllo.Middleware.Bucket.{nano, Bucket, RateLimiter, new_bucket, refill, allow}
use xyllo.Middleware.Bucket.Rate.{
  Holds, level, Within, allow_all, allow_all-bounded, allow_after_wait,
}
use xyllo.Middleware.Bucket.Sources.{bucket_at}
use xyllo.Middleware.Limit.{rate_limit-behaves}
use xyllo.Middleware.Order.{run_stops}

abbrev one_a_second : RateLimitConfig
one_a_second = record { enabled = true; requests_per_second = pos 1; burst_size = pos 1 }

abbrev limiter : RateLimiter
limiter = record { cfg = one_a_second; buckets = [] }

abbrev world : World
world = record { now = 0; limiter = limiter; metrics = recording [] }

abbrev result : Result
result = record { source = codes "web"; payload = codes "x"; problems = [] }

-- Three calls within a second and a half: the second comes too early.
times : List ℕ
times = 0 ∷ 500000000 ∷ 1500000000 ∷ []

times-Within : Within 0 1500000000 times
unfolding times
times-Within = omega arith

two_granted : (allow_all times (new_bucket one_a_second 0)).1 ≡ 2
unfolding times allow_all allow refill new_bucket ◌+ℤ◌ ◌-ℤ◌ ◌*ℤ◌
two_granted = refl

allow_all-bounded_example :
    (allow_all times (new_bucket one_a_second 0)).1 * nano ≤ 1 * nano + (1500000000 - 0) * 1
allow_all-bounded_example =
    allow_all-bounded one_a_second 1 1 0 1500000000 times refl refl times-Within

abbrev emptied : Bucket
emptied = record { tokens = pos 0; capacity = pos 1000000000; rate = pos 1; last_fill = 5 }

allow_after_wait_example :
    ((allow 1000000005 emptied).1 ≡ true)
    × Holds 1000000000 1
        (level 1000000000 1 0 5 1000000005 - nano)
        1000000005
        (allow 1000000005 emptied).0
allow_after_wait_example =
    allow_after_wait 1000000000 1 0 5 1000000005 emptied
      (record {
        tokens = refl;
        capacity = refl;
        rate = refl;
        last_fill = refl;
        bounded = omega arith;
      })
      (omega arith) (omega arith) (omega arith)

rate_limit-behaves_example :
    ((((allow 0 (bucket_at (codes "web") 0 limiter)).1 ≡ true)
        × ((rate_limit world result).0 ≡ passed)
        × ((rate_limit world result).1.metrics ≡ recording []))
      ⊎ (((allow 0 (bucket_at (codes "web") 0 limiter)).1 ≡ false)
          × ((rate_limit world result).0
              ≡ failed (plain (codes "rate limit exceeded for source " ++ quote (codes "web"))))
          × ((rate_limit world result).1.metrics
              ≡ record_rate_limited (codes "web") (recording []))))
    × ((rate_limit world result).2 ≡ result)
    × ((rate_limit world result).1.now ≡ 0)
    × (lookup (codes "web") (rate_limit world result).1.limiter.buckets
        ≡ some (allow 0 (bucket_at (codes "web") 0 limiter)).0)
    × ((other : Bytes)
        → other ≢ codes "web"
        → lookup other (rate_limit world result).1.limiter.buckets ≡ lookup other [])
rate_limit-behaves_example = rate_limit-behaves world result

abbrev pass : Handler
pass w r = (passed, w, r)

abbrev stop : Handler
stop w r = (panicked (codes "stop"), w, r)

run_stops_example :
    run (new_chain ((pass ∷ []) ++ stop ∷ pass ∷ [])) world result
    ≡ (panicked (codes "stop"), world, result)
unfolding run new_chain
run_stops_example =
    run_stops (pass ∷ []) (pass ∷ []) stop (panicked (codes "stop")) world world world result result
      result refl refl (λ e. cc)
