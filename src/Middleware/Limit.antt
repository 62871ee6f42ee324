-- ===== src/Middleware/Limit.antt =====
-- The handler of the rate limiter.
use xyllo.Base.{
  Bytes, codes, true, false, ◌++◌, some, lookup, bytes_eq, ◌≡◌, ◌≢◌, ◌⊎◌, inl, inr, refl,
  Bool-cases, sym, ◌∙◌,
}
use xyllo.Metrics.{record_rate_limited}
use xyllo.Xlerr.{plain, quote}
use xyllo.Middleware.Bucket.{allow, limit}
use xyllo.Middleware.Bucket.Sources.{bucket_at, limit-bucket}
use xyllo.Middleware.{Result, World, passed, failed, rate_limit}

-- The rate limiter passes a payload exactly when the bucket of its source grants a token, and fails
-- it otherwise, with an error that names the source, after reporting it once to the metrics. Either
-- way it stores that bucket after the call, leaves the payload, the clock and the buckets of all
-- other sources alone, and reports nothing else.
pub rate_limit-behaves :
    (w : World) (r : Result)
    → ((((allow w.now (bucket_at r.source w.now w.limiter)).1 ≡ true)
          × ((rate_limit w r).0 ≡ passed)
          × ((rate_limit w r).1.metrics ≡ w.metrics))
        ⊎ (((allow w.now (bucket_at r.source w.now w.limiter)).1 ≡ false)
            × ((rate_limit w r).0
                ≡ failed (plain (codes "rate limit exceeded for source " ++ quote r.source)))
            × ((rate_limit w r).1.metrics ≡ record_rate_limited r.source w.metrics)))
      × ((rate_limit w r).2 ≡ r)
      × ((rate_limit w r).1.now ≡ w.now)
      × (lookup r.source (rate_limit w r).1.limiter.buckets
          ≡ some (allow w.now (bucket_at r.source w.now w.limiter)).0)
      × ((other : Bytes)
          → other ≢ r.source
          → lookup other (rate_limit w r).1.limiter.buckets ≡ lookup other w.limiter.buckets)
unfolding rate_limit
rate_limit-behaves w r =
    let (answer, stored, _, others) = limit-bucket r.source w.now w.limiter in
    elim (Bool-cases (limit r.source w.now w.limiter).1) [
      | inl granted ↦
          rw granted (inl (sym answer ∙ granted, refl, refl), refl, refl, stored, others)
      | inr denied ↦ rw denied (inr (sym answer ∙ denied, refl, refl), refl, refl, stored, others)
    ]
