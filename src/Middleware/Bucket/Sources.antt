-- ===== src/Middleware/Bucket/Sources.antt =====
-- Each source has a bucket of its own.
use xyllo.Base.{
  Bytes, ℕ, none, some, List, lookup, insert, lookup-insert, bytes_eq, ◌≡◌, ◌≢◌, arith, ==_iff, ap,
  ◌∙◌,
}
use xyllo.Middleware.Bucket.{Bucket, new_bucket, allow, RateLimiter, bucket_for, limit}

-- The bucket on which a call for the source works: the one in the map, or a fresh one.
unfoldable pub bucket_at : Bytes → ℕ → RateLimiter → Bucket
bucket_at source now rl = elim (lookup source rl.buckets) [
  | some b ↦ b
  | none ↦ new_bucket rl.cfg now
]

module _ (source : Bytes) (now : ℕ) (rl : RateLimiter) where
  bucket_for-bucket : (bucket_for source now rl).1 ≡ bucket_at source now rl
  unfolding bucket_for bucket_at
  bucket_for-bucket = ground arith

  bucket_for-cfg : (bucket_for source now rl).0.cfg ≡ rl.cfg
  unfolding bucket_for
  bucket_for-cfg = ground arith

  bucket_for-others :
      (other : Bytes)
      → other ≢ source
      → lookup other (bucket_for source now rl).0.buckets ≡ lookup other rl.buckets
  unfolding bucket_for
  bucket_for-others other ne =
      let there = lookup-insert source other (new_bucket rl.cfg now) rl.buckets in
      ground (arith, there, ==_iff source other)

  lookup-insert_self :
      (b : Bucket) (bs : List (Bytes × Bucket)) → lookup source (insert source b bs) ≡ some b
  lookup-insert_self b bs = ground (arith, lookup-insert source source b bs, ==_iff source source)

-- A call for a source answers as the token bucket of that source does, stores that bucket after the
-- call, and leaves the configuration and the bucket of every other source as they were.
pub limit-bucket :
    (source : Bytes) (now : ℕ) (rl : RateLimiter)
    → ((limit source now rl).1 ≡ (allow now (bucket_at source now rl)).1)
      × (lookup source (limit source now rl).0.buckets
          ≡ some (allow now (bucket_at source now rl)).0)
      × ((limit source now rl).0.cfg ≡ rl.cfg)
      × ((other : Bytes)
          → other ≢ source
          → lookup other (limit source now rl).0.buckets ≡ lookup other rl.buckets)
unfolding limit
limit-bucket source now rl =
    let now_bucket = bucket_for-bucket source now rl in
    (
      ap (λ b. (allow now b).1) now_bucket,
      lookup-insert_self source now rl _ _ ∙ ap (λ b. some (allow now b).0) now_bucket,
      bucket_for-cfg source now rl,
      λ other ne.
          let here =
            lookup-insert source other (allow now (bucket_for source now rl).1).0
              (bucket_for source now rl).0.buckets in
          let before = bucket_for-others source now rl other ne in
          ground (arith, here, before, ==_iff source other),
    )
