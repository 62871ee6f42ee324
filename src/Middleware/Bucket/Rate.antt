-- ===== src/Middleware/Bucket/Rate.antt =====
-- What the token bucket guarantees: its bounds, and the rate that it lets through.
use xyllo.Base.{
  true, false, ℕ, ◌+◌, ◌-◌, ◌*◌, ◌≤◌, ◌<◌, min, pos, ◌+ℤ◌, ◌-ℤ◌, ◌*ℤ◌, ltb_ℤ, List, [], ◌∷◌, ◌≡◌,
  refl, arith, ◌⊎◌, inl, inr, if◌then◌else◌, ap, Bool-cases,
}
use xyllo.Config.{RateLimitConfig}
use xyllo.Middleware.Bucket.{nano, Bucket, new_bucket, refill, allow}

-- A bucket that holds t of at most c tokens, gains r a second and was last filled at `last`.
pub record Holds (c r t last : ℕ) (b : Bucket) : Type 0 where
  pub tokens : b.tokens ≡ pos t
  pub capacity : b.capacity ≡ pos c
  pub rate : b.rate ≡ pos r
  pub last_fill : b.last_fill ≡ last
  pub bounded : t ≤ c

-- The tokens after the refill: what has flowed in, up to the capacity.
abbrev pub level : ℕ → ℕ → ℕ → ℕ → ℕ → ℕ
level c r t last now = min c (t + (now - last) * r)

pos-minus-pos : (a b : ℕ) → b ≤ a → pos a -ℤ pos b ≡ pos (a - b)
unfolding ◌-ℤ◌
pos-minus-pos a b h = ground arith

pos-plus-pos : (a b : ℕ) → pos a +ℤ pos b ≡ pos (a + b)
unfolding ◌+ℤ◌
pos-plus-pos a b = ground arith

pub pos-times-pos : (a b : ℕ) → pos a *ℤ pos b ≡ pos (a * b)
unfolding ◌*ℤ◌
pos-times-pos a b = ground arith

ruleset pos_laws = (pos-plus-pos, pos-times-pos)

cap-eq-min : (c x : ℕ) → (if ltb_ℤ (pos c) (pos x) then pos c else pos x) ≡ pos (min c x)
cap-eq-min c x = ground arith

module _ (c r t last now : ℕ) {b : Bucket} (h : Holds c r t last b) (later : last ≤ now) where
  filled : b.tokens +ℤ (pos now -ℤ pos b.last_fill) *ℤ b.rate ≡ pos (t + (now - last) * r)
  filled = rw (h.tokens, h.rate, h.last_fill, pos-minus-pos now last later) (simp pos_laws)

  pub refill-eq : refill now b ≡ pos (level c r t last now)
  unfolding refill
  refill-eq = rw (filled, h.capacity) (cap-eq-min c (t + (now - last) * r))

  -- Either the level is below one token and the call is refused, or one token is taken.
  pub allow-cases :
      ((level c r t last now < nano)
        × ((allow now b).1 ≡ false)
        × Holds c r (level c r t last now) now (allow now b).0)
      ⊎ ((nano ≤ level c r t last now)
          × ((allow now b).1 ≡ true)
          × Holds c r (level c r t last now - nano) now (allow now b).0)
  unfolding allow
  allow-cases = elim (Bool-cases (ltb_ℤ (pos (level c r t last now)) (pos nano))) [
    | inl low ↦ inl (
      ground arith,
      rw (refill-eq, low),
      rw (refill-eq, low)
          (record {
            tokens = refl;
            capacity = h.capacity;
            rate = h.rate;
            last_fill = refl;
            bounded = omega arith;
          }),
    )
    | inr high ↦ inr (
      ground arith,
      rw (refill-eq, high),
      rw (refill-eq, high)
          (record {
            tokens = pos-minus-pos _ _ (ground arith);
            capacity = h.capacity;
            rate = h.rate;
            last_fill = refl;
            bounded = omega arith;
          }),
    )
  ]

new_bucket-Holds :
    (cfg : RateLimitConfig) (burst r now : ℕ)
    → cfg.burst_size ≡ pos burst
    → cfg.requests_per_second ≡ pos r
    → Holds (burst * nano) r (burst * nano) now (new_bucket cfg now)
unfolding new_bucket
new_bucket-Holds cfg burst r now hb hr = record {
  tokens = rw hb (pos-times-pos burst nano);
  capacity = rw hb (pos-times-pos burst nano);
  rate = hr;
  last_fill = refl;
  bounded = omega arith;
}

-- Calls at the given times: the last bucket, and how many took a token.
unfoldable pub allow_all : List ℕ → Bucket → Bucket × ℕ
allow_all [] b = (b, 0)
allow_all (now ∷ later) b =
    let (b', granted) = allow now b in
    let (b'', count) = allow_all later b' in (b'', if granted then count + 1 else count)

-- The times do not fall, begin at `first` and end by `final`.
abbrev pub Within : ℕ → ℕ → List ℕ → Type 0
Within first final [] = first ≤ final
Within first final (now ∷ later) = (first ≤ now) × Within now final later

Within-le : (first final : ℕ) (times : List ℕ) → Within first final times → first ≤ final
Within-le first final [] w = w
Within-le first final (now ∷ later) (w, ws) = let rest = Within-le now final later ws in omega arith

inflow-append :
    (last now final r : ℕ)
    → last ≤ now
    → now ≤ final
    → (now - last) * r + (final - now) * r ≡ (final - last) * r
inflow-append last now final r p q =
    let e : (now - last) + (final - now) ≡ final - last = omega arith in
    omega (arith, ap (λ (n : ℕ). n * r) e)

allow_all-le :
    (c r t last final : ℕ) (b : Bucket) (times : List ℕ)
    → Holds c r t last b
    → Within last final times
    → (allow_all times b).1 * nano ≤ t + (final - last) * r
unfolding allow_all
allow_all-le c r t last final b [] h w = omega arith
allow_all-le c r t last final b (now ∷ later) h (w, ws) =
    let joined = inflow-append last now final r w (Within-le now final later ws) in
    elim (allow-cases c r t last now h w) [
      | inl (low, refused, h') ↦ rw refused (
          omega
            (arith, allow_all-le c r (level c r t last now) now final (allow now b).0 later h' ws))
      | inr (high, taken, h') ↦ rw taken (
          omega (
            arith,
            allow_all-le c r (level c r t last now - nano) now final (allow now b).0 later h' ws,
          ))
    ]

-- A source that starts with a fresh bucket at the time `start` and calls at any times from then to
-- `final`, which do not fall, gets through at most the burst and what the rate yields in between:
-- in units of 10^-9 tokens, granted * 10^9 ≤ burst * 10^9 + (final - start) * rate.
pub allow_all-bounded :
    (cfg : RateLimitConfig) (burst r start final : ℕ) (times : List ℕ)
    → cfg.burst_size ≡ pos burst
    → cfg.requests_per_second ≡ pos r
    → Within start final times
    → (allow_all times (new_bucket cfg start)).1 * nano ≤ burst * nano + (final - start) * r
allow_all-bounded cfg burst r start final times hb hr w =
    allow_all-le (burst * nano) r (burst * nano) start final (new_bucket cfg start) times
      (new_bucket-Holds cfg burst r start hb hr) w

-- A bucket that can hold one token grants a call as soon as the rate has yielded one token since the
-- bucket was last filled, however empty it was; the call leaves the bucket within its capacity.
pub allow_after_wait :
    (c r t last now : ℕ) (b : Bucket)
    → Holds c r t last b
    → last ≤ now
    → nano ≤ c
    → nano ≤ (now - last) * r
    → ((allow now b).1 ≡ true) × Holds c r (level c r t last now - nano) now (allow now b).0
allow_after_wait c r t last now b h w room waited = elim (allow-cases c r t last now h w) [
  | inl (low, _, _) ↦ absurd (omega arith)
  | inr (_, taken, h') ↦ (taken, h')
]
