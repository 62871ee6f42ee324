-- ===== src/StreamIngestor/Setup.antt =====
-- The setup of the consumer groups.
use xyllo.Base.{
  Bytes, ◌==◌, ==_iff, Bool-cases, true, false, Option, none, some, List, [], ◌∷◌, All, ◌≡◌, ◌≢◌,
  ◌↔◌, ◌⊎◌, inl, inr, refl, arith,
}
use xyllo.Config.{RedisConfig}
use xyllo.Xlerr.{Error, error_text}
use xyllo.RedisStore.{busy_group_err, create_consumer_group}
use xyllo.StreamIngestor.{stream_key, setup_error, setup_groups}

-- Redis has created the group, or says that it exists.
abbrev pub IsReady : Option Error → Type 0
IsReady o = (o ≡ none) ⊎ ((err : Error) × (o ≡ some err) × (error_text err ≡ busy_group_err))

other_error :
    (stream group : Bytes) (err : Error)
    → (error_text err == busy_group_err) ≡ false
    → create_consumer_group stream group (some err) ≢ none
unfolding create_consumer_group
other_error stream group err n = rw n (λ p. cc)

busy_text :
    (err e : Error)
    → some err ≡ some e
    → error_text e ≡ busy_group_err
    → (error_text err == busy_group_err) ≡ true
busy_text err e p t =
    let text : error_text err ≡ busy_group_err = cc in
    (==_iff (error_text err) busy_group_err).1 text

not_ready : (err : Error) → (error_text err == busy_group_err) ≡ false → IsReady (some err) → ⊥
not_ready err n (inl p) = cc
not_ready err n (inr (e, p, t)) = let busy = busy_text err e p t in cc

create_consumer_group-IsReady :
    (stream group : Bytes) (o : Option Error)
    → (create_consumer_group stream group o ≡ none) ↔ IsReady o
unfolding create_consumer_group
create_consumer_group-IsReady stream group none = (λ p. inl refl, λ r. refl)
create_consumer_group-IsReady stream group (some err) =
    elim (Bool-cases (error_text err == busy_group_err)) [
      | inl y ↦ (λ p. inr (err, refl, (==_iff (error_text err) busy_group_err).0 y), λ r. rw y refl)
      | inr n ↦ (λ p. absurd (other_error stream group err n p), λ r. absurd (not_ready err n r))
    ]

setup_error_iff :
    (region : Bytes) (now later : Option Error)
    → (setup_error region now later ≡ none) ↔ ((now ≡ none) × (later ≡ none))
setup_error_iff region none later = ground arith
setup_error_iff region (some err) later = ground arith

-- The setup lets the consumers start exactly when Redis has, for each configured region, created the
-- group of its stream or answered that it exists already; any other error stops it.
pub setup_groups-IsReady :
    (cfg : RedisConfig) (answers : Bytes → Option Error) (regions : List Bytes)
    → (setup_groups cfg answers regions ≡ none)
      ↔ All (λ region. IsReady (answers (stream_key cfg region))) regions
unfolding setup_groups
setup_groups-IsReady cfg answers [] = (λ p. tt, λ h. refl)
setup_groups-IsReady cfg answers (region ∷ rest) =
    let stream = stream_key cfg region in
    let here = create_consumer_group-IsReady stream cfg.consumer_group (answers stream) in
    let there = setup_groups-IsReady cfg answers rest in
    let both =
      setup_error_iff region (create_consumer_group stream cfg.consumer_group (answers stream))
        (setup_groups cfg answers rest) in
    (λ p. let q = both.0 p in (here.0 q.0, there.0 q.1), λ h. both.1 (here.1 h.0, there.1 h.1))
