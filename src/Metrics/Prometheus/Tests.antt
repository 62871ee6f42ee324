-- ===== src/Metrics/Prometheus/Tests.antt =====
-- Counters kept as the sequence of increments.
use xyllo.Base.{
  Bytes, codes, Bool, true, false, ltb, ◌<◌, length, none, some, All, ◌==◌, ◌&&◌, ℕ, ◌+◌, List, [],
  ◌∷◌, sum_by, if◌then◌else◌, ◌≡◌, refl, arith,
}
use xyllo.Metrics.{
  Observation, event_ingested, event_rejected, dlq_enqueued, worker_pool_depth, enqueued,
}
use xyllo.Metrics.Prometheus.{
  PrometheusClient, same, dlq_total, ingested_total, rejected_total, ingested_from, rejected_for,
  replay, replay-counts, provider_metrics, declared,
}

abbrev counted : Bytes → List Bytes → Bytes × List Bytes → ℕ
counted other others (name, labels) = if name == other && same labels others then 1 else 0

-- ASCII is valid.
all {ℓ} : {A : Type ℓ} → (A → Bool) → List A → Bool
all test [] = true
all test (a ∷ xs) = test a && all test xs

ascii : (s : Bytes) → All (λ c. c < 128) s → all (λ c. ltb c 128) s ≡ true
unfolding all
ascii [] h = refl
ascii (c ∷ s) h = let rest = ascii s h.1 in let low = h.0 in ground arith

all_ascii :
    (labels : List Bytes)
    → All (All (λ c. c < 128)) labels
    → all (all (λ c. ltb c 128)) labels ≡ true
unfolding all
all_ascii [] h = refl
all_ascii (l ∷ ls) h = rw (ascii l h.0, all_ascii ls h.1) refl

grown :
    (name other : Bytes) (labels others : List Bytes) (s s' : List (Bytes × List Bytes)) (b : Bool)
    → (if b then some ((name, labels) ∷ s) else none) ≡ some s'
    → sum_by (counted other others) s'
      ≡ sum_by (counted other others) s + counted other others (name, labels)
grown name other labels others s s' true e =
    let same_state : (name, labels) ∷ s ≡ s' = cc in rw (← same_state) (omega arith)
grown name other labels others s s' false e = absurd cc

abbrev increments : PrometheusClient
increments = record {
  State = List (Bytes × List Bytes);
  Valid = All (λ c. c < 128);
  inc = λ name labels s.
      if declared name (length labels) provider_metrics && all (all (λ c. ltb c 128)) labels
      then some ((name, labels) ∷ s)
      else none;
  set = λ name n s. s;
  value = λ name labels s. sum_by (counted name labels) s;
  inc-valid = λ name labels s known valid. rw (known, all_ascii labels valid) (_, refl);
  value-inc = λ name other labels others s s' e. grown name other labels others s s' _ e;
  value-set = λ name other n others s h. refl;
}

abbrev calls : List Observation
calls =
    dlq_enqueued
    ∷ event_rejected (codes "web") (codes "validation_error")
    ∷ worker_pool_depth 1
    ∷ event_ingested (codes "web")
    ∷ []

replay-counts_example :
    (s : List (Bytes × List Bytes)) × (replay increments calls [] ≡ some s)
    × (sum_by (counted dlq_total []) s ≡ 0 + sum_by enqueued calls)
    × (sum_by (counted ingested_total (codes "web" ∷ [])) s
        ≡ 0 + sum_by (ingested_from (codes "web")) calls)
    × (sum_by (counted rejected_total (codes "web" ∷ codes "validation_error" ∷ [])) s
        ≡ 0 + sum_by (rejected_for (codes "web") (codes "validation_error")) calls)
replay-counts_example =
    replay-counts increments (codes "web") (codes "validation_error") calls [] (ground arith)
