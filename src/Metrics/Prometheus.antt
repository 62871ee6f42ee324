-- ===== src/Metrics/Prometheus.antt =====
-- internal/metrics/prometheus.go. The Prometheus client library is a parameter: a registry, what its
-- counters and gauges are told, and the values that it then reports. The handler that exposes them
-- over HTTP, and the collectors of the Go runtime, are left out.
mod Tests
use xyllo.Base.{
  Bytes, codes, ◌==◌, ==_refl, Bool, true, false, ◌&&◌, ℕ, ◌+◌, List, [], ◌∷◌, sum_by,
  if◌then◌else◌, ◌||◌, eqb, length, All, Option, none, some, subst, ◌≡◌, refl, arith,
}
use xyllo.Json.Numbers.{◌>>=◌}
use xyllo.Metrics.{
  Observation, event_ingested, event_rejected, dlq_enqueued, batcher_flush, worker_pool_depth,
  rate_limited, panic_recovered, enqueued,
}

-- The same label values.
abbrev pub same : List Bytes → List Bytes → Bool
same [] [] = true
same [] (k ∷ ks) = false
same (l ∷ ls) [] = false
same (l ∷ ls) (k ∷ ks) = l == k && same ls ks

abbrev pub ingested_total : Bytes
ingested_total = codes "xyllo_events_ingested_total"

abbrev pub rejected_total : Bytes
rejected_total = codes "xyllo_events_rejected_total"

abbrev pub dlq_total : Bytes
dlq_total = codes "xyllo_dlq_enqueued_total"

abbrev pub flushes_total : Bytes
flushes_total = codes "xyllo_batcher_flushes_total"

abbrev pub buffer_depth : Bytes
buffer_depth = codes "xyllo_worker_pool_buffer_depth"

abbrev pub limited_total : Bytes
limited_total = codes "xyllo_rate_limited_requests_total"

abbrev pub panics_total : Bytes
panics_total = codes "xyllo_worker_panics_recovered_total"

pub data Kind : Type 0 where
  counter gauge : Kind

is_counter : Kind → Bool
is_counter counter = true
is_counter gauge = false

-- What NewCounterVec, NewCounter and NewGauge are given.
pub record Metric : Type 0 where
  pub kind : Kind
  pub name : Bytes
  pub help : Bytes
  pub labels : List Bytes

-- The metrics of NewPrometheusProvider, in the order in which it registers them; the collectors of
-- the client library follow.
abbrev pub provider_metrics : List Metric
provider_metrics =
    record {
      kind = counter;
      name = ingested_total;
      help = codes "Total number of events received by the ingestor.";
      labels = codes "source" ∷ [];
    }
    ∷ record {
      kind = counter;
      name = rejected_total;
      help = codes "Total number of events rejected by the validation middleware.";
      labels = codes "source" ∷ codes "reason" ∷ [];
    }
    ∷ record {
      kind = counter;
      name = dlq_total;
      help = codes "Total number of payloads routed to the Dead Letter Queue.";
      labels = [];
    }
    ∷ record {
      kind = counter;
      name = flushes_total;
      help = codes "Total number of batch flushes sent to the upstream exporter.";
      labels = [];
    }
    ∷ record {
      kind = gauge;
      name = buffer_depth;
      help = codes "Current number of payloads queued in the dispatcher buffer.";
      labels = [];
    }
    ∷ record {
      kind = counter;
      name = limited_total;
      help = codes "Total number of requests dropped by the per-source rate limiter.";
      labels = codes "source" ∷ [];
    }
    ∷ record {
      kind = counter;
      name = panics_total;
      help = codes "Total number of panics recovered by the dispatcher worker pool.";
      labels = [];
    }
    ∷ []

-- A counter of that name with so many labels is among the metrics.
unfoldable pub declared : Bytes → ℕ → List Metric → Bool
unfolding ◌==◌ is_counter
declared name n [] = false
declared name n (m ∷ ms) =
    (is_counter m.kind && (m.name == name && eqb (length m.labels) n)) || declared name n ms

-- `inc name labels` is WithLabelValues(labels...).Inc() on the counter of that name, or Inc() where it
-- has no labels; `none` is a panic, which there is none of for as many label values as the counter
-- has labels, all of them `Valid`: that is valid UTF-8. `set` is Set on a gauge; `value` is what the
-- registry reports for a counter. An increment adds one to its own series only, and a gauge changes
-- no counter of another name.
pub record PrometheusClient : Type 1 where
  pub State : Type 0
  pub Valid : Bytes → Type 0
  pub inc : Bytes → List Bytes → State → Option State
  pub set : Bytes → ℕ → State → State
  pub value : Bytes → List Bytes → State → ℕ
  pub inc-valid :
      (name : Bytes) (labels : List Bytes) (s : State)
      → declared name (length labels) provider_metrics ≡ true
      → All Valid labels
      → (s' : State) × (inc name labels s ≡ some s')
  pub value-inc :
      (name other : Bytes) (labels others : List Bytes) (s s' : State)
      → inc name labels s ≡ some s'
      → value other others s'
        ≡ value other others s + (if name == other && same labels others then 1 else 0)
  pub value-set :
      (name other : Bytes) (n : ℕ) (others : List Bytes) (s : State)
      → name == other ≡ false
      → value other others (set name n s) ≡ value other others s

-- How often a source's events were rejected for a reason.
abbrev pub rejected_for : Bytes → Bytes → Observation → ℕ
rejected_for source reason (event_rejected s r) =
    if s == source && (r == reason && true) then 1 else 0
rejected_for source reason _ = 0

abbrev pub ingested_from : Bytes → Observation → ℕ
ingested_from source (event_ingested s) = if s == source && true then 1 else 0
ingested_from source _ = 0

module _ (client : PrometheusClient) where
  open client use {State, Valid, inc, set, value, inc-valid, value-inc, value-set}

  -- The provider's method for each call; `none` is a panic.
  unfoldable pub observe : Observation → State → Option State
  observe (event_ingested source) s = inc ingested_total (source ∷ []) s
  observe (event_rejected source reason) s = inc rejected_total (source ∷ reason ∷ []) s
  observe dlq_enqueued s = inc dlq_total [] s
  observe batcher_flush s = inc flushes_total [] s
  observe (worker_pool_depth n) s = some (set buffer_depth n s)
  observe (rate_limited source) s = inc limited_total (source ∷ []) s
  observe panic_recovered s = inc panics_total [] s

  -- The calls in `os`, of which the first came last.
  unfoldable pub replay : List Observation → State → Option State
  unfolding observe
  replay [] s = some s
  replay (o ∷ os) s = replay os s >>= observe o

  -- The label values of a call are valid.
  abbrev pub IsLabelled : Observation → Type 0
  IsLabelled (event_ingested source) = Valid source
  IsLabelled (event_rejected source reason) = Valid source × Valid reason
  IsLabelled (rate_limited source) = Valid source
  IsLabelled _ = Unit

  observe-some :
      (o : Observation) (s : State) → IsLabelled o → (s' : State) × (observe o s ≡ some s')
  unfolding observe declared
  observe-some (event_ingested source) s v = inc-valid ingested_total (source ∷ []) s refl (v, tt)
  observe-some (event_rejected source reason) s (v, u) =
      inc-valid rejected_total (source ∷ reason ∷ []) s refl (v, (u, tt))
  observe-some dlq_enqueued s v = inc-valid dlq_total [] s refl tt
  observe-some batcher_flush s v = inc-valid flushes_total [] s refl tt
  observe-some (worker_pool_depth n) s v = (_, refl)
  observe-some (rate_limited source) s v = inc-valid limited_total (source ∷ []) s refl (v, tt)
  observe-some panic_recovered s v = inc-valid panics_total [] s refl tt

  set_step :
      (name : Bytes) (others : List Bytes) (n : ℕ) (s s' : State)
      → buffer_depth == name ≡ false
      → some (set buffer_depth n s) ≡ some s'
      → value name others s' ≡ value name others s
  set_step name others n s s' h e =
      let same_state : set buffer_depth n s ≡ s' = cc in
      subst (λ t. value name others t ≡ value name others s) same_state
        (value-set buffer_depth name n others s h)

  dlq_step :
      (o : Observation) (s s' : State)
      → observe o s ≡ some s'
      → value dlq_total [] s' ≡ value dlq_total [] s + enqueued o
  unfolding observe ◌==◌
  dlq_step (event_ingested from) s s' e = value-inc ingested_total dlq_total (from ∷ []) [] s s' e
  dlq_step (event_rejected from why) s s' e =
      value-inc rejected_total dlq_total (from ∷ why ∷ []) [] s s' e
  dlq_step (dlq_enqueued) s s' e = value-inc dlq_total dlq_total [] [] s s' e
  dlq_step (batcher_flush) s s' e = value-inc flushes_total dlq_total [] [] s s' e
  dlq_step (worker_pool_depth n) s s' e =
      let kept = set_step dlq_total [] n s s' refl e in omega arith
  dlq_step (rate_limited from) s s' e = value-inc limited_total dlq_total (from ∷ []) [] s s' e
  dlq_step (panic_recovered) s s' e = value-inc panics_total dlq_total [] [] s s' e

  rejected_step :
      (source reason : Bytes) (o : Observation) (s s' : State)
      → observe o s ≡ some s'
      → value rejected_total (source ∷ reason ∷ []) s'
        ≡ value rejected_total (source ∷ reason ∷ []) s + rejected_for source reason o
  unfolding observe ◌==◌
  rejected_step source reason (event_ingested from) s s' e =
      value-inc ingested_total rejected_total (from ∷ []) (source ∷ reason ∷ []) s s' e
  rejected_step source reason (event_rejected from why) s s' e =
      value-inc rejected_total rejected_total (from ∷ why ∷ []) (source ∷ reason ∷ []) s s' e
  rejected_step source reason (dlq_enqueued) s s' e =
      value-inc dlq_total rejected_total [] (source ∷ reason ∷ []) s s' e
  rejected_step source reason (batcher_flush) s s' e =
      value-inc flushes_total rejected_total [] (source ∷ reason ∷ []) s s' e
  rejected_step source reason (worker_pool_depth n) s s' e =
      let kept = set_step rejected_total (source ∷ reason ∷ []) n s s' refl e in omega arith
  rejected_step source reason (rate_limited from) s s' e =
      value-inc limited_total rejected_total (from ∷ []) (source ∷ reason ∷ []) s s' e
  rejected_step source reason (panic_recovered) s s' e =
      value-inc panics_total rejected_total [] (source ∷ reason ∷ []) s s' e

  ingested_step :
      (source : Bytes) (o : Observation) (s s' : State)
      → observe o s ≡ some s'
      → value ingested_total (source ∷ []) s'
        ≡ value ingested_total (source ∷ []) s + ingested_from source o
  unfolding observe ◌==◌
  ingested_step source (event_ingested from) s s' e =
      value-inc ingested_total ingested_total (from ∷ []) (source ∷ []) s s' e
  ingested_step source (event_rejected from why) s s' e =
      value-inc rejected_total ingested_total (from ∷ why ∷ []) (source ∷ []) s s' e
  ingested_step source (dlq_enqueued) s s' e =
      value-inc dlq_total ingested_total [] (source ∷ []) s s' e
  ingested_step source (batcher_flush) s s' e =
      value-inc flushes_total ingested_total [] (source ∷ []) s s' e
  ingested_step source (worker_pool_depth n) s s' e =
      let kept = set_step ingested_total (source ∷ []) n s s' refl e in omega arith
  ingested_step source (rate_limited from) s s' e =
      value-inc limited_total ingested_total (from ∷ []) (source ∷ []) s s' e
  ingested_step source (panic_recovered) s s' e =
      value-inc panics_total ingested_total [] (source ∷ []) s s' e

  -- Any sequence of calls whose label values are valid UTF-8 goes through without a panic: each
  -- increment is of a counter that the provider has declared, with as many values as it has labels.
  -- Afterwards the provider's counters have grown by what the sequence says: the dead letter counter
  -- by its dead letters, a source's counter of accepted events by the events accepted from it, and
  -- its counter of rejections for a reason by the rejections for that reason.
  pub replay-counts :
      (source reason : Bytes) (os : List Observation) (s : State)
      → All IsLabelled os
      → (s' : State) × (replay os s ≡ some s')
        × (value dlq_total [] s' ≡ value dlq_total [] s + sum_by enqueued os)
        × (value ingested_total (source ∷ []) s'
            ≡ value ingested_total (source ∷ []) s + sum_by (ingested_from source) os)
        × (value rejected_total (source ∷ reason ∷ []) s'
            ≡ value rejected_total (source ∷ reason ∷ []) s
              + sum_by (rejected_for source reason) os)
  unfolding replay
  replay-counts source reason [] s v = (s, refl, omega arith, omega arith, omega arith)
  replay-counts source reason (o ∷ os) s (v, vs) =
      let (t, went, dead, taken, refused) = replay-counts source reason os s vs in
      let (s', goes) = observe-some o t v in
      let dead' = dlq_step o t s' goes in
      let taken' = ingested_step source o t s' goes in
      let refused' = rejected_step source reason o t s' goes in
      (s', rw went goes, omega arith, omega arith, omega arith)
