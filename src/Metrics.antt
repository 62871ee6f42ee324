-- ===== src/Metrics.antt =====
-- internal/metrics/metrics.go. The pipeline reports to whatever Provider is active; here an
-- active provider is the sequence of calls that it has received, the latest first.
pub mod Prometheus
use xyllo.Base.{Bytes, ℕ, List, [], ◌∷◌, sum_by}

-- The methods of the Provider interface that record something.
pub data Observation : Type 0 where
  event_ingested : Bytes → Observation
  event_rejected : Bytes → Bytes → Observation
  dlq_enqueued : Observation
  batcher_flush : Observation
  worker_pool_depth : ℕ → Observation
  rate_limited : Bytes → Observation
  panic_recovered : Observation

-- `nop` is nopProvider, which discards what it is told.
pub data Provider : Type 0 where
  nop : Provider
  recording : List Observation → Provider

unfoldable pub record_observation : Observation → Provider → Provider
record_observation o nop = nop
record_observation o (recording os) = recording (o ∷ os)

pub set_provider : Provider → Provider → Provider
set_provider p active = p

-- The package's functions, which hand the call to the active provider.
unfoldable pub record_event_ingested : Bytes → Provider → Provider
unfolding record_observation
record_event_ingested source = record_observation (event_ingested source)

unfoldable pub record_event_rejected : Bytes → Bytes → Provider → Provider
unfolding record_observation
record_event_rejected source reason = record_observation (event_rejected source reason)

unfoldable pub record_dlq_enqueued : Provider → Provider
unfolding record_observation
record_dlq_enqueued = record_observation dlq_enqueued

unfoldable pub record_batcher_flush : Provider → Provider
unfolding record_observation
record_batcher_flush = record_observation batcher_flush

unfoldable pub observe_worker_pool_depth : ℕ → Provider → Provider
unfolding record_observation
observe_worker_pool_depth n = record_observation (worker_pool_depth n)

unfoldable pub record_rate_limited : Bytes → Provider → Provider
unfolding record_observation
record_rate_limited source = record_observation (rate_limited source)

unfoldable pub record_panic_recovered : Provider → Provider
unfolding record_observation
record_panic_recovered = record_observation panic_recovered

-- What a provider has been told.
abbrev pub observations : Provider → List Observation
observations nop = []
observations (recording os) = os

abbrev pub enqueued : Observation → ℕ
enqueued dlq_enqueued = 1
enqueued _ = 0

-- How often the provider was told of a payload sent to the dead letter queue.
abbrev pub dlq_count : Provider → ℕ
dlq_count p = sum_by enqueued (observations p)
