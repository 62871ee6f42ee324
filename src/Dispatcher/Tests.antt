-- ===== src/Dispatcher/Tests.antt =====
-- Two workers on a buffer for two payloads: a schedule with a refused payload, a full batch, a
-- rejected payload, a panic and the shutdown.
use xyllo.Base.{
  Bytes, codes, ◌==◌, Bool, true, false, ℕ, ◌+◌, ◌≤◌, ◌<◌, pos, List, [], ◌∷◌, none, some, length,
  sum_by, if◌then◌else◌, ◌≡◌, refl, arith, map, inl, inr, Bool-cases, ◌⊎◌, lookup, insert, flatten,
  ◌+ℤ◌, ◌-ℤ◌, ◌*ℤ◌,
}
use xyllo.Config.{DispatcherConfig, RateLimitConfig}
use xyllo.Metrics.{
  recording, dlq_count, observe_worker_pool_depth, record_event_rejected, record_dlq_enqueued,
  record_panic_recovered, record_rate_limited,
}
use xyllo.Xlerr
use xyllo.Xlerr.{plain, quote, error_text, pipeline_text}
use xyllo.Middleware.{World, passed, failed, panicked, Handler, Chain, new_chain, run, rate_limit}
use xyllo.Middleware.Bucket.{new_bucket, refill, allow, bucket_for, limit}
use xyllo.Batcher.{Batcher, append_locked, flush}
use xyllo.Dlq.{Dlq, push}
use xyllo.Dispatcher.{
  Payload, idle, Dispatcher, new, submit, judge, process_one, finish, push_dead, work, close_buf,
  all_exited, Action, submits, works, closes, step, runs,
}
use xyllo.Dispatcher.Shutdown.{Inv, new-runs-Inv}
use xyllo.Dispatcher.Drain.{drain-ends}
use xyllo.Dispatcher.Batching.{is_flushing, buffer-contained}
use xyllo.Middleware.Quiet.{IsQuiet, rate_limit-IsQuiet, run-IsQuiet}
use xyllo.Dispatcher.Reports.{lines, is_pushing, reports-agree}

abbrev picky : Handler
picky w r =
    if r.payload == codes "bad"
    then (failed (plain (codes "bad payload")), w, r)
    else if r.payload == codes "boom"
    then (panicked (codes "boom"), w, r)
    else (passed, w, r)

abbrev chain : Chain
chain = record { handlers = rate_limit ∷ picky ∷ [] }

abbrev cfg : DispatcherConfig
cfg = record { workers = pos 2; buffer_size = pos 2 }

abbrev bat : Batcher
bat = record {
  cfg = record { max_size = pos 2; flush_interval = pos 1 };
  buf = [];
  exported = [];
  ticking = true;
}

abbrev dlq : Dlq
dlq = record {
  cfg = record { backend = codes "file"; target = codes "dlq.log" };
  is_open = true;
  written = [];
  logged = [];
}

abbrev limits : RateLimitConfig
limits = record { enabled = true; requests_per_second = pos 10; burst_size = pos 3 }

abbrev world : World
world = record { now = 0; limiter = record { cfg = limits; buckets = [] }; metrics = recording [] }

abbrev from : Bytes → Payload
from text = record { source = codes "web"; content = text }

abbrev start : Dispatcher
start = record {
  cfg = cfg;
  chain = chain;
  batcher = bat;
  dlq = dlq;
  buf = [];
  capacity = 2;
  closed = false;
  workers = idle ∷ idle ∷ [];
  world = world;
}

made : new cfg chain bat dlq world ≡ some start
unfolding new
made = refl

-- The two in the buffer are taken, "c" was refused; "bad" is taken after that.
abbrev actions : List Action
actions =
    submits (from (codes "a"))
    ∷ submits (from (codes "b"))
    ∷ submits (from (codes "c"))
    ∷ works true 0
    ∷ works true 1
    ∷ submits (from (codes "bad"))
    ∷ works true 1
    ∷ works true 0
    ∷ works true 0
    ∷ works true 1
    ∷ works true 1
    ∷ works true 1
    ∷ closes
    ∷ works true 0
    ∷ works true 1
    ∷ []

machine : Unit {0}
unfolding runs step submit work close_buf all_exited finish process_one push_dead judge run
    rate_limit limit bucket_for allow refill new_bucket append_locked flush push ◌==◌ lookup insert
    flatten ◌+ℤ◌ ◌-ℤ◌ ◌*ℤ◌ Xlerr.new pipeline_text error_text quote observe_worker_pool_depth
    record_event_rejected record_dlq_enqueued record_panic_recovered record_rate_limited
machine = tt

outcome : Dispatcher × List Payload
unfolding machine
outcome = elim (runs actions start) [ none ↦ (start, []) | some r ↦ r ]

went : runs actions start ≡ some outcome
unfolding outcome
went = refl

new-runs-Inv_example : Inv 2 2 outcome.0
new-runs-Inv_example =
    new-runs-Inv cfg chain bat dlq world actions start outcome.0 outcome.1 made went

buffer-contained_example :
    (length outcome.0.batcher.buf < 2 + sum_by is_flushing outcome.0.workers)
    × (length outcome.0.batcher.buf < 4)
buffer-contained_example =
    buffer-contained 2 cfg chain bat dlq world actions start outcome.0 outcome.1 refl (omega arith)
      made went

-- A handler that reports nothing is quiet.
picky-IsQuiet : IsQuiet picky
picky-IsQuiet w r n h = elim (Bool-cases (r.payload == codes "bad")) [
  | inl bad ↦ rw bad h
  | inr other ↦ elim (Bool-cases (r.payload == codes "boom")) [
    | inl boom ↦ rw (other, boom) h
    | inr fine ↦ rw (other, fine) h
  ]
]

chain-IsQuiet : IsQuiet (run chain)
unfolding new_chain
chain-IsQuiet = run-IsQuiet (rate_limit ∷ picky ∷ []) (rate_limit-IsQuiet, (picky-IsQuiet, tt))

reports-agree_example :
    dlq_count outcome.0.world.metrics + 0
    ≡ lines outcome.0.dlq + 0 + sum_by is_pushing outcome.0.workers
reports-agree_example =
    reports-agree cfg chain bat dlq world actions start outcome.0 outcome.1 0 chain-IsQuiet refl
      made went

-- The same pool with the channel closed and one payload in the buffer, drained by worker 1.
abbrev closing : Dispatcher
closing = record start { closed = true; buf = from (codes "boom") ∷ [] }

abbrev drain : List Action
drain = works true 1 ∷ works true 1 ∷ works true 1 ∷ works true 1 ∷ works true 0 ∷ []

drained : Dispatcher × List Payload
unfolding machine
drained = elim (runs drain closing) [ none ↦ (start, []) | some r ↦ r ]

drain_went : runs drain closing ≡ some drained
unfolding drained
drain_went = refl

drained_lem :
    (all_exited drained.0.workers ≡ true)
    × (map (λ e. e.reason) drained.0.dlq.written
        ≡ codes "[dispatch/panic] source=\"web\": boom" ∷ [])
unfolding drained
drained_lem = (refl, refl)

drain-ends_example :
    (5 ≤ 6)
    × ((all_exited drained.0.workers ≡ true)
        ⊎ ((writes : Bool) → (i : ℕ) × (d : Dispatcher) × (work writes i drained.0 ≡ some d)))
drain-ends_example = drain-ends drain closing drained.0 drained.1 refl (omega arith) drain_went
