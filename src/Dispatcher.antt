-- ===== src/Dispatcher.antt =====
-- internal/dispatcher/dispatcher.go: the bounded buffer and the worker pool, as a state with one
-- function for each step that a goroutine makes. The steps of different workers come in any order.
-- The buffered channel is a queue of at most `capacity` payloads, oldest first; an unbuffered
-- channel, which hands payloads over only to a waiting receiver, is left out (`validate` of the
-- configuration refuses a buffer size below 1).
pub mod Moves
pub mod Processing
pub mod Conservation
pub mod Shutdown
pub mod Drain
pub mod Batching
pub mod Reports
mod Tests
use xyllo.Base.{
  Bytes, Bool, true, false, not, ℕ, suc, ◌+◌, ℤ, pos, pos_part, ltb_ℤ, ltb, Option, none, some,
  List, [], ◌∷◌, ◌++◌, length, get_elem?, set, replicate, if◌then◌else◌,
}
use mathlib.Core.Option
use xyllo.Config.{DispatcherConfig}
use xyllo.Metrics.{
  Provider, observe_worker_pool_depth, record_event_rejected, record_dlq_enqueued,
  record_panic_recovered,
}
use xyllo.Xlerr.{
  Error, PipelineError, plain, validation, dispatch, validation_error, panic, code_text,
  pipeline_text,
}
use xyllo.Xlerr
use xyllo.Middleware.{Result, World, Verdict, passed, failed, panicked, Chain, run}
use xyllo.Batcher.{Batcher, append_locked, flush}
use xyllo.Dlq.{Dlq, push}

pub record Payload : Type 0 where
  pub source : Bytes
  pub content : Bytes

-- Where a worker stands: waiting for a payload, with a payload from the channel, with a dead letter
-- that it has reported to the metrics and not yet pushed, about to flush the batcher that it has
-- filled, or returned from `process`.
pub data Worker : Type 0 where
  idle : Worker
  busy : Payload → Worker
  pushing : Payload → PipelineError → Worker
  flushing : Worker
  exited : Worker

pub record Dispatcher : Type 0 where
  pub cfg : DispatcherConfig
  pub chain : Chain
  pub batcher : Batcher
  pub dlq : Dlq
  pub buf : List Payload
  pub capacity : ℕ
  pub closed : Bool
  pub workers : List Worker
  pub world : World

-- `make` panics on a negative size: `none`. A negative number of workers starts none.
unfoldable pub new : DispatcherConfig → Chain → Batcher → Dlq → World → Option Dispatcher
new cfg chain bat dlq world =
    if ltb_ℤ cfg.buffer_size (pos 0)
    then none
    else some (record {
      cfg = cfg;
      chain = chain;
      batcher = bat;
      dlq = dlq;
      buf = [];
      capacity = pos_part cfg.buffer_size;
      closed = false;
      workers = replicate (pos_part cfg.workers) idle;
      world = world;
    })

observe_depth : List Payload → World → World
observe_depth buf w = record w { metrics = observe_worker_pool_depth (length buf) w.metrics }

unfoldable pub enqueue : Payload → Dispatcher → Dispatcher
unfolding observe_depth
enqueue p d =
    let buf' = d.buf ++ p ∷ [] in record d { buf = buf'; world = observe_depth buf' d.world }

-- A send on a closed channel panics: `none`.
unfoldable pub submit : Payload → Dispatcher → Option (Dispatcher × Bool)
unfolding enqueue
submit p d =
    if d.closed
    then none
    else if ltb (length d.buf) d.capacity
    then some (enqueue p d, true)
    else some (d, false)

-- The error that `processOne` reports for a payload that does not pass.
unfoldable pub rejection : Payload → Error → PipelineError
rejection p err = Xlerr.new validation validation_error p.source err

unfoldable pub panic_report : Payload → Bytes → PipelineError
panic_report p text = Xlerr.new dispatch panic p.source (plain text)

report_dead : Provider → Dispatcher → Dispatcher
report_dead m d = record d { world = record d.world { metrics = record_dlq_enqueued m } }

-- What `processOne` does after the chain, `recover` included, up to the push of a dead letter or the
-- flush of a full batcher, which the worker goes on to.
settle : Payload → Verdict → Dispatcher → Dispatcher × Worker
unfolding report_dead rejection panic_report
settle p passed d =
    let (b, full) = append_locked p.content d.batcher in
    (record d { batcher = b }, if full then flushing else idle)
settle p (failed err) d =
    let m = record_event_rejected p.source (code_text validation_error) d.world.metrics in
    (report_dead m d, pushing p (rejection p err))
settle p (panicked text) d =
    (report_dead (record_panic_recovered d.world.metrics) d, pushing p (panic_report p text))

-- The outcome of the chain on a payload that a worker has received.
unfoldable pub judge : Payload → Dispatcher → Verdict × World × Result
unfolding observe_depth
judge p d =
    run d.chain (observe_depth d.buf d.world)
      (record { source = p.source; payload = p.content; problems = [] })

unfoldable pub process_one : Payload → Dispatcher → Dispatcher × Worker
unfolding settle
process_one p d =
    let (verdict, world, _) = judge p d in settle p verdict (record d { world = world })

-- The receive of `range d.buf`: the next payload, or the end of the loop once the channel is closed
-- and empty. A worker that would block makes no step.
receive : ℕ → List Payload → Bool → Dispatcher → Option Dispatcher
receive i (p ∷ rest) closed d = some (record d { buf = rest; workers = set d.workers i (busy p) })
receive i [] true d = some (record d { workers = set d.workers i exited })
receive i [] false d = none

-- A worker that holds a payload processes it.
unfoldable pub finish : ℕ → Payload → Dispatcher → Dispatcher
finish i p d = let (d', w) = process_one p d in record d' { workers = set d'.workers i w }

-- The call of Push that ends the processing of a payload that did not pass.
unfoldable pub push_dead : Bool → ℕ → Payload → PipelineError → Dispatcher → Dispatcher
push_dead writes i p pe d = record d {
  dlq = push writes d.world.now p.source (pipeline_text pe) p.content d.dlq;
  workers = set d.workers i idle;
}

advance : Bool → ℕ → Dispatcher → Option Worker → Option Dispatcher
unfolding receive
advance writes i d (some idle) = receive i d.buf d.closed d
advance writes i d (some (busy p)) = some (finish i p d)
advance writes i d (some (pushing p pe)) = some (push_dead writes i p pe d)
advance writes i d (some flushing) =
    some (record d { batcher = flush d.batcher; workers = set d.workers i idle })
advance writes i d (some exited) = none
advance writes i d none = none

-- The next step of worker `i`. `writes` says whether a write to the dead letter file succeeds.
unfoldable pub work : Bool → ℕ → Dispatcher → Option Dispatcher
unfolding advance
work writes i d = advance writes i d (get_elem? d.workers i)

-- The first half of `Shutdown`. Closing a closed channel panics: `none`.
unfoldable pub close_buf : Dispatcher → Option Dispatcher
close_buf d = if d.closed then none else some (record d { closed = true })

-- `wg.Wait` returns once every worker has returned, and with it `Shutdown`.
unfoldable pub all_exited : List Worker → Bool
all_exited [] = true
all_exited (exited ∷ ws) = all_exited ws
all_exited (_ ∷ ws) = false

-- What can happen next: a call of Submit or Shutdown, a step of a worker, or time that passes.
pub data Action : Type 0 where
  submits : Payload → Action
  works : Bool → ℕ → Action
  closes : Action
  waits : ℕ → Action

submitted : Payload → Dispatcher × Bool → Dispatcher × List Payload
submitted p (d, true) = (d, p ∷ [])
submitted p (d, false) = (d, [])

silently : Dispatcher → Dispatcher × List Payload
silently d = (d, [])

-- The state after an action, and the payloads that it accepted: the one for which Submit returned
-- true. `none`: the action panics, or its worker has nothing to do.
unfoldable pub step : Action → Dispatcher → Option (Dispatcher × List Payload)
unfolding submitted silently
step (submits p) d = Option.map (submitted p) (submit p d)
step (works writes i) d = Option.map silently (work writes i d)
step closes d = Option.map silently (close_buf d)
step (waits n) d = some (record d { world = record d.world { now = d.world.now + n } }, [])

then_accept : List Payload → Option (Dispatcher × List Payload) → Option (Dispatcher × List Payload)
then_accept ps none = none
then_accept ps (some (d, qs)) = some (d, ps ++ qs)

-- A schedule: the actions one after another, and all that was accepted, in order.
unfoldable pub runs : List Action → Dispatcher → Option (Dispatcher × List Payload)
unfolding then_accept
runs [] d = some (d, [])
runs (a ∷ rest) d = elim (step a d) [ none ↦ none | some (d', ps) ↦ then_accept ps (runs rest d') ]
