-- ===== src/System/Tests.antt =====
-- A request, a message and another one that finds the buffer full, and then the shutdown.
use xyllo.Base.{
  Bytes, codes, ◌==◌, true, none, some, List, [], ◌∷◌, ◌≡◌, refl, arith, flatten, lookup, insert,
  bytes_eq, ◌-ℤ◌,
}
use xyllo.Metrics.{
  recording, event_ingested, worker_pool_depth, record_event_ingested, record_event_rejected,
  observe_worker_pool_depth, record_dlq_enqueued, record_panic_recovered,
}
use xyllo.Middleware.{run}
use xyllo.Batcher.{append_locked, flush}
use xyllo.Dlq.{push}
use xyllo.Auth.{authorize}
use xyllo.Translator.{new_registry}
use xyllo.Dispatcher.{
  Payload, works, closes, submit, step, work, close_buf, all_exited, finish, process_one, judge,
}
use xyllo.Ingestor.{Server, Response, accepted, serve, handle_ingest}
use xyllo.StreamIngestor.{Consumer, handle_message, stream_key}
use xyllo.System.Ingested.{IsQueued, handle_ingest-IsQueued}
use xyllo.Samples.{
  unknown_error, dispatcher, server, chance, click, no_tokens, redis, draw, message,
}
use xyllo.System.{
  System, consumer_of, Happening, requests, receives, acts, Outcome, happen, history,
}
use xyllo.RedisStore.{FieldValue, text, slice, other, x_add_values}
use xyllo.System.Streamed.{Arrived, published-Arrived}

abbrev system : System
system = record { server = server; redis = redis; acked = [] }

abbrev happenings : List Happening
happenings =
    requests chance click
    ∷ acts (works true 0)
    ∷ receives (codes "eu") (message (codes "1-0")) draw
    ∷ receives (codes "eu") (message (codes "2-0")) draw
    ∷ acts (works true 0)
    ∷ acts (works true 0)
    ∷ acts closes
    ∷ acts (works true 0)
    ∷ acts (works true 0)
    ∷ acts (works true 0)
    ∷ []

machine : Unit {0}
unfolding history happen step submit work close_buf all_exited finish process_one judge run
    append_locked flush push serve handle_ingest handle_message new_registry authorize stream_key
    ◌==◌ lookup insert flatten ◌-ℤ◌ record_event_ingested record_event_rejected
    observe_worker_pool_depth record_dlq_enqueued record_panic_recovered
machine = tt

outcome : System × List Outcome
unfolding machine
outcome = elim (history no_tokens happenings system) [ none ↦ (system, []) | some r ↦ r ]

abbrev click_payload : Payload
click_payload = record {
  source = codes "web";
  content =
      codes
        "{\"id\":\"u-1\",\"source\":\"web\",\"event_type\":\"click\",\"timestamp_ms\":1700000000000,\"received_at\":\"2023-11-14T22:13:20.000000002Z\",\"body\":{}}";
}

abbrev with_click : Server
with_click = record server {
  disp = record dispatcher {
    buf = click_payload ∷ [];
    world = record dispatcher.world {
      metrics = recording (event_ingested (codes "web") ∷ worker_pool_depth 1 ∷ []);
    };
  };
}

abbrev created : Response
created = record { status = 202; content = accepted (codes "u-1") }

ingested_lem : handle_ingest chance click server ≡ some (with_click, created)
unfolding handle_ingest new_registry ◌==◌ submit record_event_ingested observe_worker_pool_depth
ingested_lem = refl

handle_ingest-IsQueued_example :
    IsQueued unknown_error unknown_error chance click dispatcher.world dispatcher with_click.disp
handle_ingest-IsQueued_example =
    handle_ingest-IsQueued unknown_error unknown_error chance click server with_click created
      dispatcher.world (refl, tt) (λ e. cc) refl (omega arith) (omega arith) (λ e. cc) ingested_lem
      refl

-- Redis gives each byte slice back as a string.
as_stored : List (Bytes × FieldValue) → List (Bytes × FieldValue)
as_stored [] = []
as_stored ((name, slice s) ∷ rest) = (name, text s) ∷ as_stored rest
as_stored ((name, text s) ∷ rest) = (name, text s) ∷ as_stored rest
as_stored ((name, other) ∷ rest) = (name, other) ∷ as_stored rest

as_stored_lem : (s : Bytes) → as_stored ((codes "data", slice s) ∷ []) ≡ (codes "data", text s) ∷ []
unfolding as_stored
as_stored_lem s = refl

abbrev raw : Bytes
raw = codes "{\"event_type\":\"click\",\"body\": {}}"

published-Arrived_example :
    (c : Consumer) × (handle_message
        (codes "xyllo:eu")
        (codes "eu")
        (record { id = codes "1-0"; values = as_stored (x_add_values raw) })
        draw
        (consumer_of system)
      ≡ some c)
    × (c.acked
        ≡ record { stream = codes "xyllo:eu"; group = codes "g"; message = codes "1-0" } ∷ [])
    × Arrived unknown_error unknown_error (codes "eu") raw draw dispatcher.world dispatcher c.disp
published-Arrived_example =
    published-Arrived as_stored unknown_error unknown_error (codes "xyllo:eu") (codes "eu")
      (codes "1-0") raw draw (consumer_of system) dispatcher.world as_stored_lem refl refl
      (ground arith) (omega arith) (omega arith) (λ e. cc) (λ e. cc)
