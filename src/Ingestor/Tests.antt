-- ===== src/Ingestor/Tests.antt =====
-- Requests to a server with room for one payload.
use xyllo.Base.{codes, ◌==◌, some, [], ◌∷◌, ◌≡◌, ◌⊎◌, refl, bytes_eq}
use xyllo.Metrics.{
  recording, event_ingested, worker_pool_depth, record_event_ingested, observe_worker_pool_depth,
}
use xyllo.Dispatcher.{Payload, submit}
use xyllo.Translator.{new_registry, translate}
use xyllo.Auth.{authorize}
use xyllo.Auth.Access.{Admitted}
use xyllo.Ingestor.{Server, Response, accepted, handle_ingest, serve, source_of}
use xyllo.Ingestor.Answers.{Answered, handle_ingest-Answered}
use xyllo.Samples.{dispatcher, server, chance, header, click, no_tokens}
use xyllo.Ingestor.Entry.{serve-Admitted}

abbrev queued : Payload
queued = record {
  source = codes "web";
  content =
      codes
        "{\"id\":\"u-1\",\"source\":\"web\",\"event_type\":\"click\",\"timestamp_ms\":1700000000000,\"received_at\":\"2023-11-14T22:13:20.000000002Z\",\"body\":{}}";
}

abbrev after : Server
after = record server {
  disp = record dispatcher {
    buf = queued ∷ [];
    world = record dispatcher.world {
      metrics = recording (event_ingested (codes "web") ∷ worker_pool_depth 1 ∷ []);
    };
  };
}

abbrev created : Response
created = record { status = 202; content = accepted (codes "u-1") }

click_lem : handle_ingest chance click server ≡ some (after, created)
unfolding handle_ingest new_registry ◌==◌ submit record_event_ingested observe_worker_pool_depth
click_lem = refl

handle_ingest-Answered_example :
    Answered
      (codes "u-1")
      (source_of header)
      (translate server.reg 1700000000000000001 1700000000000000002 (source_of header) click.body)
      dispatcher
      after.disp
      created
handle_ingest-Answered_example =
    handle_ingest-Answered chance click server after created (refl, tt) (λ e. cc) click_lem

served_lem : serve no_tokens chance click server ≡ some (after, created)
unfolding serve handle_ingest new_registry ◌==◌ submit authorize record_event_ingested
    observe_worker_pool_depth
served_lem = refl

serve-Admitted_example : (after ≡ server) ⊎ Admitted no_tokens server.auth header
serve-Admitted_example = serve-Admitted no_tokens chance click server after created served_lem
