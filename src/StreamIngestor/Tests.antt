-- ===== src/StreamIngestor/Tests.antt =====
-- A consumer of one region, with room for one payload in the buffer.
use xyllo.Base.{
  none, ◌++◌, ◌↔◌, All, Option, List, Bytes, codes, ◌==◌, true, false, some, [], ◌∷◌, ◌≡◌, refl,
  lookup, bytes_eq,
}
use xyllo.Metrics.{
  recording, event_ingested, event_rejected, worker_pool_depth, record_event_ingested,
  record_event_rejected, observe_worker_pool_depth,
}
use xyllo.Dispatcher.{Payload, submit}
use xyllo.Translator.{new_registry}
use xyllo.RedisStore.{busy_group_err, streams, nothing, refused}
use xyllo.StreamIngestor.{
  setup_groups, stream_key, Ack, Consumer, extract_bytes, handle_message, cancelled, reads, Turn,
  consume_region,
}
use xyllo.Samples.{unknown_error, dispatcher, redis, draw, message}
use xyllo.StreamIngestor.Setup.{IsReady, setup_groups-IsReady}
use xyllo.StreamIngestor.Ends.{Ended, consume_region-Ended}
use xyllo.Xlerr.{Error, plain}
use xyllo.StreamIngestor.Delivery.{Delivered, handle_message-Delivered}
use xyllo.StreamIngestor.Progress.{Progress, consume_region-Progress}

abbrev consumer : Consumer
consumer = record { cfg = redis; disp = dispatcher; reg = new_registry unknown_error; acked = [] }

abbrev queued : Payload
queued = record {
  source = codes "eu";
  content =
      codes
        "{\"id\":\"u-1\",\"source\":\"eu\",\"event_type\":\"click\",\"timestamp_ms\":1700000000000,\"received_at\":\"2023-11-14T22:13:20.000000002Z\",\"body\":{}}";
}

abbrev acks : Bytes → Ack
acks id = record { stream = codes "xyllo:eu"; group = codes "g"; message = id }

abbrev one_in : Consumer
one_in = record consumer {
  disp = record dispatcher {
    buf = queued ∷ [];
    world = record dispatcher.world {
      metrics = recording (event_ingested (codes "eu") ∷ worker_pool_depth 1 ∷ []);
    };
  };
  acked = acks (codes "1-0") ∷ [];
}

handled_lem :
    handle_message (codes "xyllo:eu") (codes "eu") (message (codes "1-0")) draw consumer
    ≡ some one_in
unfolding handle_message new_registry ◌==◌ submit record_event_ingested observe_worker_pool_depth
handled_lem = refl

handle_message-Delivered_example :
    Delivered
      (codes "eu")
      draw
      (extract_bytes (lookup (codes "data") (message (codes "1-0")).values))
      (acks (codes "1-0"))
      consumer
      one_in
handle_message-Delivered_example =
    handle_message-Delivered (codes "xyllo:eu") (codes "eu") (message (codes "1-0")) draw consumer
      one_in handled_lem

-- The second message finds the buffer full, and is not acknowledged.
abbrev one_refused : Consumer
one_refused = record one_in {
  disp = record one_in.disp {
    world = record dispatcher.world {
      metrics = recording (
          event_rejected (codes "eu") (codes "buffer_full")
          ∷ event_ingested (codes "eu")
          ∷ worker_pool_depth 1
          ∷ []);
    };
  };
}

consumed_lem :
    consume_region
      (codes "eu")
      (reads nothing false (λ i. draw)
        ∷ reads
            (streams ((codes "xyllo:eu", message (codes "1-0") ∷ message (codes "2-0") ∷ []) ∷ []))
            false
            (λ i. draw)
        ∷ cancelled
        ∷ [])
      consumer
    ≡ some (one_refused, true)
unfolding consume_region new_registry ◌==◌ submit record_event_ingested record_event_rejected
    observe_worker_pool_depth
consumed_lem = refl

consume_region-Progress_example : Progress (codes "eu") consumer one_refused
consume_region-Progress_example =
    consume_region-Progress (codes "eu")
      (reads nothing false (λ i. draw)
        ∷ reads
            (streams ((codes "xyllo:eu", message (codes "1-0") ∷ message (codes "2-0") ∷ []) ∷ []))
            false (λ i. draw)
        ∷ cancelled
        ∷ [])
      consumer one_refused true consumed_lem

abbrev busy : Bytes → Option Error
busy stream = some (plain busy_group_err)

-- After a restart the group exists.
setup_groups-IsReady_example :
    (setup_groups redis busy (codes "eu" ∷ []) ≡ none)
    ↔ All (λ region. IsReady (busy (stream_key redis region))) (codes "eu" ∷ [])
setup_groups-IsReady_example = setup_groups-IsReady redis busy (codes "eu" ∷ [])

-- Redis fails once, then two messages come, and then the context is cancelled.
abbrev some_turns : List Turn
some_turns =
    reads (refused (plain (codes "i/o timeout"))) false (λ i. draw)
    ∷ reads (streams ((codes "xyllo:eu", message (codes "1-0") ∷ message (codes "2-0") ∷ []) ∷ []))
        false (λ i. draw)
    ∷ []

consume_region-Ended_example :
    Ended (consume_region (codes "eu") (some_turns ++ cancelled ∷ []) consumer)
consume_region-Ended_example = consume_region-Ended (codes "eu") some_turns [] consumer refl
