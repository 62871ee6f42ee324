-- ===== src/StreamIngestor.antt =====
-- internal/streamingestor/streamingestor.go: one consumer per region, as a loop over what its calls
-- give back. `acked` is the sequence of XACK calls, the latest first; their errors are ignored.
-- Messages are read with ">", so that each comes once. `consume_region` is a consumer that nobody
-- disturbs; System lets the handling of each message interleave with all else.
pub mod Delivery
pub mod Progress
pub mod Setup
pub mod Ends
mod Tests
use xyllo.Base.{
  Bytes, codes, Bool, true, false, ◌&&◌, ◌==◌, ◌++◌, ℕ, Option, none, some, List, [], ◌∷◌, bytes_eq,
  lookup, length, if◌then◌else◌,
}
use xyllo.Metrics.{record_event_ingested, record_event_rejected}
use xyllo.Xlerr.{Error, wrapped, quote}
use xyllo.Config.{RedisConfig}
use xyllo.Json.Numbers.{◌>>=◌}
use xyllo.Dispatcher.{Dispatcher, Payload, submit}
use xyllo.Translator.{Event, Translated, translated, malformed, Registry, translate, marshal}
use xyllo.Ingestor.{with_id, count_ingested, count_rejected}
use xyllo.RedisStore.{
  FieldValue, text, slice, other, Message, create_consumer_group, Reply, Read, messages, read_error,
  x_read_group,
}

-- An XACK call: stream, group and message.
pub record Ack : Type 0 where
  pub stream : Bytes
  pub group : Bytes
  pub message : Bytes

pub record Consumer : Type 0 where
  pub cfg : RedisConfig
  pub disp : Dispatcher
  pub reg : Registry
  pub acked : List Ack

-- Two readings of the clock and the UUID, for one message.
pub record Draw : Type 0 where
  pub now : ℕ
  pub later : ℕ
  pub uuid : Bytes

unfoldable pub stream_key : RedisConfig → Bytes → Bytes
stream_key cfg region = cfg.stream_prefix ++ codes ":" ++ region

unfoldable pub extract_bytes : Option FieldValue → Option Bytes
extract_bytes none = none
extract_bytes (some (text s)) = some s
extract_bytes (some (slice s)) = some s
extract_bytes (some other) = none

x_ack : Bytes → Bytes → Consumer → Consumer
x_ack stream id c =
    let ack : Ack = record { stream = stream; group = c.cfg.consumer_group; message = id } in
    record c { acked = ack ∷ c.acked }

-- After Submit. A panic of Submit is `none`.
submitted : Bytes → Bytes → Bytes → Consumer → Option (Dispatcher × Bool) → Option Consumer
unfolding x_ack count_ingested count_rejected
submitted stream region id c none = none
submitted stream region id c (some (d, true)) =
    some (x_ack stream id (record c { disp = count_ingested region d }))
submitted stream region id c (some (d, false)) =
    some (record c { disp = count_rejected region (codes "buffer_full") d })

submit_message : Bytes → Bytes → Bytes → Consumer → Option Bytes → Option Consumer
unfolding submitted submit x_ack
submit_message stream region id c none = some (x_ack stream id c)
submit_message stream region id c (some json) =
    submitted stream region id c (submit (record { source = region; content = json }) c.disp)

message_translated : Bytes → Bytes → Bytes → Bytes → Consumer → Translated → Option Consumer
unfolding submit_message x_ack count_rejected marshal
message_translated stream region id uuid c (malformed err) =
    some (
      x_ack stream id
        (record c { disp = count_rejected region (codes "translation_error") c.disp }))
message_translated stream region id uuid c (translated e) =
    submit_message stream region id c (marshal (with_id uuid e))

with_bytes : Bytes → Bytes → Bytes → Draw → Consumer → Option Bytes → Option Consumer
unfolding message_translated x_ack translate
with_bytes stream region id draw c none = some (x_ack stream id c)
with_bytes stream region id draw c (some raw) =
    message_translated stream region id draw.uuid c (translate c.reg draw.now draw.later region raw)

unfoldable pub handle_message : Bytes → Bytes → Message → Draw → Consumer → Option Consumer
unfolding with_bytes extract_bytes lookup
handle_message stream region msg draw c =
    with_bytes stream region msg.id draw c (extract_bytes (lookup (codes "data") msg.values))

-- The loop over the messages of one read; `draws` is what chance gives each of them.
unfoldable pub handle_messages :
    Bytes → Bytes → (ℕ → Draw) → List Message → Consumer → Option Consumer
unfolding handle_message
handle_messages stream region draws [] c = some c
handle_messages stream region draws (msg ∷ rest) c =
    handle_message stream region msg (draws (length rest)) c
    >>= handle_messages stream region draws rest

-- One turn of the loop of `consumeRegion`: the context is cancelled before the read; or Redis answers,
-- and the flag says whether the context is cancelled by then.
pub data Turn : Type 0 where
  cancelled : Turn
  reads : Reply → Bool → (ℕ → Draw) → Turn

-- The consumer after the turns, and whether the loop has ended. A panic is `none`.
unfoldable pub consume_region : Bytes → List Turn → Consumer → Option (Consumer × Bool)
unfolding handle_messages x_read_group stream_key
consume_region region [] c = some (c, false)
consume_region region (cancelled ∷ rest) c = some (c, true)
consume_region region (reads reply stopped draws ∷ rest) c =
    elim (x_read_group (stream_key c.cfg region) reply) [
      | read_error err ↦ elim stopped [
        | true ↦ some (c, true)
        | false ↦ consume_region region rest c
      ]
      | messages msgs ↦
          handle_messages (stream_key c.cfg region) region draws msgs c
          >>= consume_region region rest
    ]

abbrev pub setup_error : Bytes → Option Error → Option Error → Option Error
setup_error region none later = later
setup_error region (some err) later =
    some (wrapped (codes "streamingestor: setup region " ++ quote region ++ codes ": ") err)

-- The first loop of `Start`, by what Redis answers for each stream: the error that Start returns
-- before any consumer runs.
unfoldable pub setup_groups : RedisConfig → (Bytes → Option Error) → List Bytes → Option Error
unfolding create_consumer_group stream_key
setup_groups cfg answers [] = none
setup_groups cfg answers (region ∷ rest) =
    let stream = stream_key cfg region in
    setup_error region (create_consumer_group stream cfg.consumer_group (answers stream))
      (setup_groups cfg answers rest)
