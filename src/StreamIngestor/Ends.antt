-- ===== src/StreamIngestor/Ends.antt =====
-- The end of a consumer's loop.
use xyllo.Base.{
  Bytes, Bool, true, false, ◌++◌, ℕ, Option, none, some, List, [], ◌∷◌, length, lookup, codes,
  bytes_eq, ◌≡◌, refl, arith, ◌⊎◌, inl, inr,
}
use xyllo.Json.Numbers.{◌>>=◌}
use xyllo.Dispatcher.{Dispatcher, Payload, enqueue, submit}
use xyllo.Translator.{Translated, translated, malformed, translate, marshal}
use xyllo.Ingestor.{with_id, count_ingested, count_rejected}
use xyllo.RedisStore.{Message, Read, messages, read_error, x_read_group}
use xyllo.StreamIngestor.{
  Consumer, Draw, extract_bytes, x_ack, submitted, submit_message, message_translated, with_bytes,
  handle_message, handle_messages, Turn, cancelled, reads, consume_region, stream_key,
}

-- No panic, and Submit still takes payloads.
abbrev pub IsServing : Option Consumer → Type 0
IsServing o = (c : Consumer) × (o ≡ some c) × (c.disp.closed ≡ false)

submit_open :
    (p : Payload) (d : Dispatcher)
    → d.closed ≡ false
    → (submit p d ≡ some (enqueue p d, true)) ⊎ (submit p d ≡ some (d, false))
unfolding submit
submit_open p d o = ground arith

submit-IsServing :
    (stream region id : Bytes) (json : Option Bytes) (c : Consumer)
    → c.disp.closed ≡ false
    → IsServing (submit_message stream region id c json)
unfolding submit_message submitted x_ack count_ingested count_rejected enqueue
submit-IsServing stream region id none c o = (_, refl, o)
submit-IsServing stream region id (some json) c o =
    let load : Payload = record { source = region; content = json } in
    elim (submit_open load c.disp o) [ inl q ↦ rw q (_, refl, o) | inr q ↦ rw q (_, refl, o) ]

translated-IsServing :
    (stream region id uuid : Bytes) (t : Translated) (c : Consumer)
    → c.disp.closed ≡ false
    → IsServing (message_translated stream region id uuid c t)
unfolding message_translated x_ack count_rejected
translated-IsServing stream region id uuid (malformed err) c o = (_, refl, o)
translated-IsServing stream region id uuid (translated e) c o =
    submit-IsServing stream region id (marshal (with_id uuid e)) c o

bytes-IsServing :
    (stream region id : Bytes) (draw : Draw) (raw : Option Bytes) (c : Consumer)
    → c.disp.closed ≡ false
    → IsServing (with_bytes stream region id draw c raw)
unfolding with_bytes x_ack
bytes-IsServing stream region id draw none c o = (_, refl, o)
bytes-IsServing stream region id draw (some s) c o =
    translated-IsServing stream region id draw.uuid (translate c.reg draw.now draw.later region s) c
      o

pub handle_message-IsServing :
    (stream region : Bytes) (msg : Message) (draw : Draw) (c : Consumer)
    → c.disp.closed ≡ false
    → IsServing (handle_message stream region msg draw c)
unfolding handle_message
handle_message-IsServing stream region msg draw c o =
    bytes-IsServing stream region msg.id draw (extract_bytes (lookup (codes "data") msg.values)) c o

handle_messages-IsServing :
    (stream region : Bytes) (draws : ℕ → Draw) (msgs : List Message) (c : Consumer)
    → c.disp.closed ≡ false
    → IsServing (handle_messages stream region draws msgs c)
unfolding handle_messages
handle_messages-IsServing stream region draws [] c o = (c, refl, o)
handle_messages-IsServing stream region draws (msg ∷ rest) c o =
    let (d, p, q) = handle_message-IsServing stream region msg (draws (length rest)) c o in
    rw p (handle_messages-IsServing stream region draws rest d q)

-- The loop has ended without a panic.
abbrev pub Ended : Option (Consumer × Bool) → Type 0
Ended o = (c : Consumer) × (o ≡ some (c, true)) × (c.disp.closed ≡ false)

turn-Ended :
    (region : Bytes) (rest : List Turn) (r : Read) (stopped : Bool) (draws : ℕ → Draw)
    (c : Consumer)
    → c.disp.closed ≡ false
    → ((d : Consumer) → d.disp.closed ≡ false → Ended (consume_region region rest d))
    → Ended (elim r [
      | read_error err ↦ elim stopped [
        | true ↦ some (c, true)
        | false ↦ consume_region region rest c
      ]
      | messages msgs ↦
          handle_messages (stream_key c.cfg region) region draws msgs c
          >>= consume_region region rest
    ])
turn-Ended region rest (read_error err) true draws c o go = (c, refl, o)
turn-Ended region rest (read_error err) false draws c o go = go c o
turn-Ended region rest (messages msgs) stopped draws c o go =
    let (d, p, q) = handle_messages-IsServing (stream_key c.cfg region) region draws msgs c o in
    rw p (go d q)

-- Before Submit is closed, a consumer's loop does not panic, and whatever Redis answers it has
-- returned by the first turn that finds the context cancelled.
pub consume_region-Ended :
    (region : Bytes) (turns later : List Turn) (c : Consumer)
    → c.disp.closed ≡ false
    → Ended (consume_region region (turns ++ cancelled ∷ later) c)
unfolding consume_region
consume_region-Ended region [] later c o = (c, refl, o)
consume_region-Ended region (cancelled ∷ rest) later c o = (c, refl, o)
consume_region-Ended region (reads reply stopped draws ∷ rest) later c o =
    turn-Ended region (rest ++ cancelled ∷ later) (x_read_group (stream_key c.cfg region) reply)
      stopped draws c o (λ d q. consume_region-Ended region rest later d q)
