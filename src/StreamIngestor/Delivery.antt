-- ===== src/StreamIngestor/Delivery.antt =====
-- Which messages are acknowledged, and what becomes of them.
use xyllo.Base.{
  Bytes, codes, ◌≤◌, ◌<◌, Option, none, some, ◌∷◌, length, lookup, bytes_eq, ◌≡◌, ◌≢◌, refl, subst,
  inl, inr,
}
use xyllo.Xlerr.{Error}
use xyllo.Dispatcher.{Payload, enqueue}
use xyllo.Translator.{Event, Translated, translated, malformed, translate, marshal}
use xyllo.Ingestor.{with_id, count_ingested, count_rejected}
use xyllo.Ingestor.Answers.{Kept, Queued, submit_cases}
use xyllo.RedisStore.{Message}
use xyllo.StreamIngestor.{
  Ack, Consumer, Draw, extract_bytes, x_ack, submitted, submit_message, message_translated,
  with_bytes, handle_message,
}

-- What becomes of a message whose data field is `raw`, for a consumer `c`. `ack` is the call that
-- acknowledges it.
pub data Delivered (region : Bytes) (draw : Draw) (raw : Option Bytes) (ack : Ack) (c c' : Consumer)
    : Type 0 where
  without_data :
      raw ≡ none
      → c'.acked ≡ ack ∷ c.acked
      → Kept c.disp c'.disp
      → Delivered region draw raw ack c c'
  unusable :
      (s : Bytes) (err : Error)
      → raw ≡ some s
      → translate c.reg draw.now draw.later region s ≡ malformed err
      → c'.acked ≡ ack ∷ c.acked
      → Kept c.disp c'.disp
      → Delivered region draw raw ack c c'
  unserialisable :
      (s : Bytes) (e : Event)
      → raw ≡ some s
      → translate c.reg draw.now draw.later region s ≡ translated e
      → marshal (with_id draw.uuid e) ≡ none
      → c'.acked ≡ ack ∷ c.acked
      → Kept c.disp c'.disp
      → Delivered region draw raw ack c c'
  withheld :
      c.disp.capacity ≤ length c.disp.buf
      → c'.acked ≡ c.acked
      → Kept c.disp c'.disp
      → Delivered region draw raw ack c c'
  queued :
      (s json : Bytes) (e : Event)
      → raw ≡ some s
      → translate c.reg draw.now draw.later region s ≡ translated e
      → marshal (with_id draw.uuid e) ≡ some json
      → length c.disp.buf < c.disp.capacity
      → c'.acked ≡ ack ∷ c.acked
      → Queued (record { source = region; content = json }) c.disp c'.disp
      → Delivered region draw raw ack c c'

abbrev acknowledges : Bytes → Bytes → Consumer → Ack
acknowledges stream id c = record { stream = stream; group = c.cfg.consumer_group; message = id }

returned :
    {region : Bytes} {draw : Draw} {raw : Option Bytes} {ack : Ack} {c : Consumer}
    (given wanted : Consumer)
    → some given ≡ some wanted
    → Delivered region draw raw ack c given
    → Delivered region draw raw ack c wanted
returned {region} {draw} {raw} {ack} {c} given wanted p h =
    let same : given ≡ wanted = cc in subst (Delivered region draw raw ack c) same h

none-some : {c : Consumer} → none ≢ some c
none-some p = cc

json-Delivered :
    (stream region id s json : Bytes) (draw : Draw) (e : Event) (c c' : Consumer)
    → translate c.reg draw.now draw.later region s ≡ translated e
    → marshal (with_id draw.uuid e) ≡ some json
    → submit_message stream region id c (some json) ≡ some c'
    → Delivered region draw (some s) (acknowledges stream id c) c c'
unfolding submit_message submitted x_ack count_ingested count_rejected enqueue
json-Delivered stream region id s json draw e c c' t m p =
    let load : Payload = record { source = region; content = json } in
    elim (submit_cases load c.disp) [
      | inl gone ↦ absurd (none-some (subst (λ o. submitted stream region id c o ≡ some c') gone p))
      | inr (inl (q, running, room)) ↦
          returned _ c' (subst (λ o. submitted stream region id c o ≡ some c') q p)
            (queued s json e refl t m room refl (running, _, refl))
      | inr (inr (q, full)) ↦
          returned _ c' (subst (λ o. submitted stream region id c o ≡ some c') q p)
            (withheld full refl (_, refl))
    ]

marshalled-Delivered :
    (stream region id s : Bytes) (draw : Draw) (e : Event) (c c' : Consumer) (o : Option Bytes)
    → translate c.reg draw.now draw.later region s ≡ translated e
    → marshal (with_id draw.uuid e) ≡ o
    → submit_message stream region id c o ≡ some c'
    → Delivered region draw (some s) (acknowledges stream id c) c c'
unfolding submit_message x_ack
marshalled-Delivered stream region id s draw e c c' none t m p =
    returned _ c' p (unserialisable s e refl t m refl (_, refl))
marshalled-Delivered stream region id s draw e c c' (some json) t m p =
    json-Delivered stream region id s json draw e c c' t m p

translated-Delivered :
    (stream region id s : Bytes) (draw : Draw) (c c' : Consumer) (t : Translated)
    → translate c.reg draw.now draw.later region s ≡ t
    → message_translated stream region id draw.uuid c t ≡ some c'
    → Delivered region draw (some s) (acknowledges stream id c) c c'
unfolding message_translated x_ack count_rejected
translated-Delivered stream region id s draw c c' (malformed err) t p =
    returned _ c' p (unusable s err refl t refl (_, refl))
translated-Delivered stream region id s draw c c' (translated e) t p =
    marshalled-Delivered stream region id s draw e c c' (marshal (with_id draw.uuid e)) t refl p

bytes-Delivered :
    (stream region id : Bytes) (draw : Draw) (c c' : Consumer) (raw : Option Bytes)
    → with_bytes stream region id draw c raw ≡ some c'
    → Delivered region draw raw (acknowledges stream id c) c c'
unfolding with_bytes x_ack
bytes-Delivered stream region id draw c c' none p =
    returned _ c' p (without_data refl refl (_, refl))
bytes-Delivered stream region id draw c c' (some s) p =
    translated-Delivered stream region id s draw c c' (translate c.reg draw.now draw.later region s)
      refl p

-- A message is acknowledged unless the dispatcher's buffer is full. An acknowledged message has
-- become the last payload of the buffer, or it has no data, or it cannot be translated or
-- serialised, and then the buffer is as it was. One that is not acknowledged leaves the buffer too.
pub handle_message-Delivered :
    (stream region : Bytes) (msg : Message) (draw : Draw) (c c' : Consumer)
    → handle_message stream region msg draw c ≡ some c'
    → Delivered region draw
        (extract_bytes (lookup (codes "data") msg.values))
        (record { stream = stream; group = c.cfg.consumer_group; message = msg.id })
        c
        c'
unfolding handle_message
handle_message-Delivered stream region msg draw c c' p =
    bytes-Delivered stream region msg.id draw c c'
      (extract_bytes (lookup (codes "data") msg.values)) p
