-- ===== src/System/Streamed.antt =====
-- From XAdd to the verdict of the validating handlers on the queued payload.
use xyllo.Base.{
  Bytes, codes, ◌==◌, false, ◌^◌, ◌≤◌, ◌<◌, none, some, List, [], ◌∷◌, length, lookup, bytes_eq,
  ◌≡◌, ◌≢◌, ◌↔◌, refl, subst, arith,
}
use xyllo.Xlerr.{Error}
use xyllo.Json.{Value}
use xyllo.Json.Objects.{overflows}
use xyllo.Middleware.{World}
use xyllo.Dispatcher.{Dispatcher}
use xyllo.Translator.{Event, translated, malformed, marshal, passthrough, translate, new_registry}
use xyllo.Translator.Values.{raw_value}
use xyllo.Ingestor.{with_id}
use xyllo.Ingestor.Answers.{Kept, Queued}
use xyllo.RedisStore.{FieldValue, text, slice, x_add_values}
use xyllo.StreamIngestor.{Ack, Consumer, Draw, extract_bytes, handle_message}
use xyllo.StreamIngestor.Delivery.{
  Delivered, without_data, unusable, unserialisable, withheld, queued, handle_message-Delivered,
}
use xyllo.StreamIngestor.Ends.{handle_message-IsServing}
use xyllo.System.Ingested.{Passes, passthrough-Passes}

-- What has become of the published bytes: Passthrough refused them, their event has no JSON form, or
-- its JSON form is a new payload at the end of the buffer, with the verdict of the validating handlers.
pub data Arrived (known known' : Bytes → Bytes) (region content : Bytes) (draw : Draw) (w : World)
    (d d' : Dispatcher) : Type 0 where
  as_malformed :
      (err : Error)
      → passthrough known draw.now draw.later region content ≡ malformed err
      → Kept d d'
      → Arrived known known' region content draw w d d'
  as_unserialisable :
      (e : Event)
      → passthrough known draw.now draw.later region content ≡ translated e
      → marshal (with_id draw.uuid e) ≡ none
      → Kept d d'
      → Arrived known known' region content draw w d d'
  as_payload :
      (e : Event) (json : Bytes) (v : Value)
      → passthrough known draw.now draw.later region content ≡ translated e
      → marshal (record e { id = draw.uuid }) ≡ some json
      → Queued (record { source = region; content = json }) d d'
      → raw_value e.body ≡ some v
      → Passes known' w (record { source = region; content = json })
        ↔ ((e.event_type ≢ []) × (overflows v ≡ false))
      → Arrived known known' region content draw w d d'

module _ (known known' : Bytes → Bytes) (region content : Bytes) (draw : Draw) (w : World)
    (low : 1000000 ≤ draw.now) (high : draw.now < 2 ^ 63) (named : draw.uuid ≢ [])
    (sourced : region ≢ []) where
  Delivered-Arrived :
      {ack : Ack} (c c' : Consumer)
      → length c.disp.buf < c.disp.capacity
      → c.reg ≡ new_registry known
      → Delivered region draw (some content) ack c c'
      → (c'.acked ≡ ack ∷ c.acked) × Arrived known known' region content draw w c.disp c'.disp
  unfolding new_registry translate
  Delivered-Arrived c c' room reg (without_data n a k) = absurd cc
  Delivered-Arrived c c' room reg (unusable s err r t a k) =
      let same : s ≡ content = cc in
      let made = subst (λ r. translate r draw.now draw.later region s ≡ malformed err) reg t in
      (
        a,
        as_malformed err
            (subst (λ b. passthrough known draw.now draw.later region b ≡ malformed err) same made)
            k,
      )
  Delivered-Arrived c c' room reg (unserialisable s e r t m a k) =
      let same : s ≡ content = cc in
      let made = subst (λ r. translate r draw.now draw.later region s ≡ translated e) reg t in
      (
        a,
        as_unserialisable e
            (subst (λ b. passthrough known draw.now draw.later region b ≡ translated e) same made) m
            k,
      )
  Delivered-Arrived c c' room reg (withheld full a k) = absurd (omega arith)
  Delivered-Arrived c c' room reg (queued s json e r t m _ a k) =
      let same : s ≡ content = cc in
      let made =
        subst (λ b. passthrough known draw.now draw.later region b ≡ translated e) same
          (subst (λ r. translate r draw.now draw.later region s ≡ translated e) reg t) in
      let (encoded, v, body, verdict) =
        passthrough-Passes known known' draw.now draw.later region draw.uuid content e json w low
          high sourced named made m in
      (a, as_payload e json v made encoded k body verdict)

data_field :
    (values : List (Bytes × FieldValue)) (content : Bytes)
    → values ≡ (codes "data", text content) ∷ []
    → extract_bytes (lookup (codes "data") values) ≡ some content
unfolding extract_bytes lookup ◌==◌
data_field values content e = rw e refl

-- A message that XAdd has published, whatever its bytes are, on a consumer of a named region whose
-- registry holds no translators, whose buffer is open and has room, with a clock between the first
-- millisecond of 1970 and 2262 and a UUID: it is handled without a panic and acknowledged. Either the
-- buffer is as it was, because Passthrough refuses the bytes or their event has no JSON form; or the
-- buffer has gained one payload, the JSON form of their event under the UUID, which gets through the
-- validating handlers exactly if the event has a type and each number in its body fits a float64.
-- `stored` is what Redis makes of a message's values: go-redis gives byte slices back as strings.
pub published-Arrived :
    (stored : List (Bytes × FieldValue) → List (Bytes × FieldValue)) (known known' : Bytes → Bytes)
    (stream region id content : Bytes) (draw : Draw) (c : Consumer) (w : World)
    → ((s : Bytes) → stored ((codes "data", slice s) ∷ []) ≡ (codes "data", text s) ∷ [])
    → c.reg ≡ new_registry known
    → c.disp.closed ≡ false
    → length c.disp.buf < c.disp.capacity
    → 1000000 ≤ draw.now
    → draw.now < 2 ^ 63
    → draw.uuid ≢ []
    → region ≢ []
    → (c' : Consumer) × (handle_message stream region
          (record { id = id; values = stored (x_add_values content) })
          draw
          c
        ≡ some c')
      × (c'.acked
          ≡ record { stream = stream; group = c.cfg.consumer_group; message = id } ∷ c.acked)
      × Arrived known known' region content draw w c.disp c'.disp
published-Arrived stored known known' stream region id content draw c w strings reg running room low
      high named sourced =
    let values = stored (x_add_values content) in
    let (c', went, _) =
      handle_message-IsServing stream region (record { id = id; values = values }) draw c running in
    let delivered =
      handle_message-Delivered stream region (record { id = id; values = values }) draw c c' went in
    let (acked, arrived) =
      Delivered-Arrived known known' region content draw w low high named sourced c c' room reg (
        subst
          (λ raw.
            Delivered region draw raw
              (record { stream = stream; group = c.cfg.consumer_group; message = id }) c c')
          (data_field values content (strings content)) delivered) in
    (c', went, acked, arrived)
