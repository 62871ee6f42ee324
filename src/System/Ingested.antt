-- ===== src/System/Ingested.antt =====
-- From the body of a request to the verdict of the validating handlers on the queued payload.
use xyllo.Base.{
  Bytes, codes, ◌==◌, ==_iff, false, ℕ, ◌^◌, ◌≤◌, ◌<◌, some, [], ◌≡◌, ◌≢◌, ◌↔◌, refl, sym, ap, ◌∙◌,
  subst, arith,
}
use xyllo.Json.{Value}
use xyllo.Json.Objects.{overflows}
use xyllo.Middleware.{World, Result, passed, run}
use xyllo.Middleware.Validators.{validators}
use xyllo.Middleware.Validators.Accepts.{validators_iff}
use xyllo.Middleware.Validators.Encoded.{marshal-IsCanonical}
use xyllo.Dispatcher.{Dispatcher, Payload}
use xyllo.Translator.{Event, translated, marshal, passthrough, translate, new_registry}
use xyllo.Translator.Events.{IsStamped, passthrough-IsStamped}
use xyllo.Translator.Values.{raw_value}
use xyllo.Translator.Decoded.{marshal-decoded}
use xyllo.Ingestor.{Server, Request, Response, Chance, source_of, with_id, handle_ingest}
use xyllo.Ingestor.Answers.{
  Answered, as_malformed, as_unserialisable, as_full, as_queued, IsClean, Queued,
  handle_ingest-Answered,
}

-- The pass of a payload through the two validating handlers.
abbrev pub Passes : (Bytes → Bytes) → World → Payload → Type 0
Passes text w p =
    let r : Result = record { source = p.source; payload = p.content; problems = [] } in
    run (validators text) w r ≡ (passed, w, r)

source_of-nonempty : (header : Bytes → Bytes) → source_of header ≢ []
unfolding source_of
source_of-nonempty header = ground (arith, ==_iff (header (codes "X-Source-ID")) [])

pub with_id-unnamed :
    (uuid : Bytes) (e : Event) → e.id ≡ [] → with_id uuid e ≡ record e { id = uuid }
unfolding ◌==◌
with_id-unnamed uuid e h = rw h refl

-- An event that the server has queued, and what makes it valid.
pub record IsQueued (text text' : Bytes → Bytes) (chance : Chance) (request : Request) (w : World)
    (d d' : Dispatcher) : Type 0 where
  pub event : Event
  pub payload : Payload
  pub body_value : Value
  pub made :
      passthrough text chance.now chance.later (source_of request.header) request.body
      ≡ translated event
  pub sourced : payload.source ≡ source_of request.header
  pub encoded : marshal (record event { id = chance.uuid }) ≡ some payload.content
  pub queued : Queued payload d d'
  pub body_read : raw_value event.body ≡ some body_value
  pub valid : Passes text' w payload ↔ ((event.event_type ≢ []) × (overflows body_value ≡ false))

named-Passes :
    (text : Bytes → Bytes) (w : World) (source uuid json : Bytes) (e : Event) (v : Value)
    (later : ℕ)
    → source ≢ []
    → uuid ≢ []
    → IsStamped source later e
    → raw_value e.body ≡ some v
    → marshal (record e { id = uuid }) ≡ some json
    → Passes text w (record { source = source; content = json })
      ↔ ((e.event_type ≢ []) × (overflows v ≡ false))
named-Passes text w source uuid json e v later sourced named stamped raw h =
    let canonical =
      marshal-IsCanonical (record e { id = uuid }) v json stamped.fits named
        (λ z. sourced (sym stamped.from ∙ z)) stamped.timed raw h in
    let verdict =
      (validators_iff text w (record { source = source; payload = json; problems = [] })).0 in
    (λ p. canonical.0 (verdict.0 p), λ k. verdict.1 (canonical.1 k))

-- What becomes of an event of Passthrough that has got its UUID and its JSON form.
pub passthrough-Passes :
    (text text' : Bytes → Bytes) (now later : ℕ) (source uuid raw : Bytes) (e : Event)
    (json : Bytes) (w : World)
    → 1000000 ≤ now
    → now < 2 ^ 63
    → source ≢ []
    → uuid ≢ []
    → passthrough text now later source raw ≡ translated e
    → marshal (with_id uuid e) ≡ some json
    → (marshal (record e { id = uuid }) ≡ some json)
      × (v : Value) × (raw_value e.body ≡ some v)
      × (Passes text' w (record { source = source; content = json })
          ↔ ((e.event_type ≢ []) × (overflows v ≡ false)))
passthrough-Passes text text' now later source uuid raw e json w low high sourced named made h =
    let stamped = passthrough-IsStamped text now later source raw e low high made in
    let encoded = ap marshal (sym (with_id-unnamed uuid e stamped.unnamed)) ∙ h in
    let (fs, t, v, read, body, same) =
      marshal-decoded (record e { id = uuid }) json stamped.fits encoded in
    (
      encoded,
      v,
      body,
      named-Passes text' w source uuid json e v later sourced named stamped body encoded,
    )

queued-IsQueued :
    (text text' : Bytes → Bytes) (chance : Chance) (request : Request) (w : World)
    (d d' : Dispatcher) (e : Event) (json : Bytes)
    → 1000000 ≤ chance.now
    → chance.now < 2 ^ 63
    → chance.uuid ≢ []
    → passthrough text chance.now chance.later (source_of request.header) request.body
      ≡ translated e
    → marshal (with_id chance.uuid e) ≡ some json
    → Queued (record { source = source_of request.header; content = json }) d d'
    → IsQueued text text' chance request w d d'
queued-IsQueued text text' chance request w d d' e json low high named made' h q =
    let source = source_of request.header in
    let (encoded, v, body, verdict) =
      passthrough-Passes text text' chance.now chance.later source chance.uuid request.body e json w
        low high (source_of-nonempty request.header) named made' h in
    record {
      event = e;
      payload = record { source = source; content = json };
      body_value = v;
      made = made';
      sourced = refl;
      encoded = encoded;
      queued = q;
      body_read = body;
      valid = verdict;
    }

Answered-IsQueued :
    (text text' : Bytes → Bytes) (chance : Chance) (request : Request) (w : World)
    (d d' : Dispatcher) (a : Response)
    → 1000000 ≤ chance.now
    → chance.now < 2 ^ 63
    → chance.uuid ≢ []
    → a.status ≡ 202
    → Answered chance.uuid
        (source_of request.header)
        (passthrough text chance.now chance.later (source_of request.header) request.body)
        d
        d'
        a
    → IsQueued text text' chance request w d d'
Answered-IsQueued text text' chance request w d d' a low high named ok (as_malformed err f r k) =
    absurd (ground arith)
Answered-IsQueued text text' chance request w d d' a low high named ok
      (as_unserialisable e f m r k) =
    absurd (ground arith)
Answered-IsQueued text text' chance request w d d' a low high named ok (as_full e f m r k) =
    absurd (ground arith)
Answered-IsQueued text text' chance request w d d' a low high named ok
      (as_queued e json f m room r q) =
    queued-IsQueued text text' chance request w d d' e json low high named f m q

-- A server whose registry holds no translators, with a clean pool, a clock between the first
-- millisecond of 1970 and 2262 and a UUID: when it answers a request with 202, the buffer has gained
-- one payload, which has the request's source and holds the JSON form, under the UUID, of the event
-- that Passthrough makes of the body; and that payload gets through
-- the validating handlers exactly if the event has a type and each number in its body fits a
-- float64.
pub handle_ingest-IsQueued :
    (text text' : Bytes → Bytes) (chance : Chance) (request : Request) (s s' : Server)
    (a : Response) (w : World)
    → IsClean s.pool
    → request.body ≢ []
    → s.reg ≡ new_registry text
    → 1000000 ≤ chance.now
    → chance.now < 2 ^ 63
    → chance.uuid ≢ []
    → handle_ingest chance request s ≡ some (s', a)
    → a.status ≡ 202
    → IsQueued text text' chance request w s.disp s'.disp
unfolding new_registry translate
handle_ingest-IsQueued text text' chance request s s' a w clean full reg low high named h ok =
    let source = source_of request.header in
    Answered-IsQueued text text' chance request w s.disp s'.disp a low high named ok (
      subst
        (λ r.
          Answered chance.uuid source (translate r chance.now chance.later source request.body)
            s.disp s'.disp a)
        reg (handle_ingest-Answered chance request s s' a clean full h))
