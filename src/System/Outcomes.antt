-- ===== src/System/Outcomes.antt =====
-- What an outcome says of the payloads that have entered the buffer.
use xyllo.Base.{
  Bytes, codes, true, false, ◌++◌, ◌<◌, ltb, length, lookup, bytes_eq, Option, none, some, List, [],
  ◌∷◌, ◌≡◌, ◌≢◌, ◌⊎◌, inl, inr, refl, sym, ap, subst, arith,
}
use xyllo.Auth.{JwtLibrary}
use xyllo.Middleware.{World}
use xyllo.Dispatcher.{Dispatcher, Payload}
use xyllo.Translator.{Event, Translated, Registry, translate, marshal}
use xyllo.Ingestor.{
  Server, Request, Response, Chance, serve, handle_ingest, accepted, refuse, with_id, event_json,
}
use xyllo.Ingestor.Answers.{
  Answered, as_malformed, as_unserialisable, as_full, as_queued, IsClean, handle_ingest-Answered,
  handle_ingest_empty,
}
use xyllo.Ingestor.Entry.{serve_cases}
use xyllo.Ingestor.Pooling.{IsKept, handle_ingest-IsKept}
use xyllo.StreamIngestor.{Ack, Consumer, Draw, extract_bytes}
use xyllo.RedisStore.{Message}
use xyllo.Json.Numbers.{◌>>=◌}
use xyllo.StreamIngestor.Delivery.{
  Delivered, without_data, unusable, unserialisable, withheld, queued,
}
use xyllo.System.{Outcome, answered, consumed, moved}

-- The bytes that a message of a region's stream stands for, by the clock and the UUID in `draw`: the
-- JSON form of its translated data, if it has data, can be translated and can be serialised.
abbrev pub message_json : Registry → Bytes → Message → Draw → Option Bytes
message_json reg region msg draw = extract_bytes (lookup (codes "data") msg.values) >>= λ raw.
    event_json draw.uuid (translate reg draw.now draw.later region raw)

-- With the translators `reg`: a client that is answered 202 with an ID has had exactly one payload
-- queued, the JSON form of an event with that ID, and a client with any other answer has had none. A
-- message that is not acknowledged has put nothing into the buffer; one that is has put there
-- exactly the payload that it stands for, under its region, and nothing if it stands for none.
pub data Told (reg : Registry) : Outcome → List Payload → Type 0 where
  accepts :
      (source json : Bytes) (e : Event)
      → marshal e ≡ some json
      → Told reg
          (answered (record { status = 202; content = accepted e.id }))
          (record { source = source; content = json } ∷ [])
  rejects : (r : Response) → r.status ≢ 202 → Told reg (answered r) []
  withholds : (region : Bytes) (msg : Message) → Told reg (consumed region msg false) []
  discards :
      (region : Bytes) (msg : Message) (draw : Draw)
      → message_json reg region msg draw ≡ none
      → Told reg (consumed region msg true) []
  delivers :
      (region : Bytes) (msg : Message) (draw : Draw) (json : Bytes)
      → message_json reg region msg draw ≡ some json
      → Told reg (consumed region msg true) (record { source = region; content = json } ∷ [])
  moves : (ps : List Payload) → Told reg (moved ps) ps

-- The payloads that entered, and nothing else of the dispatcher, has changed.
pub data Entered (d d' : Dispatcher) : List Payload → Type 0 where
  enters_none : (w : World) → d' ≡ record d { world = w } → Entered d d' []
  enters_one :
      (p : Payload) (w : World)
      → d.closed ≡ false
      → length d.buf < d.capacity
      → d' ≡ record d { buf = d.buf ++ p ∷ []; world = w }
      → Entered d d' (p ∷ [])

abbrev pub Shows : Registry → Outcome → Dispatcher → Dispatcher → Type 0
Shows reg o d d' = (ps : List Payload) × Told reg o ps × Entered d d' ps

Answered-Shows :
    {reg : Registry} {uuid source : Bytes} {found : Translated} (d d' : Dispatcher) (a : Response)
    → Answered uuid source found d d' a
    → Shows reg (answered a) d d'
Answered-Shows d d' a (as_malformed err f e (w, k)) =
    ([], rejects a (λ q. ground arith), enters_none w k)
Answered-Shows d d' a (as_unserialisable ev f m e (w, k)) =
    ([], rejects a (λ q. ground arith), enters_none w k)
Answered-Shows d d' a (as_full ev f full e (w, k)) =
    ([], rejects a (λ q. ground arith), enters_none w k)
Answered-Shows {reg} {uuid} {source} d d' a (as_queued ev json f m room e (running, w, k)) = (
  _,
  subst (λ r. Told reg (answered r) (record { source = source; content = json } ∷ [])) (sym e)
      (accepts source json (with_id uuid ev) m),
  enters_one _ w running room k,
)

untouched_Shows :
    {reg : Registry} (s : Server) (w : Server × Response)
    → w.0 ≡ s
    → w.1.status ≢ 202
    → Shows reg (answered w.1) s.disp w.0.disp
untouched_Shows s w same other =
    ([], rejects w.1 other, enters_none s.disp.world (ap (λ (v : Server). v.disp) same))

body_cases : (b : Bytes) → (b ≡ []) ⊎ (b ≢ [])
body_cases [] = inl refl
body_cases (c ∷ s) = inr (λ q. cc)

handled_Shows :
    {reg : Registry} (chance : Chance) (request : Request) (s : Server) (w : Server × Response)
    → IsClean s.pool
    → handle_ingest chance request s ≡ some w
    → Shows reg (answered w.1) s.disp w.0.disp
handled_Shows {reg} chance request s w clean p = elim (body_cases request.body) [
  | inl empty ↦
      let direct = handle_ingest_empty chance request s empty in
      let same : (s, refuse 400 (codes "request body is required")) ≡ w = cc in
      subst (λ (v : Server × Response). Shows reg (answered v.1) s.disp v.0.disp) same
        (untouched_Shows s _ refl (λ q. ground arith))
  | inr full ↦
      Answered-Shows s.disp w.0.disp w.1
        (handle_ingest-Answered chance request s w.0 w.1 clean full p)
]

-- A request shows what it has done to the dispatcher, and leaves the pool clean and the translators.
pub serve-Shows :
    (jwt : JwtLibrary) (reg : Registry) (chance : Chance) (request : Request) (s : Server)
    (w : Server × Response)
    → IsKept reg s
    → serve jwt chance request s ≡ some w
    → Shows reg (answered w.1) s.disp w.0.disp × IsKept reg w.0
serve-Shows jwt reg chance request s w kept p = elim (serve_cases jwt chance request s w p) [
  | inl (same, other) ↦ (untouched_Shows s w same other, subst (IsKept reg) (sym same) kept)
  | inr went ↦ (
    handled_Shows chance request s w kept.0 went,
    handle_ingest-IsKept chance request s w.0 w.1 kept went,
  )
]

acked_more :
    {a : Ack} (c c' : Consumer)
    → c'.acked ≡ a ∷ c.acked
    → ltb (length c.acked) (length c'.acked) ≡ true
acked_more c c' e = rw e (ground arith)

acked_same : (c c' : Consumer) → c'.acked ≡ c.acked → ltb (length c.acked) (length c'.acked) ≡ false
acked_same c c' e = rw e (ground arith)

-- So does a message of a stream.
pub Delivered-Shows :
    (region : Bytes) (msg : Message) (draw : Draw) {ack : Ack} (c c' : Consumer)
    → Delivered region draw (extract_bytes (lookup (codes "data") msg.values)) ack c c'
    → Shows c.reg (consumed region msg (ltb (length c.acked) (length c'.acked))) c.disp c'.disp
Delivered-Shows region msg draw c c' (without_data n a (w, k)) =
    rw (acked_more c c' a) ([], discards region msg draw (rw n refl), enters_none w k)
Delivered-Shows region msg draw c c' (unusable s err r t a (w, k)) =
    rw (acked_more c c' a) ([], discards region msg draw (rw r (rw t refl)), enters_none w k)
Delivered-Shows region msg draw c c' (unserialisable s e r t m a (w, k)) =
    rw (acked_more c c' a) ([], discards region msg draw (rw r (rw t m)), enters_none w k)
Delivered-Shows region msg draw c c' (withheld full a (w, k)) =
    rw (acked_same c c' a) ([], withholds region msg, enters_none w k)
Delivered-Shows region msg draw c c' (queued s json e r t m room a (running, w, k)) =
    rw (acked_more c c' a)
      (_, delivers region msg draw json (rw r (rw t m)), enters_one _ w running room k)
