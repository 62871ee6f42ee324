-- ===== src/Ingestor/Answers.antt =====
-- What the answer of the ingest handler says of the pipeline.
use xyllo.Base.{
  codes, Bytes, Bool, true, false, ◌==◌, ==_iff, ◌++◌, ℕ, zero, suc, ◌≤◌, ◌<◌, Option, none, some,
  List, [], ◌∷◌, length, get_elem?, All, ◌≡◌, ◌≢◌, refl, sym, subst, ◌∙◌, arith, inl, inr, ◌⊎◌,
  if◌then◌else◌,
}
use xyllo.Xlerr.{Error, error_text}
use xyllo.Dispatcher.{Dispatcher, Payload, submit, enqueue}
use xyllo.Middleware.{World}
use xyllo.Translator.{Event, Translated, translated, malformed, translate, marshal}
use xyllo.Pool.{Pooled, new_pooled, remove, or_new, get, put}
use xyllo.Ingestor.{
  Server, Request, Response, Chance, accepted, refuse, source_of, count_ingested, count_rejected,
  with_id, answer, submit_event, ingest_translated, handle_ingest,
}

-- Every payload that the pool can give out is reset.
abbrev pub IsClean : List Pooled → Type 0
IsClean pool = All (λ p. p.content ≡ []) pool

pub remove-IsClean : (i : ℕ) (pool : List Pooled) → IsClean pool → IsClean (remove i pool)
remove-IsClean i [] h = h
remove-IsClean zero (p ∷ ps) h = h.1
remove-IsClean (suc i) (p ∷ ps) h = (h.0, remove-IsClean i ps h.1)

given_empty : (i : ℕ) (pool : List Pooled) → IsClean pool → (or_new (get_elem? pool i)).content ≡ []
unfolding new_pooled
given_empty i [] h = refl
given_empty zero (p ∷ ps) h = h.0
given_empty (suc i) (p ∷ ps) h = given_empty i ps h.1

-- The dispatcher is as it was, but for what handlers share: the clock, the limiter and the metrics.
abbrev pub Kept : Dispatcher → Dispatcher → Type 0
Kept d d' = (w : World) × (d' ≡ record d { world = w })

-- It is open, and has got one more payload at the end of its buffer.
abbrev pub Queued : Payload → Dispatcher → Dispatcher → Type 0
Queued p d d' =
    (d.closed ≡ false) × (w : World) × (d' ≡ record d { buf = d.buf ++ p ∷ []; world = w })

-- The ways in which the handler answers a request in state `s`, with the state after it. `found`
-- is what the registry makes of the body, and `disp` the dispatcher afterwards.
pub data Answered (uuid source : Bytes) (found : Translated) (d disp : Dispatcher) (a : Response)
    : Type 0 where
  as_malformed :
      (err : Error)
      → found ≡ malformed err
      → a ≡ refuse 422 (error_text err)
      → Kept d disp
      → Answered uuid source found d disp a
  as_unserialisable :
      (e : Event)
      → found ≡ translated e
      → marshal (with_id uuid e) ≡ none
      → a.status ≡ 500
      → Kept d disp
      → Answered uuid source found d disp a
  as_full :
      (e : Event)
      → found ≡ translated e
      → d.capacity ≤ length d.buf
      → a.status ≡ 429
      → Kept d disp
      → Answered uuid source found d disp a
  as_queued :
      (e : Event) (json : Bytes)
      → found ≡ translated e
      → marshal (with_id uuid e) ≡ some json
      → length d.buf < d.capacity
      → a ≡ record { status = 202; content = accepted (with_id uuid e).id }
      → Queued (record { source = source; content = json }) d disp
      → Answered uuid source found d disp a

answered_none : {w : Server × Response} → none ≢ some w
answered_none p = cc

-- What an answered request is, for a pair that the handler returns.
abbrev Answers : Bytes → Bytes → Translated → Dispatcher → Server × Response → Type 0
Answers uuid source found d (s, a) = Answered uuid source found d s.disp a

returned :
    {uuid source : Bytes} {found : Translated} {d : Dispatcher} (given wanted : Server × Response)
    → some given ≡ some wanted
    → Answers uuid source found d given
    → Answers uuid source found d wanted
returned {uuid} {source} {found} {d} given wanted p h =
    let same : given ≡ wanted = cc in subst (Answers uuid source found d) same h

pub submit_cases :
    (p : Payload) (d : Dispatcher)
    → (submit p d ≡ none)
      ⊎ (((submit p d ≡ some (enqueue p d, true))
            × (d.closed ≡ false)
            × (length d.buf < d.capacity))
          ⊎ ((submit p d ≡ some (d, false)) × (d.capacity ≤ length d.buf)))
unfolding submit
submit_cases p d = ground arith

submitted-Answered :
    (uuid source json : Bytes) (e : Event) (s : Server) (w : Server × Response)
    → marshal (with_id uuid e) ≡ some json
    → submit_event source (with_id uuid e) s (some json) ≡ some w
    → Answers uuid source (translated e) s.disp w
unfolding submit_event answer count_ingested count_rejected enqueue
submitted-Answered uuid source json e s w m p =
    let load : Payload = record { source = source; content = json } in
    elim (submit_cases load s.disp) [
      | inl gone ↦
          absurd (answered_none (subst (λ o. answer source (with_id uuid e) s o ≡ some w) gone p))
      | inr (inl (q, running, room)) ↦
          returned _ w (subst (λ o. answer source (with_id uuid e) s o ≡ some w) q p)
            (as_queued e json refl m room refl (running, _, refl))
      | inr (inr (q, full)) ↦
          returned _ w (subst (λ o. answer source (with_id uuid e) s o ≡ some w) q p)
            (as_full e refl full refl (_, refl))
    ]

marshalled-Answered :
    (uuid source : Bytes) (e : Event) (s : Server) (w : Server × Response) (o : Option Bytes)
    → marshal (with_id uuid e) ≡ o
    → submit_event source (with_id uuid e) s o ≡ some w
    → Answers uuid source (translated e) s.disp w
unfolding submit_event
marshalled-Answered uuid source e s w none m p =
    returned _ w p (as_unserialisable e refl m refl (_, refl))
marshalled-Answered uuid source e s w (some json) m p =
    submitted-Answered uuid source json e s w m p

translated-Answered :
    (uuid source : Bytes) (p : Pooled) (s : Server) (w : Server × Response) (t : Translated)
    → ingest_translated source uuid p s t ≡ some w
    → Answers uuid source t s.disp w
unfolding ingest_translated count_rejected
translated-Answered uuid source p s w (malformed err) q =
    returned _ w q (as_malformed err refl refl (_, refl))
translated-Answered uuid source p s w (translated e) q =
    marshalled-Answered uuid source e (record s { pool = put p s.pool }) w
      (marshal (with_id uuid e)) refl q

pub if-false : (x y : Option (Server × Response)) (b : Bool) → b ≡ false → (if b then x else y) ≡ y
if-false x y b e = rw e refl

beq_nil : (s : Bytes) → s ≢ [] → (s == []) ≡ false
beq_nil s h = ground (arith, ==_iff s [])

-- With a clean pool and a body, the handler returns one of its answers: 422 for a body that the
-- translator refuses, 500 for an event that cannot be serialised, 429 where the buffer is full, all
-- three with the buffer as it was; or 202 with the event's ID, and then the event with
-- that ID, serialised, is the buffer's last payload. The translator is given exactly the body,
-- whatever payload the pool gives out.
pub handle_ingest-Answered :
    (chance : Chance) (request : Request) (s s' : Server) (a : Response)
    → IsClean s.pool
    → request.body ≢ []
    → handle_ingest chance request s ≡ some (s', a)
    → Answered chance.uuid
        (source_of request.header)
        (translate s.reg chance.now chance.later (source_of request.header) request.body)
        s.disp
        s'.disp
        a
unfolding handle_ingest get
handle_ingest-Answered chance request s s' a clean full p =
    let source = source_of request.header in
    let given = or_new (get_elem? s.pool chance.choice) in
    let handled = sym (if-false _ _ (request.body == []) (beq_nil request.body full)) ∙ p in
    subst
      (λ c.
        Answered chance.uuid source
          (translate s.reg chance.now chance.later source (c ++ request.body)) s.disp s'.disp a)
      (given_empty chance.choice s.pool clean)
      (translated-Answered chance.uuid source
        (record given { content = given.content ++ request.body })
        (record s { pool = remove chance.choice s.pool }) (s', a)
        (translate s.reg chance.now chance.later source (given.content ++ request.body)) handled)

-- A request without a body is answered at once.
pub handle_ingest_empty :
    (chance : Chance) (request : Request) (s : Server)
    → request.body ≡ []
    → handle_ingest chance request s ≡ some (s, refuse 400 (codes "request body is required"))
unfolding handle_ingest ◌==◌
handle_ingest_empty chance request s e = rw (e, handle_ingest) refl
