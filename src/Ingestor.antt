-- ===== src/Ingestor.antt =====
-- internal/ingestor/ingestor.go: the routes and their handlers. A request is its route, its headers
-- (the empty string where one is missing) and its body. What the environment decides is in
-- `Chance`: two readings of the clock, the UUID, and what the pool gives out. Timeouts are left out.
pub mod Answers
pub mod Startup
pub mod Entry
pub mod Pooling
pub mod Arrays
mod Tests
use xyllo.Base.{
  Bytes, codes, Bool, true, false, ◌==◌, ◌++◌, ℕ, Option, none, some, List, [], if◌then◌else◌,
}
use xyllo.Config.{AuthConfig}
use xyllo.Metrics.{record_event_ingested, record_event_rejected}
use xyllo.Xlerr.{Error, error_text}
use xyllo.Auth.{JwtLibrary, Decision, next, unauthorized, authorize}
use xyllo.Dispatcher.{Dispatcher, Payload, submit}
use xyllo.Translator.{Event, Translated, translated, malformed, Registry, translate, marshal}
use xyllo.Pool.{Pooled, get, put}

pub data Content : Type 0 where
  ok : Content
  accepted : Bytes → Content
  error_response : Bytes → Content

pub record Response : Type 0 where
  pub status : ℕ
  pub content : Content

pub record Chance : Type 0 where
  pub now : ℕ
  pub later : ℕ
  pub uuid : Bytes
  pub choice : ℕ

pub record Server : Type 0 where
  pub auth : AuthConfig
  pub disp : Dispatcher
  pub reg : Registry
  pub pool : List Pooled

pub data Route : Type 0 where
  healthz readyz ingest : Route

pub record Request : Type 0 where
  pub route : Route
  pub header : Bytes → Bytes
  pub body : Bytes

unfoldable pub handle_healthz : Response
handle_healthz = record { status = 200; content = ok }

unfoldable pub handle_readyz : Response
handle_readyz = record { status = 200; content = ok }

abbrev pub refuse : ℕ → Bytes → Response
refuse status text = record { status = status; content = error_response text }

unfoldable pub source_of : (Bytes → Bytes) → Bytes
source_of header =
    let source = header (codes "X-Source-ID") in if source == [] then codes "unknown" else source

unfoldable pub count_ingested : Bytes → Dispatcher → Dispatcher
count_ingested source d = record d {
  world = record d.world { metrics = record_event_ingested source d.world.metrics };
}

unfoldable pub count_rejected : Bytes → Bytes → Dispatcher → Dispatcher
count_rejected source reason d = record d {
  world = record d.world { metrics = record_event_rejected source reason d.world.metrics };
}

abbrev pub with_id : Bytes → Event → Event
with_id uuid e = if e.id == [] then record e { id = uuid } else e

-- The JSON form of what the translation has made, under its ID, if it has made an event.
abbrev pub event_json : Bytes → Translated → Option Bytes
event_json uuid (malformed err) = none
event_json uuid (translated e) = marshal (with_id uuid e)

-- After Submit. A panic of Submit is `none`.
answer : Bytes → Event → Server → Option (Dispatcher × Bool) → Option (Server × Response)
unfolding count_ingested count_rejected
answer source e s none = none
answer source e s (some (d, true)) =
    some (
      record s { disp = count_ingested source d },
      record { status = 202; content = accepted e.id },
    )
answer source e s (some (d, false)) = some (
  record s { disp = count_rejected source (codes "buffer_full") d },
  refuse 429 (codes "buffer full, retry later"),
)

-- After json.Marshal of the event.
submit_event : Bytes → Event → Server → Option Bytes → Option (Server × Response)
unfolding answer submit
submit_event source e s none = some (s, refuse 500 (codes "internal serialisation error"))
submit_event source e s (some json) =
    answer source e s (submit (record { source = source; content = json }) s.disp)

-- After the translation, which had the pooled payload's bytes; the payload goes back to the pool.
ingest_translated : Bytes → Bytes → Pooled → Server → Translated → Option (Server × Response)
unfolding submit_event count_rejected put marshal
ingest_translated source uuid p s (malformed err) =
    let s' : Server = record s {
      pool = put p s.pool;
      disp = count_rejected source (codes "translation_error") s.disp;
    } in
    some (s', refuse 422 (error_text err))
ingest_translated source uuid p s (translated e) =
    let named = with_id uuid e in
    submit_event source named (record s { pool = put p s.pool }) (marshal named)

unfoldable pub handle_ingest : Chance → Request → Server → Option (Server × Response)
unfolding ingest_translated source_of get translate
handle_ingest chance request s =
    let source = source_of request.header in
    let (p, pool) = get chance.choice s.pool in
    let filled : Pooled = record p { content = p.content ++ request.body } in
    if request.body == []
    then some (s, refuse 400 (codes "request body is required"))
    else ingest_translated source chance.uuid filled (record s { pool = pool })
        (translate s.reg chance.now chance.later source filled.content)

module _ (jwt : JwtLibrary) where
  authorized_ingest : Chance → Request → Server → Decision → Option (Server × Response)
  unfolding handle_ingest
  authorized_ingest chance request s next = handle_ingest chance request s
  authorized_ingest chance request s (unauthorized err) = some (s, refuse 401 (error_text err))

  -- The middleware stands before the ingest handler only.
  routed : Chance → Request → Server → Route → Option (Server × Response)
  unfolding authorized_ingest handle_healthz handle_readyz authorize
  routed chance request s healthz = some (s, handle_healthz)
  routed chance request s readyz = some (s, handle_readyz)
  routed chance request s ingest =
      authorized_ingest chance request s (authorize jwt s.auth request.header)

  -- The application that `buildApp` makes.
  unfoldable pub serve : Chance → Request → Server → Option (Server × Response)
  unfolding routed
  serve chance request s = routed chance request s request.route
