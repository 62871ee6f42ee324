-- ===== src/Ingestor/Startup.antt =====
-- Server.Start of internal/ingestor/ingestor.go: the two listeners, and what makes Start return. What
-- the servers of net/http and Fiber do is a sequence of events; a shutdown's result is an argument.
pub mod Races
mod Tests
use xyllo.Base.{
  Bytes, codes, ◌==◌, ◌++◌, Bool, true, false, Option, none, some, List, [], ◌∷◌, if◌then◌else◌,
}
use xyllo.Xlerr.{Error}
use xyllo.Config.{Config, ObservabilityConfig, TlsConfig}

-- The address of the metrics listener.
unfoldable pub metrics_addr : ObservabilityConfig → Bytes
metrics_addr o = codes ":" ++ (if o.metrics_port == [] then codes "9091" else o.metrics_port)

-- The call of Fiber that listens for requests.
pub data Listen : Type 0 where
  plain_at : Bytes → Listen
  tls_at : Bytes → Bytes → Bytes → Listen

unfoldable pub ingest_listen : Bytes → TlsConfig → Listen
ingest_listen port t =
    if t.enabled
    then tls_at (codes ":" ++ port) t.cert_file t.key_file
    else plain_at (codes ":" ++ port)

-- ListenAndServe of the metrics server returns, with an error that is not ErrServerClosed, or with
-- that one; the context is cancelled, and the shutdown of the ingest listener returns what it says;
-- the ingest listener returns.
pub data StartEvent : Type 0 where
  metrics_fails : Error → StartEvent
  metrics_closes : StartEvent
  cancelled : Option Error → StartEvent
  listener_returns : Option Error → StartEvent

-- The servers that Start shuts down.
pub data Part : Type 0 where
  metrics_part ingest_part : Part

pub record Running : Type 0 where
  pub metrics_up : Bool
  pub ingest_up : Bool
  pub shut_down : List Part
  pub logged : List Error

pub data Status : Type 0 where
  serving : Running → Status
  returned : Option Error → Running → Status

abbrev pub begun : Running
begun = record { metrics_up = true; ingest_up = true; shut_down = []; logged = [] }

-- The goroutine of the metrics server only logs its error.
unfoldable pub metrics_ends : StartEvent → Running → Running
metrics_ends (metrics_fails err) r = record r { metrics_up = false; logged = r.logged ++ err ∷ [] }
metrics_ends metrics_closes r = record r { metrics_up = false }
metrics_ends (cancelled result) r = r
metrics_ends (listener_returns result) r = r

-- The select.
select : StartEvent → Running → Status
unfolding metrics_ends
select (metrics_fails err) r = serving (metrics_ends (metrics_fails err) r)
select metrics_closes r = serving (metrics_ends metrics_closes r)
select (cancelled result) r = returned result (record r {
  metrics_up = false;
  ingest_up = false;
  shut_down = r.shut_down ++ metrics_part ∷ ingest_part ∷ [];
})
select (listener_returns result) r = returned result (record r { ingest_up = false })

-- After Start has returned only the metrics server may go on.
start_step : StartEvent → Status → Status
unfolding select metrics_ends
start_step event (serving r) = select event r
start_step event (returned result r) = returned result (metrics_ends event r)

unfoldable pub start : List StartEvent → Status → Status
unfolding start_step
start [] status = status
start (event ∷ events) status = start events (start_step event status)
