-- ===== src/Ingestor/Startup/Tests.antt =====
-- The metrics port is taken, and then so is the port of the ingest listener.
use xyllo.Base.{codes, ◌==◌, true, some, none, List, [], ◌∷◌, ◌≡◌, refl}
use xyllo.Xlerr.{plain}
use xyllo.Config.Load.{defaults}
use xyllo.Ingestor.Startup.{
  StartEvent, metrics_fails, cancelled, listener_returns, serving, begun, start, metrics_addr,
  ingest_listen, plain_at,
}
use xyllo.Ingestor.Startup.Races.{Ends, by_listener, first_stop, metrics_ended, start-Ends}

listening :
    (metrics_addr defaults.observability ≡ codes ":9091")
    × (ingest_listen (codes "8080") defaults.tls ≡ plain_at (codes ":8080"))
unfolding metrics_addr ingest_listen ◌==◌
listening = (refl, refl)

abbrev taken : List StartEvent
taken =
    metrics_fails (plain (codes "address in use"))
    ∷ listener_returns (some (plain (codes "address in use")))
    ∷ cancelled none
    ∷ []

start-Ends_example :
    Ends
      (some (by_listener (some (plain (codes "address in use")))))
      true
      (start taken (serving begun))
unfolding first_stop metrics_ended
start-Ends_example = start-Ends taken
