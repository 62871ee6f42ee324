-- ===== src/Ingestor/Entry.antt =====
-- What gets past the routes and the authentication.
use xyllo.Base.{◌≡◌, ◌≢◌, arith, ◌⊎◌, inl, inr, refl, subst, some}
use xyllo.Auth.{JwtLibrary, Decision, next, unauthorized, authorize}
use xyllo.Auth.Access.{Admitted, authorize_iff}
use xyllo.Ingestor.{
  Server, Request, Response, Chance, healthz, readyz, ingest, Route, routed, serve,
  authorized_ingest, handle_ingest, handle_healthz, handle_readyz,
}

-- A request that leaves the server as it is.
abbrev Untouched : Server → Server × Response → Type 0
Untouched s w = w.0 ≡ s

kept : (s : Server) (a : Response) (w : Server × Response) → some (s, a) ≡ some w → Untouched s w
kept s a w p = let same : (s, a) ≡ w = cc in subst (Untouched s) same refl

decided :
    (jwt : JwtLibrary) (chance : Chance) (request : Request) (s : Server) (w : Server × Response)
    (o : Decision)
    → authorize jwt s.auth request.header ≡ o
    → authorized_ingest jwt chance request s o ≡ some w
    → Untouched s w ⊎ Admitted jwt s.auth request.header
unfolding authorized_ingest
decided jwt chance request s w next q p = inr ((authorize_iff jwt s.auth request.header).0 q)
decided jwt chance request s w (unauthorized err) q p = inl (kept s _ w p)

routed-Admitted :
    (jwt : JwtLibrary) (chance : Chance) (request : Request) (s : Server) (w : Server × Response)
    (r : Route)
    → routed jwt chance request s r ≡ some w
    → Untouched s w ⊎ Admitted jwt s.auth request.header
unfolding routed
routed-Admitted jwt chance request s w healthz p = inl (kept s _ w p)
routed-Admitted jwt chance request s w readyz p = inl (kept s _ w p)
routed-Admitted jwt chance request s w ingest p =
    decided jwt chance request s w (authorize jwt s.auth request.header) refl p

-- Whatever the route, a request that changes anything of the server, its buffer, its metrics or
-- its pool, has been admitted by the authentication.
pub serve-Admitted :
    (jwt : JwtLibrary) (chance : Chance) (request : Request) (s s' : Server) (a : Response)
    → serve jwt chance request s ≡ some (s', a)
    → (s' ≡ s) ⊎ Admitted jwt s.auth request.header
unfolding serve
serve-Admitted jwt chance request s s' a p =
    routed-Admitted jwt chance request s (s', a) request.route p

-- `serve` answers at once, with no 202, or it is the ingest handler.
at_once :
    (s : Server) (a : Response) (w : Server × Response)
    → a.status ≢ 202
    → some (s, a) ≡ some w
    → (w.0 ≡ s) × (w.1.status ≢ 202)
at_once s a w other p =
    let same : (s, a) ≡ w = cc in
    subst (λ (v : Server × Response). (v.0 ≡ s) × (v.1.status ≢ 202)) same (refl, other)

decision_cases :
    (jwt : JwtLibrary) (chance : Chance) (request : Request) (s : Server) (w : Server × Response)
    (o : Decision)
    → authorized_ingest jwt chance request s o ≡ some w
    → ((w.0 ≡ s) × (w.1.status ≢ 202)) ⊎ (handle_ingest chance request s ≡ some w)
unfolding authorized_ingest
decision_cases jwt chance request s w next p = inr p
decision_cases jwt chance request s w (unauthorized err) p =
    inl (at_once s _ w (λ q. ground arith) p)

route_cases :
    (jwt : JwtLibrary) (chance : Chance) (request : Request) (s : Server) (w : Server × Response)
    (r : Route)
    → routed jwt chance request s r ≡ some w
    → ((w.0 ≡ s) × (w.1.status ≢ 202)) ⊎ (handle_ingest chance request s ≡ some w)
unfolding routed handle_healthz handle_readyz
route_cases jwt chance request s w healthz p = inl (at_once s _ w (λ q. ground arith) p)
route_cases jwt chance request s w readyz p = inl (at_once s _ w (λ q. ground arith) p)
route_cases jwt chance request s w ingest p =
    decision_cases jwt chance request s w (authorize jwt s.auth request.header) p

pub serve_cases :
    (jwt : JwtLibrary) (chance : Chance) (request : Request) (s : Server) (w : Server × Response)
    → serve jwt chance request s ≡ some w
    → ((w.0 ≡ s) × (w.1.status ≢ 202)) ⊎ (handle_ingest chance request s ≡ some w)
unfolding serve
serve_cases jwt chance request s w p = route_cases jwt chance request s w request.route p
