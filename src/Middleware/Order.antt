-- ===== src/Middleware/Order.antt =====
-- The order in which a chain runs its handlers, and where it stops.
use xyllo.Base.{List, [], ◌∷◌, ◌++◌, ◌≡◌, ◌≢◌, refl, arith}
use xyllo.Middleware.{
  Result, World, Verdict, passed, failed, panicked, Handler, new_chain, run_handlers, run,
}

-- What a chain does after the handlers in front of it.
abbrev pub and_then : Verdict × World × Result → Handler → Verdict × World × Result
and_then (passed, w, r) h = h w r
and_then (failed err, w, r) h = (failed err, w, r)
and_then (panicked text, w, r) h = (panicked text, w, r)

pub run_handlers-cons :
    (h : Handler) (hs : List Handler) (w : World) (r : Result)
    → run_handlers (h ∷ hs) w r ≡ and_then (h w r) (run_handlers hs)
unfolding run_handlers
run_handlers-cons h hs w r = ground arith

pub run_handlers-append :
    (hs ks : List Handler) (w : World) (r : Result)
    → run_handlers (hs ++ ks) w r ≡ and_then (run_handlers hs w r) (run_handlers ks)
unfolding run_handlers
run_handlers-append [] ks w r = refl
run_handlers-append (h ∷ hs) ks w r = ground (arith, run_handlers-append hs ks (h w r).1 (h w r).2)

-- A chain runs its handlers from the left, each on the state and the payload that the one before it
-- left: if those in front pass, the next one decides, and where it does not pass its verdict is
-- the chain's, and the handlers behind it do not run.
pub run_stops :
    (front rest : List Handler) (h : Handler) (v : Verdict) (w w' w'' : World) (r r' r'' : Result)
    → run (new_chain front) w r ≡ (passed, w', r')
    → h w' r' ≡ (v, w'', r'')
    → v ≢ passed
    → run (new_chain (front ++ h ∷ rest)) w r ≡ (v, w'', r'')
unfolding run new_chain
run_stops front rest h passed w w' w'' r r' r'' p q ne = absurd (ne refl)
run_stops front rest h v w w' w'' r r' r'' p q ne =
    rw (run_handlers-append front (h ∷ rest) w r, p) (ground arith)
