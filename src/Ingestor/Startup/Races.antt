-- ===== src/Ingestor/Startup/Races.antt =====
-- When Start returns, with what, and which servers are left.
use xyllo.Base.{
  Bool, true, false, ◌||◌, ◌++◌, Option, none, some, List, [], ◌∷◌, ◌≡◌, refl, sym, ap, ◌∙◌, subst,
  not, if◌then◌else◌,
}
use xyllo.Xlerr.{Error}
use xyllo.Ingestor.Startup.{
  StartEvent, metrics_fails, metrics_closes, cancelled, listener_returns, metrics_part, ingest_part,
  Running, Status, serving, returned, begun, start, start_step, select, metrics_ends,
}

-- What stops Start first: a cancelled context or the listener, with the result.
pub data Stop : Type 0 where
  by_context by_listener : Option Error → Stop

unfoldable pub first_stop : List StartEvent → Option Stop
first_stop [] = none
first_stop (metrics_fails err ∷ events) = first_stop events
first_stop (metrics_closes ∷ events) = first_stop events
first_stop (cancelled result ∷ events) = some (by_context result)
first_stop (listener_returns result ∷ events) = some (by_listener result)

-- The metrics server has ended by itself.
unfoldable pub metrics_ended : List StartEvent → Bool
metrics_ended [] = false
metrics_ended (metrics_fails err ∷ events) = true
metrics_ended (metrics_closes ∷ events) = true
metrics_ended (cancelled result ∷ events) = metrics_ended events
metrics_ended (listener_returns result ∷ events) = metrics_ended events

-- What Start has done, by what has stopped it.
abbrev pub Ends : Option Stop → Bool → Status → Type 0
Ends none ended (serving r) = (r.ingest_up ≡ true) × (r.shut_down ≡ [])
Ends none ended (returned result r) = ⊥
Ends (some stop) ended (serving r) = ⊥
Ends (some (by_context result)) ended (returned given r) =
    (given ≡ result)
    × (r.ingest_up ≡ false)
    × (r.metrics_up ≡ false)
    × (r.shut_down ≡ metrics_part ∷ ingest_part ∷ [])
Ends (some (by_listener result)) ended (returned given r) =
    (given ≡ result)
    × (r.ingest_up ≡ false)
    × (r.shut_down ≡ [])
    × (r.metrics_up ≡ (if ended then false else true))

both_false : (b : Bool) → (if b then false else false) ≡ false
both_false true = refl
both_false false = refl

-- After the return nothing but the metrics server and its log changes.
settled :
    (events : List StartEvent) (result : Option Error) (r : Running)
    → (r' : Running) × (start events (returned result r) ≡ returned result r')
      × (r'.ingest_up ≡ r.ingest_up)
      × (r'.shut_down ≡ r.shut_down)
      × (r'.metrics_up ≡ (if metrics_ended events then false else r.metrics_up))
unfolding start start_step metrics_ends metrics_ended
settled [] result r = (r, refl, refl, refl, refl)
settled (metrics_fails err ∷ events) result r =
    let (r', e, up, shut, down) =
      settled events result (record r { metrics_up = false; logged = r.logged ++ err ∷ [] }) in
    (r', e, up, shut, down ∙ both_false (metrics_ended events))
settled (metrics_closes ∷ events) result r =
    let (r', e, up, shut, down) = settled events result (record r { metrics_up = false }) in
    (r', e, up, shut, down ∙ both_false (metrics_ended events))
settled (cancelled x ∷ events) result r = settled events result r
settled (listener_returns x ∷ events) result r = settled events result r

stopped-Ends :
    (stop : Stop) (ended : Bool) (result : Option Error) (events : List StartEvent) (r : Running)
    → ((r' : Running)
        → r'.ingest_up ≡ r.ingest_up
        → r'.shut_down ≡ r.shut_down
        → r'.metrics_up ≡ (if metrics_ended events then false else r.metrics_up)
        → Ends (some stop) ended (returned result r'))
    → Ends (some stop) ended (start events (returned result r))
stopped-Ends stop ended result events r h =
    let (r', e, up, shut, metrics) = settled events result r in
    subst (Ends (some stop) ended) (sym e) (h r' up shut metrics)

still_up : (b m : Bool) → (if b then false else m) ≡ (if b || not m then false else true)
still_up true m = refl
still_up false true = refl
still_up false false = refl

or_true : (b : Bool) → (b || true) ≡ true
or_true true = refl
or_true false = refl

from-Ends :
    (events : List StartEvent) (r : Running)
    → r.ingest_up ≡ true
    → r.shut_down ≡ []
    → Ends (first_stop events) (metrics_ended events || not r.metrics_up) (start events (serving r))
unfolding start start_step select metrics_ends first_stop metrics_ended
from-Ends [] r up shut = (up, shut)
from-Ends (metrics_fails err ∷ events) r up shut =
    subst
      (λ b.
        Ends (first_stop events) b
          (start events (serving (record r { metrics_up = false; logged = r.logged ++ err ∷ [] }))))
      (or_true (metrics_ended events))
      (from-Ends events (record r { metrics_up = false; logged = r.logged ++ err ∷ [] }) up shut)
from-Ends (metrics_closes ∷ events) r up shut =
    subst
      (λ b. Ends (first_stop events) b (start events (serving (record r { metrics_up = false }))))
      (or_true (metrics_ended events)) (from-Ends events (record r { metrics_up = false }) up shut)
from-Ends (cancelled result ∷ events) r up shut =
    stopped-Ends (by_context result) (metrics_ended events || not r.metrics_up) result events
      (record r {
        metrics_up = false;
        ingest_up = false;
        shut_down = r.shut_down ++ metrics_part ∷ ingest_part ∷ [];
      })
      (λ r' a b c. (
        refl,
        a,
        c ∙ both_false (metrics_ended events),
        b ∙ ap (λ parts. parts ++ metrics_part ∷ ingest_part ∷ []) shut,
      ))
from-Ends (listener_returns result ∷ events) r up shut =
    stopped-Ends (by_listener result) (metrics_ended events || not r.metrics_up) result events
      (record r { ingest_up = false })
      (λ r' a b c. (refl, a, b ∙ shut, c ∙ still_up (metrics_ended events) r.metrics_up))

or_false : (b : Bool) → (b || false) ≡ b
or_false true = refl
or_false false = refl

-- Whatever its servers do, Start goes on until its context is cancelled or the ingest listener
-- returns; the end of the metrics server does not end it. It returns what the first of the two says.
-- A cancelled context shuts down the metrics server and then the ingest listener. After a return of
-- the listener nothing is shut down: the metrics server goes on until it ends by itself.
pub start-Ends :
    (events : List StartEvent)
    → Ends (first_stop events) (metrics_ended events) (start events (serving begun))
start-Ends events =
    subst (λ b. Ends (first_stop events) b (start events (serving begun)))
      (or_false (metrics_ended events)) (from-Ends events begun refl refl)
