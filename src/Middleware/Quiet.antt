-- ===== src/Middleware/Quiet.antt =====
-- Handlers that leave the reports of dead letters to the dispatcher.
use xyllo.Base.{Bytes, ℕ, List, [], ◌∷◌, All, sum_by, ◌≡◌, arith, sym, subst, inl, inr}
use xyllo.Metrics.{Provider, nop, recording, enqueued, record_rate_limited}
use xyllo.Middleware.{
  Result, World, Verdict, passed, failed, panicked, Handler, new_chain, run_handlers, run,
  rate_limit,
}
use xyllo.Middleware.Order.{and_then, run_handlers-cons}
use xyllo.Middleware.Limit.{rate_limit-behaves}

-- A provider that keeps what it is told, and has been told of n dead letters.
abbrev pub Counts : ℕ → Provider → Type 0
Counts n nop = ⊥
Counts n (recording os) = sum_by enqueued os ≡ n

-- A handler that does not report dead letters, which is the dispatcher's to do.
abbrev pub IsQuiet : Handler → Type 0
IsQuiet h = (w : World) (r : Result) (n : ℕ) → Counts n w.metrics → Counts n (h w r).1.metrics

rate_limited-Counts :
    (source : Bytes) (n : ℕ) (p : Provider) → Counts n p → Counts n (record_rate_limited source p)
unfolding record_rate_limited
rate_limited-Counts source n (recording os) h = omega arith
rate_limited-Counts source n nop h = h

-- The rate limiter is quiet.
pub rate_limit-IsQuiet : IsQuiet rate_limit
rate_limit-IsQuiet w r n h = elim (rate_limit-behaves w r).0 [
  | inl (_, _, same) ↦ subst (Counts n) (sym same) h
  | inr (_, _, told) ↦ subst (Counts n) (sym told) (rate_limited-Counts r.source n w.metrics h)
]

and_then-Counts :
    (v : Verdict) (w : World) (r : Result) (k : Handler) (n : ℕ)
    → IsQuiet k
    → Counts n w.metrics
    → Counts n (and_then (v, w, r) k).1.metrics
and_then-Counts passed w r k n q h = q w r n h
and_then-Counts (failed err) w r k n q h = h
and_then-Counts (panicked text) w r k n q h = h

run_handlers-IsQuiet : (hs : List Handler) → All IsQuiet hs → IsQuiet (run_handlers hs)
unfolding run_handlers
run_handlers-IsQuiet [] q w r n h = h
run_handlers-IsQuiet (k ∷ hs) (q, qs) w r n h =
    subst (λ (t : Verdict × World × Result). Counts n t.1.metrics)
      (sym (run_handlers-cons k hs w r))
      (and_then-Counts (k w r).0 (k w r).1 (k w r).2 (run_handlers hs) n
        (run_handlers-IsQuiet hs qs) (q w r n h))

-- A chain of quiet handlers is quiet.
pub run-IsQuiet : (hs : List Handler) → All IsQuiet hs → IsQuiet (run (new_chain hs))
unfolding run new_chain
run-IsQuiet hs q = run_handlers-IsQuiet hs q
