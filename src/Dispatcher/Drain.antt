-- ===== src/Dispatcher/Drain.antt =====
-- Shutdown returns: after the channel is closed the workers cannot go on for ever, and until all
-- have returned one of them can make a step.
use xyllo.Base.{
  Bool, true, false, ℕ, suc, ◌+◌, ◌*◌, ◌≤◌, ◌<◌, List, [], ◌∷◌, some, length, get_elem?, sum_by,
  sum_by-set, All, ◌≡◌, ◌≢◌, refl, ap, sym, arith, ◌∙◌, ◌⊎◌, inl, inr, subst, Bool-cases,
}
use xyllo.Dispatcher.{
  Payload, Worker, idle, busy, pushing, flushing, exited, Dispatcher, judge, settle, push_dead,
  finish, process_one, receive, advance, work, all_exited, Action, works, submits, closes, waits,
  runs,
}
use xyllo.Middleware.{Verdict, passed, failed, panicked}
use xyllo.Batcher.{append_locked}
use xyllo.Dispatcher.Processing.{process_one-SameFrame}
use xyllo.Dispatcher.Moves.{
  Moved, accepts, refuses, takes, leaves, finishes, pushes, flushes, shuts, pauses, runs-cons,
}

-- The most steps that a worker can make before it receives again or returns.
abbrev pub steps_left : Worker → ℕ
steps_left exited = 0
steps_left idle = 1
steps_left flushing = 2
steps_left (pushing p pe) = 2
steps_left (busy p) = 3

abbrev pub work_left : Dispatcher → ℕ
work_left d = 4 * length d.buf + sum_by steps_left d.workers

abbrev pub IsWork : Action → Type 0
IsWork (works writes i) = Unit
IsWork (submits p) = ⊥
IsWork closes = ⊥
IsWork (waits n) = ⊥

settle-steps_left : (p : Payload) (v : Verdict) (d : Dispatcher) → steps_left (settle p v d).1 ≤ 2
unfolding settle
settle-steps_left p passed d = elim (Bool-cases (append_locked p.content d.batcher).1) [
  | inl full ↦ rw full (omega arith)
  | inr room ↦ rw room (omega arith)
]
settle-steps_left p (failed err) d = omega arith
settle-steps_left p (panicked text) d = omega arith

process_one-steps_left : (p : Payload) (d : Dispatcher) → steps_left (process_one p d).1 ≤ 2
unfolding process_one
process_one-steps_left p d =
    let (verdict, world, _) = judge p d in settle-steps_left p verdict (record d { world = world })

finish-work_left :
    (i : ℕ) (p : Payload) (d : Dispatcher)
    → get_elem? d.workers i ≡ some (busy p)
    → work_left (finish i p d) < work_left d
unfolding finish
finish-work_left i p d at =
    let frame = process_one-SameFrame p d in
    let (_, w) = process_one p d in
    rw (frame.buf, frame.workers)
      (omega (arith, sum_by-set steps_left d.workers i w at, process_one-steps_left p d))

Moved-work_left :
    (act : Action) (d d' : Dispatcher) (ps : List Payload)
    → IsWork act
    → Moved act d d' ps
    → work_left d' < work_left d
unfolding push_dead
Moved-work_left act d d' ps w (accepts p e _ _ _ _) = absurd (subst IsWork e w)
Moved-work_left act d d' ps w (refuses p e _ _ _ _) = absurd (subst IsWork e w)
Moved-work_left act d d' ps w (takes i p rest at b e' _) =
    rw e' (omega (arith, ap length b, sum_by-set steps_left d.workers i (busy p) at))
Moved-work_left act d d' ps w (leaves i at b _ e' _) =
    rw e' (omega (arith, sum_by-set steps_left d.workers i exited at))
Moved-work_left act d d' ps w (finishes i p at e' _) = rw e' (finish-work_left i p d at)
Moved-work_left act d d' ps w (pushes writes i p pe e at e' _) =
    rw e' (omega (arith, sum_by-set steps_left d.workers i idle at))
Moved-work_left act d d' ps w (flushes i at e' _) =
    rw e' (omega (arith, sum_by-set steps_left d.workers i idle at))
Moved-work_left act d d' ps w (shuts e _ _ _) = absurd (subst IsWork e w)
Moved-work_left act d d' ps w (pauses n e _ _) = absurd (subst IsWork e w)

-- The workers of any state, left to themselves, make at most `work_left` steps.
runs-work_left :
    (actions : List Action) (d d' : Dispatcher) (ps : List Payload)
    → All IsWork actions
    → runs actions d ≡ some (d', ps)
    → length actions + work_left d' ≤ work_left d
unfolding runs
runs-work_left [] d d' ps w e = let same : d ≡ d' = ground arith in rw same (omega arith)
runs-work_left (a ∷ rest) d d' ps (w, ws) e =
    let (u, qs, rs, moved, went, _) = runs-cons a rest d d' ps e in
    omega (arith, Moved-work_left a d u qs w moved, runs-work_left rest u d' rs ws went)

-- A worker that has not returned.
abbrev Remains : List Worker → Type 0
Remains ws = (i : ℕ) × (w : Worker) × (get_elem? ws i ≡ some w) × (w ≢ exited)

Remains-of_not_exited : (ws : List Worker) → all_exited ws ≡ false → Remains ws
unfolding all_exited
Remains-of_not_exited [] e = cc
Remains-of_not_exited (exited ∷ ws) e =
    let (i, w, at, ne) = Remains-of_not_exited ws e in (suc i, w, at, ne)
Remains-of_not_exited (idle ∷ ws) e = (0, idle, refl, λ q. cc)
Remains-of_not_exited (flushing ∷ ws) e = (0, flushing, refl, λ q. cc)
Remains-of_not_exited (busy p ∷ ws) e = (0, busy p, refl, λ q. cc)
Remains-of_not_exited (pushing p pe ∷ ws) e = (0, pushing p pe, refl, λ q. cc)

receive-closed :
    (i : ℕ) (buf : List Payload) (d : Dispatcher)
    → (d' : Dispatcher) × (receive i buf true d ≡ some d')
unfolding receive
receive-closed i [] d = (_, refl)
receive-closed i (p ∷ rest) d = (_, refl)

advance-closed :
    (writes : Bool) (i : ℕ) (d : Dispatcher) (w : Worker)
    → d.closed ≡ true
    → w ≢ exited
    → (d' : Dispatcher) × (advance writes i d (some w) ≡ some d')
unfolding advance
advance-closed writes i d idle shut ne =
    subst (λ (c : Bool). (d' : Dispatcher) × (receive i d.buf c d ≡ some d')) (sym shut)
      (receive-closed i d.buf d)
advance-closed writes i d (busy p) shut ne = (_, refl)
advance-closed writes i d (pushing p pe) shut ne = (_, refl)
advance-closed writes i d flushing shut ne = (_, refl)
advance-closed writes i d exited shut ne = absurd (ne refl)

-- Until all workers have returned, one of them can go on.
closed-progress :
    (writes : Bool) (d : Dispatcher)
    → d.closed ≡ true
    → all_exited d.workers ≡ false
    → (i : ℕ) × (d' : Dispatcher) × (work writes i d ≡ some d')
unfolding work
closed-progress writes d shut left =
    let (i, w, at, ne) = Remains-of_not_exited d.workers left in
    let (d', goes) = advance-closed writes i d w shut ne in (i, d', rw at goes)

Moved-closed :
    (act : Action) (d d' : Dispatcher) (ps : List Payload)
    → IsWork act
    → Moved act d d' ps
    → d.closed ≡ true
    → d'.closed ≡ true
unfolding finish push_dead
Moved-closed act d d' ps w (accepts p e _ _ _ _) shut = absurd (subst IsWork e w)
Moved-closed act d d' ps w (refuses p e _ _ _ _) shut = absurd (subst IsWork e w)
Moved-closed act d d' ps w (takes i p rest at b e' _) shut = rw e' shut
Moved-closed act d d' ps w (leaves i at b _ e' _) shut = rw e' shut
Moved-closed act d d' ps w (finishes i p at e' _) shut =
    rw e' ((process_one-SameFrame p d).closed ∙ shut)
Moved-closed act d d' ps w (pushes writes i p pe e at e' _) shut = rw e' shut
Moved-closed act d d' ps w (flushes i at e' _) shut = rw e' shut
Moved-closed act d d' ps w (shuts e _ _ _) shut = absurd (subst IsWork e w)
Moved-closed act d d' ps w (pauses n e _ _) shut = absurd (subst IsWork e w)

runs-closed :
    (actions : List Action) (d d' : Dispatcher) (ps : List Payload)
    → All IsWork actions
    → runs actions d ≡ some (d', ps)
    → d.closed ≡ true
    → d'.closed ≡ true
unfolding runs
runs-closed [] d d' ps w e shut = let same : d ≡ d' = ground arith in rw (← same) shut
runs-closed (a ∷ rest) d d' ps (w, ws) e shut =
    let (u, qs, rs, moved, went, _) = runs-cons a rest d d' ps e in
    runs-closed rest u d' rs ws went (Moved-closed a d u qs w moved shut)

-- Once the channel is closed, the workers' steps, in any order, are at most `work_left`: four for
-- each buffered payload and at most three for each worker. After any of them, either all workers
-- have returned, and Shutdown returns, or some worker can make a step, whether or not its write to
-- the dead letter file succeeds. So Shutdown does not wait for ever.
pub drain-ends :
    (actions : List Action) (d d' : Dispatcher) (ps : List Payload)
    → d.closed ≡ true
    → All IsWork actions
    → runs actions d ≡ some (d', ps)
    → (length actions ≤ work_left d)
      × ((all_exited d'.workers ≡ true)
          ⊎ ((writes : Bool) → (i : ℕ) × (d'' : Dispatcher) × (work writes i d' ≡ some d'')))
drain-ends actions d d' ps shut ws went = (
  omega (arith, runs-work_left actions d d' ps ws went),
  elim (Bool-cases (all_exited d'.workers)) [
    | inl done ↦ inl done
    | inr left ↦
        inr λ writes. closed-progress writes d' (runs-closed actions d d' ps ws went shut) left
  ],
)
