-- ===== src/Dispatcher/Moves.antt =====
-- The transitions that a step can make, with the condition of each and the state that it leaves.
use xyllo.Base.{
  Bool, true, false, ℕ, ◌+◌, ◌≤◌, ◌<◌, ltb, Option, none, some, List, [], ◌∷◌, ◌++◌, length,
  get_elem?, set, ◌≡◌, refl, arith, inl, inr, Bool-cases, Option-cases, subst,
}
use mathlib.Core.Option
use xyllo.Batcher.{flush}
use xyllo.Xlerr.{PipelineError}
use xyllo.Dispatcher.{
  Payload, Worker, idle, busy, pushing, flushing, exited, Dispatcher, enqueue, submit, finish,
  push_dead, receive, advance, work, close_buf, Action, submits, works, closes, waits, silently,
  step, runs,
}

pub data Moved (a : Action) (d d' : Dispatcher) (ps : List Payload) : Type 0 where
  accepts :
      (p : Payload)
      → a ≡ submits p
      → d.closed ≡ false
      → length d.buf < d.capacity
      → d' ≡ enqueue p d
      → ps ≡ p ∷ []
      → Moved a d d' ps
  refuses :
      (p : Payload)
      → a ≡ submits p
      → d.closed ≡ false
      → d.capacity ≤ length d.buf
      → d' ≡ d
      → ps ≡ []
      → Moved a d d' ps
  takes :
      (i : ℕ) (p : Payload) (rest : List Payload)
      → get_elem? d.workers i ≡ some idle
      → d.buf ≡ p ∷ rest
      → d' ≡ record d { buf = rest; workers = set d.workers i (busy p) }
      → ps ≡ []
      → Moved a d d' ps
  leaves :
      (i : ℕ)
      → get_elem? d.workers i ≡ some idle
      → d.buf ≡ []
      → d.closed ≡ true
      → d' ≡ record d { workers = set d.workers i exited }
      → ps ≡ []
      → Moved a d d' ps
  finishes :
      (i : ℕ) (p : Payload)
      → get_elem? d.workers i ≡ some (busy p)
      → d' ≡ finish i p d
      → ps ≡ []
      → Moved a d d' ps
  pushes :
      (writes : Bool) (i : ℕ) (p : Payload) (pe : PipelineError)
      → a ≡ works writes i
      → get_elem? d.workers i ≡ some (pushing p pe)
      → d' ≡ push_dead writes i p pe d
      → ps ≡ []
      → Moved a d d' ps
  flushes :
      (i : ℕ)
      → get_elem? d.workers i ≡ some flushing
      → d' ≡ record d { batcher = flush d.batcher; workers = set d.workers i idle }
      → ps ≡ []
      → Moved a d d' ps
  shuts :
      a ≡ closes → d.closed ≡ false → d' ≡ record d { closed = true } → ps ≡ [] → Moved a d d' ps
  pauses :
      (n : ℕ)
      → a ≡ waits n
      → d' ≡ record d { world = record d.world { now = d.world.now + n } }
      → ps ≡ []
      → Moved a d d' ps

submit-Moved :
    (p : Payload) (d : Dispatcher) {d' : Dispatcher} {ps : List Payload}
    → step (submits p) d ≡ some (d', ps)
    → Moved (submits p) d d' ps
unfolding step submit
submit-Moved p d e = elim (Bool-cases d.closed) [
  | inl shut ↦ cc
  | inr running ↦ elim (Bool-cases (ltb (length d.buf) d.capacity)) [
    | inl room ↦ accepts p refl running (ground arith) (ground arith) (ground arith)
    | inr full ↦ refuses p refl running (ground arith) (ground arith) (ground arith)
  ]
]

module _ (writes : Bool) (i : ℕ) (d : Dispatcher) {d' : Dispatcher} {ps : List Payload} where
  receive-Moved :
      (buf : List Payload) (closed : Bool)
      → get_elem? d.workers i ≡ some idle
      → d.buf ≡ buf
      → d.closed ≡ closed
      → Option.map silently (receive i buf closed d) ≡ some (d', ps)
      → Moved (works writes i) d d' ps
  unfolding receive silently
  receive-Moved (p ∷ rest) closed at b c e = takes i p rest at b (ground arith) (ground arith)
  receive-Moved [] true at b c e = leaves i at b c (ground arith) (ground arith)
  receive-Moved [] false at b c e = cc

  advance-Moved :
      (w : Option Worker)
      → get_elem? d.workers i ≡ w
      → Option.map silently (advance writes i d w) ≡ some (d', ps)
      → Moved (works writes i) d d' ps
  unfolding advance silently
  advance-Moved (some idle) at e = receive-Moved d.buf d.closed at refl refl e
  advance-Moved (some (busy p)) at e = finishes i p at (ground arith) (ground arith)
  advance-Moved (some (pushing p pe)) at e =
      pushes writes i p pe refl at (ground arith) (ground arith)
  advance-Moved (some flushing) at e = flushes i at (ground arith) (ground arith)
  advance-Moved (some exited) at e = cc
  advance-Moved none at e = cc

-- Every step is one of these transitions.
pub step-Moved :
    (a : Action) (d d' : Dispatcher) (ps : List Payload)
    → step a d ≡ some (d', ps)
    → Moved a d d' ps
unfolding step work close_buf
step-Moved (submits p) d d' ps e = submit-Moved p d e
step-Moved (works writes i) d d' ps e = advance-Moved writes i d (get_elem? d.workers i) refl e
step-Moved closes d d' ps e = elim (Bool-cases d.closed) [
  | inl shut ↦ cc
  | inr running ↦ shuts refl running (ground arith) (ground arith)
]
step-Moved (waits n) d d' ps e = pauses n refl (ground arith) (ground arith)

-- A schedule that goes through is its first action, and then the rest of it.
pub runs-cons :
    (a : Action) (rest : List Action) (d d'' : Dispatcher) (ps : List Payload)
    → runs (a ∷ rest) d ≡ some (d'', ps)
    → (d' : Dispatcher) × (qs rs : List Payload) × Moved a d d' qs
      × (runs rest d' ≡ some (d'', rs))
      × (ps ≡ qs ++ rs)
unfolding runs
runs-cons a rest d d'' ps e = elim (Option-cases (step a d)) [
  | inl stuck ↦ absurd (ground arith)
  | inr ((d', qs), moved) ↦ elim (Option-cases (runs rest d')) [
    | inl stuck ↦ absurd (ground arith)
    | inr ((u, rs), went) ↦ (d', qs, rs, step-Moved a d d' qs moved, ground arith, ground arith)
  ]
]

-- What every transition keeps holds after every schedule.
pub runs-keeps {ℓ} :
    (P : Dispatcher → Type ℓ)
    → ((a : Action) (d d' : Dispatcher) (ps : List Payload) → Moved a d d' ps → P d → P d')
    → (actions : List Action) (d d' : Dispatcher) (ps : List Payload)
    → runs actions d ≡ some (d', ps)
    → P d
    → P d'
unfolding runs
runs-keeps P keep [] d d' ps e h = subst P (ground arith) h
runs-keeps P keep (a ∷ rest) d d' ps e h =
    let (u, qs, rs, moved, went, _) = runs-cons a rest d d' ps e in
    runs-keeps P keep rest u d' rs went (keep a d u qs moved h)
