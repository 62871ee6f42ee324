-- ===== src/Dispatcher/Shutdown.antt =====
-- The buffer's bound, and the drain that Shutdown waits for.
use xyllo.Base.{
  Bytes, true, ℕ, zero, suc, ◌≤◌, ◌<◌, List, [], ◌∷◌, some, length, length-append, length-set,
  length-replicate, get_elem?, set, replicate, sum_by, sum_by-set, Bool-cases, inl, inr, ◌≡◌, refl,
  ap, arith, pos_part, ◌∙◌,
}
use xyllo.Config.{DispatcherConfig}
use xyllo.Middleware.{Chain, World, Verdict, passed, failed, panicked}
use xyllo.Batcher.{Batcher, append_locked}
use xyllo.Dlq.{Dlq}
use xyllo.Dispatcher.{
  Payload, Worker, idle, busy, pushing, flushing, exited, Dispatcher, new, enqueue, judge, settle,
  finish, process_one, push_dead, all_exited, Action, runs,
}
use xyllo.Dispatcher.Processing.{with_worker, process_one-SameFrame}
use xyllo.Dispatcher.Moves.{
  Moved, accepts, refuses, takes, leaves, finishes, pushes, flushes, shuts, pauses, runs-keeps,
}

abbrev pub has_exited : Worker → ℕ
has_exited exited = 1
has_exited _ = 0

-- The invariant of a dispatcher with n workers and capacity c: the buffer is within its capacity,
-- and a worker that has returned has seen the channel closed and empty.
pub record Inv (n c : ℕ) (d : Dispatcher) : Type 0 where
  pub pool : length d.workers ≡ n
  pub capacity : d.capacity ≡ c
  pub bounded : length d.buf ≤ c
  pub drained : 0 < sum_by has_exited d.workers → (d.closed ≡ true) × (d.buf ≡ [])

settle-has_exited : (p : Payload) (v : Verdict) (d : Dispatcher) → has_exited (settle p v d).1 ≡ 0
unfolding settle
settle-has_exited p passed d = elim (Bool-cases (append_locked p.content d.batcher).1) [
  | inl full ↦ rw full refl
  | inr room ↦ rw room refl
]
settle-has_exited p (failed err) d = refl
settle-has_exited p (panicked text) d = refl

process_one-has_exited : (p : Payload) (d : Dispatcher) → has_exited (process_one p d).1 ≡ 0
unfolding process_one
process_one-has_exited p d =
    let (verdict, world, _) = judge p d in settle-has_exited p verdict (record d { world = world })

-- A worker that goes on does not change how many have returned, nor how many there are.
module _ (d : Dispatcher) (i : ℕ) (w v : Worker) (at : get_elem? d.workers i ≡ some w) where
  same_pool : length (set d.workers i v) ≡ length d.workers
  same_pool = length-set d.workers i v

  same_exits :
      has_exited w ≡ 0
      → has_exited v ≡ 0
      → sum_by has_exited (set d.workers i v) ≡ sum_by has_exited d.workers
  same_exits p q = omega (arith, sum_by-set has_exited d.workers i v at)

finish-Inv :
    (n c : ℕ) (i : ℕ) (p : Payload) (d : Dispatcher)
    → get_elem? d.workers i ≡ some (busy p)
    → Inv n c d
    → Inv n c (finish i p d)
unfolding finish
finish-Inv n c i p d at v =
    let frame = process_one-SameFrame p d in
    let (_, w) = process_one p d in
    let kept = same_exits d i (busy p) w at refl (process_one-has_exited p d) in
    record {
      pool = rw frame.workers (same_pool d i (busy p) w at ∙ v.pool);
      capacity = frame.capacity ∙ v.capacity;
      bounded = rw frame.buf v.bounded;
      drained = rw (frame.workers, frame.closed, frame.buf, kept) v.drained;
    }

-- Every transition keeps the invariant.
pub Moved-Inv :
    (n c : ℕ) (act : Action) (d d' : Dispatcher) (ps : List Payload)
    → Moved act d d' ps
    → Inv n c d
    → Inv n c d'
unfolding enqueue push_dead
Moved-Inv n c act d d' ps (accepts p e running room e' _) v = rw e' (record {
  pool = v.pool;
  capacity = v.capacity;
  bounded = let b = v.capacity in omega (arith, length-append d.buf (p ∷ []));
  drained = λ returned. let shut = (v.drained returned).0 in cc;
})
Moved-Inv n c act d d' ps (refuses p e running full e' _) v = rw e' v
Moved-Inv n c act d d' ps (takes i p rest at b e' _) v = rw e' (record {
  pool = same_pool d i idle (busy p) at ∙ v.pool;
  capacity = v.capacity;
  bounded = let fits = v.bounded in omega (arith, ap length b);
  drained = λ returned.
      let empty = (v.drained (rw (same_exits d i idle (busy p) at refl refl) at returned)).1 in cc;
})
Moved-Inv n c act d d' ps (leaves i at b shut e' _) v = rw e' (record {
  pool = same_pool d i idle exited at ∙ v.pool;
  capacity = v.capacity;
  bounded = v.bounded;
  drained = λ _. (shut, b);
})
Moved-Inv n c act d d' ps (finishes i p at e' _) v = rw e' (finish-Inv n c i p d at v)
Moved-Inv n c act d d' ps (pushes writes i p pe e at e' _) v = rw e' (record {
  pool = same_pool d i (pushing p pe) idle at ∙ v.pool;
  capacity = v.capacity;
  bounded = v.bounded;
  drained = rw (same_exits d i (pushing p pe) idle at refl refl) v.drained;
})
Moved-Inv n c act d d' ps (flushes i at e' _) v = rw e' (record {
  pool = same_pool d i flushing idle at ∙ v.pool;
  capacity = v.capacity;
  bounded = v.bounded;
  drained = rw (same_exits d i flushing idle at refl refl) v.drained;
})
Moved-Inv n c act d d' ps (shuts e running e' _) v = rw e' (record {
  pool = v.pool;
  capacity = v.capacity;
  bounded = v.bounded;
  drained = λ returned. (refl, (v.drained returned).1);
})
Moved-Inv n c act d d' ps (pauses k e e' _) v =
    rw e'
      (record { pool = v.pool; capacity = v.capacity; bounded = v.bounded; drained = v.drained })

no_exits : (n : ℕ) → sum_by has_exited (replicate n idle) ≡ 0
no_exits zero = refl
no_exits (suc n) = omega (arith, no_exits n)

pub new-Inv :
    (cfg : DispatcherConfig) (chain : Chain) (bat : Batcher) (dlq : Dlq) (world : World)
    {d : Dispatcher}
    → new cfg chain bat dlq world ≡ some d
    → Inv (pos_part cfg.workers) (pos_part cfg.buffer_size) d
unfolding new
new-Inv cfg chain bat dlq world {d} e =
    ground (arith, length-replicate (pos_part cfg.workers) idle, no_exits (pos_part cfg.workers))

pub all_exited-counts :
    (a : Bytes) (ws : List Worker)
    → all_exited ws ≡ true
    → (sum_by (with_worker a) ws ≡ 0) × (sum_by has_exited ws ≡ length ws)
unfolding all_exited
all_exited-counts a [] e = omega arith
all_exited-counts a (exited ∷ ws) e = let ih = all_exited-counts a ws e in omega arith
all_exited-counts a (_ ∷ ws) e = cc

module _ (cfg : DispatcherConfig) (chain : Chain) (bat : Batcher) (dlq : Dlq) (world : World)
    (actions : List Action) (d d' : Dispatcher) (ps : List Payload)
    (made : new cfg chain bat dlq world ≡ some d) (went : runs actions d ≡ some (d', ps)) where
  -- In every state that a schedule from a new dispatcher reaches, the buffer holds at most as many
  -- payloads as the configuration's buffer size, the number of workers is the configured one, and
  -- once a worker has returned the channel is closed and empty.
  pub new-runs-Inv : Inv (pos_part cfg.workers) (pos_part cfg.buffer_size) d'
  new-runs-Inv =
      runs-keeps (Inv (pos_part cfg.workers) (pos_part cfg.buffer_size))
        (λ a u u' qs m. Moved-Inv (pos_part cfg.workers) (pos_part cfg.buffer_size) a u u' qs m)
        actions d d' ps went (new-Inv cfg chain bat dlq world made)
