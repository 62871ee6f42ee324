-- ===== src/Dispatcher/Batching.antt =====
-- How far the batcher's buffer can grow while several workers add to it.
use xyllo.Base.{
  Bytes, ℕ, ◌+◌, ◌≤◌, ◌<◌, pos, pos_part, List, [], ◌∷◌, some, length, get_elem?, sum_by,
  sum_by-set, ◌≡◌, ap, arith, ◌∙◌, ◌⊎◌, inl, inr, Bool-cases,
}
use xyllo.Config.{DispatcherConfig}
use xyllo.Middleware.{Chain, World, Verdict, passed, failed, panicked}
use xyllo.Batcher.{Batcher, append_locked}
use xyllo.Batcher.Laws.{append_locked-room, flush-empty, length-append_locked, flush-cfg}
use xyllo.Dlq.{Dlq}
use xyllo.Dispatcher.{
  Payload, Worker, idle, busy, pushing, flushing, exited, Dispatcher, push_dead, new, enqueue,
  judge, settle, process_one, finish, Action, runs,
}
use xyllo.Dispatcher.Processing.{process_one-SameFrame}
use xyllo.Dispatcher.Shutdown.{new-runs-Inv}
use xyllo.Dispatcher.Moves.{
  Moved, accepts, refuses, takes, leaves, finishes, pushes, flushes, shuts, pauses, runs-keeps,
}

abbrev pub is_flushing : Worker → ℕ
is_flushing flushing = 1
is_flushing _ = 0

-- With the limit m, the buffer is below it but for workers that are about to flush.
pub record IsContained (m : ℕ) (d : Dispatcher) : Type 0 where
  pub limit : d.batcher.cfg.max_size ≡ pos m
  pub contained : length d.batcher.buf < m + sum_by is_flushing d.workers

-- Processing a payload adds at most one to the buffer, and if that does not keep it below the
-- limit the worker goes on to flush.
record Settled (m : ℕ) (d : Dispatcher) (r : Dispatcher × Worker) : Type 0 where
  limit : r.0.batcher.cfg.max_size ≡ pos m
  kept :
      length r.0.batcher.buf + 1 ≤ m + is_flushing r.1
      ⊎ (length r.0.batcher.buf ≤ length d.batcher.buf + is_flushing r.1)

settle-Settled :
    (m : ℕ) (p : Payload) (v : Verdict) (d : Dispatcher)
    → d.batcher.cfg.max_size ≡ pos m
    → Settled m d (settle p v d)
unfolding settle append_locked
settle-Settled m p passed d l =
    let longer = length-append_locked m p.content d.batcher l in
    elim (Bool-cases (append_locked p.content d.batcher).1) [
      | inl full ↦ rw full (record { limit = l; kept = inr (omega arith) })
      | inr room ↦
          let below = append_locked-room m p.content d.batcher l room in
          rw room (record { limit = l; kept = inl (omega arith) })
    ]
settle-Settled m p (failed err) d l = record { limit = l; kept = inr (omega arith) }
settle-Settled m p (panicked text) d l = record { limit = l; kept = inr (omega arith) }

process_one-Settled :
    (m : ℕ) (p : Payload) (d : Dispatcher)
    → d.batcher.cfg.max_size ≡ pos m
    → Settled m d (process_one p d)
unfolding process_one
process_one-Settled m p d l =
    let (verdict, world, _) = judge p d in
    let s = settle-Settled m p verdict (record d { world = world }) l in
    record { limit = s.limit; kept = s.kept }

finish-IsContained :
    (m : ℕ) (i : ℕ) (p : Payload) (d : Dispatcher)
    → get_elem? d.workers i ≡ some (busy p)
    → IsContained m d
    → IsContained m (finish i p d)
unfolding finish
finish-IsContained m i p d at v =
    let frame = process_one-SameFrame p d in
    let s = process_one-Settled m p d v.limit in
    let before = v.contained in
    let now = s.kept in
    let (_, w) = process_one p d in
    rw frame.workers (record {
      limit = s.limit;
      contained = omega (arith, now, sum_by-set is_flushing d.workers i w at);
    })

Moved-IsContained :
    (m : ℕ) (act : Action) (d d' : Dispatcher) (ps : List Payload)
    → 0 < m
    → Moved act d d' ps
    → IsContained m d
    → IsContained m d'
unfolding enqueue push_dead
Moved-IsContained m act d d' ps some_room (accepts p _ _ _ e' _) v =
    rw e' (record { limit = v.limit; contained = v.contained })
Moved-IsContained m act d d' ps some_room (refuses p _ _ _ e' _) v = rw e' v
Moved-IsContained m act d d' ps some_room (takes i p rest at b e' _) v =
    let before = v.contained in
    rw e' (record {
      limit = v.limit;
      contained = omega (arith, sum_by-set is_flushing d.workers i (busy p) at);
    })
Moved-IsContained m act d d' ps some_room (leaves i at b _ e' _) v =
    let before = v.contained in
    rw e' (record {
      limit = v.limit;
      contained = omega (arith, sum_by-set is_flushing d.workers i exited at);
    })
Moved-IsContained m act d d' ps some_room (finishes i p at e' _) v =
    rw e' (finish-IsContained m i p d at v)
Moved-IsContained m act d d' ps some_room (pushes writes i p pe _ at e' _) v =
    let before = v.contained in
    rw e' (record {
      limit = v.limit;
      contained = omega (arith, sum_by-set is_flushing d.workers i idle at);
    })
Moved-IsContained m act d d' ps some_room (flushes i at e' _) v = rw e' (record {
  limit = ap (λ c. c.max_size) (flush-cfg d.batcher) ∙ v.limit;
  contained = omega (arith, ap (length {A = Bytes}) (flush-empty d.batcher));
})
Moved-IsContained m act d d' ps some_room (shuts _ _ e' _) v =
    rw e' (record { limit = v.limit; contained = v.contained })
Moved-IsContained m act d d' ps some_room (pauses n _ e' _) v =
    rw e' (record { limit = v.limit; contained = v.contained })

new-IsContained :
    (m : ℕ) (cfg : DispatcherConfig) (chain : Chain) (bat : Batcher) (dlq : Dlq) (world : World)
    {d : Dispatcher}
    → bat.cfg.max_size ≡ pos m
    → length bat.buf < m
    → new cfg chain bat dlq world ≡ some d
    → IsContained m d
unfolding new
new-IsContained m cfg chain bat dlq world l room e = ground arith

flushing-le-length : (ws : List Worker) → sum_by is_flushing ws ≤ length ws
flushing-le-length [] = omega arith
flushing-le-length (idle ∷ ws) = omega (arith, flushing-le-length ws)
flushing-le-length (busy p ∷ ws) = omega (arith, flushing-le-length ws)
flushing-le-length (pushing p pe ∷ ws) = omega (arith, flushing-le-length ws)
flushing-le-length (flushing ∷ ws) = omega (arith, flushing-le-length ws)
flushing-le-length (exited ∷ ws) = omega (arith, flushing-le-length ws)

-- While several workers add to the batcher, others may come between a worker's Add and the flush
-- that it leads to. Even so, whatever the handlers do and in whatever order the steps are taken,
-- the batcher's buffer holds fewer payloads than its limit and the workers that are about to flush
-- together, and so fewer than the limit and the number of workers together.
pub buffer-contained :
    (m : ℕ) (cfg : DispatcherConfig) (chain : Chain) (bat : Batcher) (dlq : Dlq) (world : World)
    (actions : List Action) (d d' : Dispatcher) (ps : List Payload)
    → bat.cfg.max_size ≡ pos m
    → length bat.buf < m
    → new cfg chain bat dlq world ≡ some d
    → runs actions d ≡ some (d', ps)
    → (length d'.batcher.buf < m + sum_by is_flushing d'.workers)
      × (length d'.batcher.buf < m + pos_part cfg.workers)
buffer-contained m cfg chain bat dlq world actions d d' ps l room made went =
    let v =
      runs-keeps (IsContained m)
        (λ a u u' qs moved. Moved-IsContained m a u u' qs (omega arith) moved) actions d d' ps went
        (new-IsContained m cfg chain bat dlq world l room made) in
    let staff = new-runs-Inv cfg chain bat dlq world actions d d' ps made went in
    let pool = staff.pool in
    let few = v.contained in (few, omega (arith, flushing-le-length d'.workers))
