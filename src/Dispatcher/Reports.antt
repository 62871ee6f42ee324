-- ===== src/Dispatcher/Reports.antt =====
-- What the metrics say of the dead letters.
use xyllo.Base.{
  Bytes, Bool, false, ℕ, ◌+◌, pos_part, replicate, List, [], ◌∷◌, some, length, length-append, ◌≡◌,
  refl, ap, arith, ◌∙◌, sym, subst, zero, suc, sum_by, sum_by-set, get_elem?, set, Bool-cases, inl,
  inr,
}
use xyllo.Config.{DispatcherConfig}
use xyllo.Metrics.{
  Provider, nop, recording, dlq_count, observe_worker_pool_depth, record_event_rejected,
  record_dlq_enqueued, record_panic_recovered,
}
use xyllo.Middleware.{World, Verdict, passed, failed, panicked, Chain, run}
use xyllo.Middleware.Quiet.{Counts, IsQuiet}
use xyllo.Xlerr.{PipelineError, pipeline_text}
use xyllo.Batcher.{Batcher, append_locked}
use xyllo.Dispatcher.Processing.{process_one-SameFrame}
use xyllo.Dlq.{Dlq, entry_line, write_error, Entry, push}
use xyllo.Dispatcher.{
  Payload, Worker, idle, busy, pushing, flushing, exited, Dispatcher, new, enqueue, judge, settle,
  push_dead, process_one, finish, Action, runs,
}
use xyllo.Dispatcher.Moves.{
  Moved, accepts, refuses, takes, leaves, finishes, pushes, flushes, shuts, pauses, runs-keeps,
}

-- Every call of Push, whatever becomes of it, leaves one line, in the file or in the log.
abbrev pub lines : Dlq → ℕ
lines d = length d.written + length d.logged

lines-push :
    (writes : Bool) (now : ℕ) (source reason raw : Bytes) (d : Dlq)
    → lines (push writes now source reason raw d) ≡ lines d + 1
unfolding push
lines-push writes now source reason raw d =
    let entry : Entry = record { received_at = now; source = source; reason = reason; raw = raw } in
    let file = length-append d.written (entry ∷ []) in
    let log = length-append d.logged (entry_line entry ∷ []) in
    let notice = length-append d.logged (write_error source ∷ []) in
    ground (arith, file, log, notice)

-- 1 for a worker that has reported a dead letter and not yet pushed it.
abbrev pub is_pushing : Worker → ℕ
is_pushing (pushing p pe) = 1
is_pushing _ = 0

-- From a start with n₀ reports and l₀ lines on, the reports are ahead of the lines by the workers
-- that are about to push.
pub record Agrees (chain : Chain) (n₀ l₀ : ℕ) (d : Dispatcher) : Type 0 where
  pub same_chain : d.chain ≡ chain
  pub total : ℕ
  pub counted : Counts total d.world.metrics
  pub agrees : total + l₀ ≡ lines d.dlq + n₀ + sum_by is_pushing d.workers

depth-Counts :
    (depth n : ℕ) (p : Provider) → Counts n p → Counts n (observe_worker_pool_depth depth p)
unfolding observe_worker_pool_depth
depth-Counts depth n (recording os) h = omega arith
depth-Counts depth n nop h = h

rejected-Counts :
    (source reason : Bytes) (n : ℕ) (p : Provider)
    → Counts n p
    → Counts (n + 1) (record_dlq_enqueued (record_event_rejected source reason p))
unfolding record_dlq_enqueued record_event_rejected
rejected-Counts source reason n (recording os) h = omega arith
rejected-Counts source reason n nop h = h

panicked-Counts :
    (n : ℕ) (p : Provider)
    → Counts n p
    → Counts (n + 1) (record_dlq_enqueued (record_panic_recovered p))
unfolding record_dlq_enqueued record_panic_recovered
panicked-Counts n (recording os) h = omega arith
panicked-Counts n nop h = h

-- What processing a payload does to the reports.
record Settled (n : ℕ) (r : Dispatcher × Worker) : Type 0 where
  total : ℕ
  counted : Counts total r.0.world.metrics
  grown : total ≡ n + is_pushing r.1

settle-Settled :
    (n : ℕ) (p : Payload) (v : Verdict) (d : Dispatcher)
    → Counts n d.world.metrics
    → Settled n (settle p v d)
unfolding settle
settle-Settled n p passed d h = elim (Bool-cases (append_locked p.content d.batcher).1) [
  | inl full ↦ rw full (record { total = n; counted = h; grown = omega arith })
  | inr room ↦ rw room (record { total = n; counted = h; grown = omega arith })
]
settle-Settled n p (failed err) d h = record {
  total = n + 1;
  counted = rejected-Counts p.source _ n d.world.metrics h;
  grown = refl;
}
settle-Settled n p (panicked text) d h = record {
  total = n + 1;
  counted = panicked-Counts n d.world.metrics h;
  grown = refl;
}

judge-Counts :
    (chain : Chain) (p : Payload) (d : Dispatcher) (n : ℕ)
    → IsQuiet (run chain)
    → d.chain ≡ chain
    → Counts n d.world.metrics
    → Counts n (judge p d).1.metrics
unfolding judge
judge-Counts chain p d n q same h =
    rw same (q _ _ n (depth-Counts (length d.buf) n d.world.metrics h))

-- A step of a worker that reports and pushes nothing.
untouched :
    {chain : Chain} {n₀ l₀ : ℕ} {d d' : Dispatcher}
    → d'.chain ≡ d.chain
    → d'.world.metrics ≡ d.world.metrics
    → d'.dlq ≡ d.dlq
    → sum_by is_pushing d'.workers ≡ sum_by is_pushing d.workers
    → Agrees chain n₀ l₀ d
    → Agrees chain n₀ l₀ d'
untouched {n₀} c m q w a =
    let agrees = a.agrees in
    let same = ap lines q in
    record {
      same_chain = c ∙ a.same_chain;
      total = a.total;
      counted = subst (Counts a.total) (sym m) a.counted;
      agrees = omega arith;
    }

-- A worker that goes on from `w` to `v`, neither of them about to push.
same_pushes :
    (d : Dispatcher) (i : ℕ) (w v : Worker)
    → get_elem? d.workers i ≡ some w
    → is_pushing w ≡ 0
    → is_pushing v ≡ 0
    → sum_by is_pushing (set d.workers i v) ≡ sum_by is_pushing d.workers
same_pushes d i w v at p q = omega (arith, sum_by-set is_pushing d.workers i v at)

push_dead-Agrees :
    (chain : Chain) (n₀ l₀ : ℕ) (writes : Bool) (i : ℕ) (p : Payload) (pe : PipelineError)
    (d : Dispatcher)
    → get_elem? d.workers i ≡ some (pushing p pe)
    → Agrees chain n₀ l₀ d
    → Agrees chain n₀ l₀ (push_dead writes i p pe d)
unfolding push_dead
push_dead-Agrees chain n₀ l₀ writes i p pe d at a =
    let before = a.agrees in
    record {
      same_chain = a.same_chain;
      total = a.total;
      counted = a.counted;
      agrees = omega (
        arith,
        lines-push writes d.world.now p.source (pipeline_text pe) p.content d.dlq,
        sum_by-set is_pushing d.workers i idle at,
      );
    }

module _ (chain : Chain) (q : IsQuiet (run chain)) (n₀ l₀ : ℕ) where
  finish-Agrees :
      (i : ℕ) (p : Payload) (d : Dispatcher)
      → get_elem? d.workers i ≡ some (busy p)
      → Agrees chain n₀ l₀ d
      → Agrees chain n₀ l₀ (finish i p d)
  unfolding finish process_one
  finish-Agrees i p d at a =
      let (verdict, world, _) = judge p d in
      let frame = process_one-SameFrame p d in
      let s =
        settle-Settled a.total p verdict (record d { world = world })
          (judge-Counts chain p d a.total q a.same_chain a.counted) in
      let before = a.agrees in
      let grown = s.grown in
      let (_, w) = settle p verdict (record d { world = world }) in
      record {
        same_chain = frame.chain ∙ a.same_chain;
        total = s.total;
        counted = s.counted;
        agrees =
            rw (frame.workers, frame.dlq) (omega (arith, sum_by-set is_pushing d.workers i w at));
      }

  Moved-Agrees :
      (act : Action) (d d' : Dispatcher) (ps : List Payload)
      → Moved act d d' ps
      → Agrees chain n₀ l₀ d
      → Agrees chain n₀ l₀ d'
  unfolding enqueue
  Moved-Agrees act d d' ps (accepts p _ _ _ e' _) a = rw e' (record {
    same_chain = a.same_chain;
    total = a.total;
    counted = depth-Counts _ a.total d.world.metrics a.counted;
    agrees = a.agrees;
  })
  Moved-Agrees act d d' ps (refuses p _ _ _ e' _) a = rw e' a
  Moved-Agrees act d d' ps (finishes i p at e' _) a = rw e' (finish-Agrees i p d at a)
  Moved-Agrees act d d' ps (pushes writes i p pe _ at e' _) a =
      rw e' (push_dead-Agrees chain n₀ l₀ writes i p pe d at a)
  Moved-Agrees act d d' ps (takes i p rest at b e' _) a =
      rw e' (untouched refl refl refl (same_pushes d i idle (busy p) at refl refl) a)
  Moved-Agrees act d d' ps (leaves i at b _ e' _) a =
      rw e' (untouched refl refl refl (same_pushes d i idle exited at refl refl) a)
  Moved-Agrees act d d' ps (flushes i at e' _) a =
      rw e' (untouched refl refl refl (same_pushes d i flushing idle at refl refl) a)
  Moved-Agrees act d d' ps (shuts _ _ e' _) a = rw e' (untouched refl refl refl refl a)
  Moved-Agrees act d d' ps (pauses n _ e' _) a = rw e' (untouched refl refl refl refl a)

none_pushing : (n : ℕ) → sum_by is_pushing (replicate n idle) ≡ 0
none_pushing zero = refl
none_pushing (suc n) = omega (arith, none_pushing n)

new-Agrees :
    (cfg : DispatcherConfig) (chain : Chain) (bat : Batcher) (dlq : Dlq) (world : World) (n : ℕ)
    {d : Dispatcher}
    → Counts n world.metrics
    → new cfg chain bat dlq world ≡ some d
    → Agrees chain n (lines dlq) d
unfolding new
new-Agrees cfg chain bat dlq world n {d} h e =
    let start : Dispatcher = record {
      cfg = cfg;
      chain = chain;
      batcher = bat;
      dlq = dlq;
      buf = [];
      capacity = pos_part cfg.buffer_size;
      closed = false;
      workers = replicate (pos_part cfg.workers) idle;
      world = world;
    } in
    let made : start ≡ d = ground arith in
    rw (← made) (record {
      same_chain = refl;
      total = n;
      counted = h;
      agrees = omega (arith, none_pushing (pos_part cfg.workers));
    })

counted-total : (n : ℕ) (p : Provider) → Counts n p → dlq_count p ≡ n
counted-total n (recording os) h = h
counted-total n nop h = absurd h

-- With handlers that leave the reports of dead letters to the dispatcher, as the rate limiter does,
-- and a provider that keeps what it is told: in every state that a schedule reaches from a new
-- dispatcher, as many dead letters have been reported to the metrics since the start as lines have
-- been added to the dead letter file and its log together, failed writes and panics included, and as
-- workers have reported a dead letter that they are about to push.
pub reports-agree :
    (cfg : DispatcherConfig) (chain : Chain) (bat : Batcher) (dlq : Dlq) (world : World)
    (actions : List Action) (d d' : Dispatcher) (ps : List Payload) (n : ℕ)
    → IsQuiet (run chain)
    → Counts n world.metrics
    → new cfg chain bat dlq world ≡ some d
    → runs actions d ≡ some (d', ps)
    → dlq_count d'.world.metrics + lines dlq ≡ lines d'.dlq + n + sum_by is_pushing d'.workers
reports-agree cfg chain bat dlq world actions d d' ps n q h made went =
    let a =
      runs-keeps (Agrees chain n (lines dlq)) (Moved-Agrees chain q n (lines dlq)) actions d d' ps
        went (new-Agrees cfg chain bat dlq world n h made) in
    let same = counted-total a.total d'.world.metrics a.counted in
    let agrees = a.agrees in omega arith
