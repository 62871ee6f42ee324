-- ===== src/Dispatcher/Conservation.antt =====
-- No payload that Submit accepts is lost unnoticed or doubled: it is in the buffer, with a worker,
-- with the batcher or among the dead letters, or the log says that its write has failed.
use xyllo.Base.{
  Bytes, Bool, true, false, ℕ, zero, suc, ◌+◌, ◌≤◌, List, [], ◌∷◌, ◌++◌, map, length, some,
  get_elem?, replicate, sum_by, sum_by-append, sum_by-set, ◌≡◌, refl, ap, sym, arith, pos_part, ◌∙◌,
  inl, inr, length-append,
}
use mathlib.Core.List.{append-nil, append_assoc}
use xyllo.Config.{DispatcherConfig}
use xyllo.Xlerr.{PipelineError, pipeline_text}
use xyllo.Middleware.{Chain, World}
use xyllo.Dlq.{Dlq}
use xyllo.Batcher.{Batcher}
use xyllo.Batcher.Laws.{flush-contents}
use xyllo.Dispatcher.{
  Payload, idle, busy, pushing, exited, Dispatcher, new, enqueue, finish, process_one, push_dead,
  Action, works, submits, closes, waits, runs,
}
use xyllo.Dispatcher.Processing.{
  is, in_dlq, in_batcher, with_worker, notices, push_cases, process_one-SameFrame,
  process_one-content,
}
use xyllo.Dispatcher.Moves.{
  Moved, accepts, refuses, takes, leaves, finishes, pushes, flushes, shuts, pauses, runs-cons,
}

abbrev pub in_queue : Bytes → List Payload → ℕ
in_queue a = sum_by (λ p. is a p.content)

-- How often the bytes `a` are somewhere in the dispatcher.
abbrev pub held : Bytes → Dispatcher → ℕ
held a d =
    in_queue a d.buf + sum_by (with_worker a) d.workers + in_batcher a d.batcher + in_dlq a d.dlq

-- 1 for a step in which a write to the dead letter file, if there is one, fails.
abbrev pub fails : Action → ℕ
fails (works true i) = 0
fails (works false i) = 1
fails (submits p) = 0
fails closes = 0
fails (waits n) = 0

-- From `d` to `d'` the payloads `ps` have come in, and all that has gone is `lost`: not more than
-- `failures`, and each with a notice of its source in the log.
pub record Balance (d d' : Dispatcher) (ps : List Payload) (failures : ℕ) : Type 0 where
  pub lost : List Payload
  pub balanced : (a : Bytes) → held a d' + in_queue a lost ≡ held a d + in_queue a ps
  pub noticed : notices d'.dlq.logged ≡ notices d.dlq.logged ++ map (λ (p : Payload). p.source) lost
  pub few : length lost ≤ failures

-- Nothing is lost where no write fails.
pub steady :
    (d d' : Dispatcher) (ps : List Payload) (failures : ℕ)
    → ((a : Bytes) → held a d' ≡ held a d + in_queue a ps)
    → d'.dlq ≡ d.dlq
    → Balance d d' ps failures
steady d d' ps failures h q = record {
  lost = [];
  balanced = λ a. omega (arith, h a);
  noticed = ap (λ (l : Dlq). notices l.logged) q ∙ sym (append-nil (notices d.dlq.logged));
  few = omega arith;
}

map_source-append :
    (ps qs : List Payload)
    → map (λ (p : Payload). p.source) (ps ++ qs)
      ≡ map (λ (p : Payload). p.source) ps ++ map (λ (p : Payload). p.source) qs
map_source-append [] qs = refl
map_source-append (p ∷ ps) qs = ap (λ ss. p.source ∷ ss) (map_source-append ps qs)

in_queue-append :
    (a : Bytes) (ps qs : List Payload) → in_queue a (ps ++ qs) ≡ in_queue a ps + in_queue a qs
in_queue-append a ps qs = sum_by-append (λ (q : Payload). is a q.content) ps qs

pub then_Balance :
    (d u d' : Dispatcher) (ps qs : List Payload) (m n : ℕ)
    → Balance d u ps m
    → Balance u d' qs n
    → Balance d d' (ps ++ qs) (m + n)
then_Balance d u d' ps qs m n p q = record {
  lost = p.lost ++ q.lost;
  balanced = λ a.
      omega (
        arith,
        p.balanced a,
        q.balanced a,
        in_queue-append a p.lost q.lost,
        in_queue-append a ps qs,
      );
  noticed =
      q.noticed
      ∙ ap (λ ns. ns ++ map (λ (p : Payload). p.source) q.lost) p.noticed
      ∙ append_assoc (notices d.dlq.logged) (map (λ (p : Payload). p.source) p.lost)
          (map (λ (p : Payload). p.source) q.lost)
      ∙ ap (λ ns. notices d.dlq.logged ++ ns) (sym (map_source-append p.lost q.lost));
  few = let first = p.few in let second = q.few in omega (arith, length-append p.lost q.lost);
}

finish-held :
    (a : Bytes) (i : ℕ) (p : Payload) (d : Dispatcher)
    → get_elem? d.workers i ≡ some (busy p)
    → held a (finish i p d) ≡ held a d
unfolding finish
finish-held a i p d at =
    let frame = process_one-SameFrame p d in
    let (_, w) = process_one p d in
    rw (frame.buf, frame.workers, frame.dlq)
      (omega (arith, process_one-content a p d, sum_by-set (with_worker a) d.workers i w at))

push_dead-Balance :
    (writes : Bool) (i : ℕ) (p : Payload) (pe : PipelineError) (d : Dispatcher)
    → get_elem? d.workers i ≡ some (pushing p pe)
    → Balance d (push_dead writes i p pe d) [] (fails (works writes i))
unfolding push_dead
push_dead-Balance writes i p pe d at =
    elim (push_cases writes d.world.now p.source (pipeline_text pe) p.content d.dlq) [
      | inl keeps ↦ record {
        lost = [];
        balanced = λ a. omega (arith, keeps.kept a, sum_by-set (with_worker a) d.workers i idle at);
        noticed = keeps.unnoticed ∙ sym (append-nil (notices d.dlq.logged));
        few = omega arith;
      }
      | inr loses ↦ record {
        lost = p ∷ [];
        balanced = λ a. omega (arith, loses.same a, sum_by-set (with_worker a) d.workers i idle at);
        noticed = loses.noticed;
        few = rw loses.failed (omega arith);
      }
    ]

-- A step keeps what is held, and adds what it accepts.
pub Moved-Balance :
    (act : Action) (d d' : Dispatcher) (ps : List Payload)
    → Moved act d d' ps
    → Balance d d' ps (fails act)
unfolding enqueue finish
Moved-Balance act d d' ps (accepts p e c room e' e'') =
    rw (e', e'')
      (steady d _ (p ∷ []) (fails act)
        (λ a. omega (arith, sum_by-append (λ (q : Payload). is a q.content) d.buf (p ∷ []))) refl)
Moved-Balance act d d' ps (refuses p e c full e' e'') =
    rw (e', e'') (steady d d [] (fails act) (λ a. omega arith) refl)
Moved-Balance act d d' ps (takes i p rest at b e' e'') =
    rw (e', e'')
      (steady d _ [] (fails act)
        (λ a. omega (arith, ap (in_queue a) b, sum_by-set (with_worker a) d.workers i (busy p) at))
        refl)
Moved-Balance act d d' ps (leaves i at b c e' e'') =
    rw (e', e'')
      (steady d _ [] (fails act)
        (λ a. omega (arith, sum_by-set (with_worker a) d.workers i exited at)) refl)
Moved-Balance act d d' ps (finishes i p at e' e'') =
    rw (e', e'')
      (steady d (finish i p d) [] (fails act) (λ a. omega (arith, finish-held a i p d at))
        (process_one-SameFrame p d).dlq)
Moved-Balance act d d' ps (pushes writes i p pe e at e' e'') =
    rw (e, e', e'') (push_dead-Balance writes i p pe d at)
Moved-Balance act d d' ps (flushes i at e' e'') =
    rw (e', e'')
      (steady d _ [] (fails act)
        (λ a. omega (
          arith,
          ap (sum_by (is a)) (flush-contents d.batcher),
          sum_by-set (with_worker a) d.workers i idle at,
        ))
        refl)
Moved-Balance act d d' ps (shuts e c e' e'') =
    rw (e', e'') (steady d _ [] (fails act) (λ a. omega arith) refl)
Moved-Balance act d d' ps (pauses n e e' e'') =
    rw (e', e'') (steady d _ [] (fails act) (λ a. omega arith) refl)

pub runs-Balance :
    (actions : List Action) (d d' : Dispatcher) (ps : List Payload)
    → runs actions d ≡ some (d', ps)
    → Balance d d' ps (sum_by fails actions)
unfolding runs
runs-Balance [] d d' ps e =
    let same : d ≡ d' = ground arith in
    let nothing : ps ≡ [] = ground arith in
    rw (← same, nothing) (steady d d [] 0 (λ a. omega arith) refl)
runs-Balance (act ∷ rest) d d' ps e =
    let (u, qs, rs, moved, went, joined) = runs-cons act rest d d' ps e in
    rw joined (
      then_Balance d u d' qs rs (fails act) (sum_by fails rest) (Moved-Balance act d u qs moved)
        (runs-Balance rest u d' rs went))

in_replicate : (a : Bytes) (n : ℕ) → sum_by (with_worker a) (replicate n idle) ≡ 0
in_replicate a zero = refl
in_replicate a (suc n) = omega (arith, in_replicate a n)

pub new-held :
    (a : Bytes) (cfg : DispatcherConfig) (chain : Chain) (bat : Batcher) (dlq : Dlq) (world : World)
    {d : Dispatcher}
    → new cfg chain bat dlq world ≡ some d
    → held a d ≡ in_batcher a bat + in_dlq a dlq
unfolding new
new-held a cfg chain bat dlq world e = ground (arith, in_replicate a (pos_part cfg.workers))
