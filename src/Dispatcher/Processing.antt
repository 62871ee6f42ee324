-- ===== src/Dispatcher/Processing.antt =====
-- What processing one payload changes, and what it leaves alone; and what a push does.
use xyllo.Base.{
  Bytes, Bool, true, false, ℕ, ◌+◌, List, [], ◌∷◌, ◌++◌, Bool-cases, ◌⊎◌, inl, inr, refl, ◌∙◌,
  if◌then◌else◌, sum_by, sum_by-append, ◌≡◌, arith, ◌==◌, ap,
}
use xyllo.Batcher.{Batcher, append_locked}
use xyllo.Batcher.Laws.{contents, append_locked-contents}
use xyllo.Middleware.{Verdict, passed, failed, panicked}
use xyllo.Dlq.{Dlq, Entry, LogLine, entry_line, write_error, push}
use mathlib.Core.List.{append-nil}
use xyllo.Dispatcher.{
  Payload, Worker, idle, busy, pushing, flushing, exited, Dispatcher, judge, settle, process_one,
}

-- 1 if the bytes are those of `a`, and 0 if not.
abbrev pub is : Bytes → Bytes → ℕ
is a x = if a == x then 1 else 0

abbrev pub in_line : Bytes → LogLine → ℕ
in_line a (entry_line e) = is a e.raw
in_line a (write_error s) = 0

-- How often the bytes `a` are among the dead letters: in the file, and in the log.
abbrev pub in_dlq : Bytes → Dlq → ℕ
in_dlq a d = sum_by (λ e. is a e.raw) d.written + sum_by (in_line a) d.logged

-- How often they are among all that the batcher was given.
abbrev pub in_batcher : Bytes → Batcher → ℕ
in_batcher a b = sum_by (is a) (contents b)

-- How often a worker holds them.
abbrev pub with_worker : Bytes → Worker → ℕ
with_worker a idle = 0
with_worker a (busy p) = is a p.content
with_worker a (pushing p pe) = is a p.content
with_worker a flushing = 0
with_worker a exited = 0

-- The sources of the dead letters whose write has failed, by the notices in the log.
abbrev pub notices : List LogLine → List Bytes
notices [] = []
notices (entry_line e ∷ ls) = notices ls
notices (write_error source ∷ ls) = source ∷ notices ls

notices-append : (ls ks : List LogLine) → notices (ls ++ ks) ≡ notices ls ++ notices ks
notices-append [] ks = refl
notices-append (entry_line e ∷ ls) ks = notices-append ls ks
notices-append (write_error source ∷ ls) ks = ap (λ ns. source ∷ ns) (notices-append ls ks)

-- A push keeps the payload, or its write fails and the log says so.
pub record Keeps (raw : Bytes) (d d' : Dlq) : Type 0 where
  pub kept : (a : Bytes) → in_dlq a d' ≡ in_dlq a d + is a raw
  pub unnoticed : notices d'.logged ≡ notices d.logged

pub record Loses (source : Bytes) (writes : Bool) (d d' : Dlq) : Type 0 where
  pub failed : writes ≡ false
  pub same : (a : Bytes) → in_dlq a d' ≡ in_dlq a d
  pub noticed : notices d'.logged ≡ notices d.logged ++ source ∷ []

pub push_cases :
    (writes : Bool) (now : ℕ) (source reason raw : Bytes) (d : Dlq)
    → Keeps raw d (push writes now source reason raw d)
      ⊎ Loses source writes d (push writes now source reason raw d)
unfolding push
push_cases writes now source reason raw d =
    let entry : Entry = record { received_at = now; source = source; reason = reason; raw = raw } in
    elim (Bool-cases d.is_open) [
      | inl is_open ↦ elim (Bool-cases writes) [
        | inl fine ↦
            rw (is_open, fine)
              (inl (record {
                kept = λ a.
                    omega (arith, sum_by-append (λ (e : Entry). is a e.raw) d.written (entry ∷ []));
                unnoticed = refl;
              }))
        | inr broken ↦
            rw (is_open, broken)
              (inr (record {
                failed = refl;
                same = λ a.
                    omega (arith, sum_by-append (in_line a) d.logged (write_error source ∷ []));
                noticed = notices-append d.logged (write_error source ∷ []);
              }))
      ]
      | inr shut ↦ rw shut (
          inl (record {
            kept = λ a. omega (arith, sum_by-append (in_line a) d.logged (entry_line entry ∷ []));
            unnoticed =
                notices-append d.logged (entry_line entry ∷ []) ∙ append-nil (notices d.logged);
          }))
    ]

module _ (a : Bytes) where
  in_batcher-append_locked :
      (entry : Bytes) (b : Batcher)
      → in_batcher a (append_locked entry b).0 ≡ in_batcher a b + is a entry
  in_batcher-append_locked entry b = omega (
    arith,
    ap (sum_by (is a)) (append_locked-contents entry b),
    sum_by-append (is a) (contents b) (entry ∷ []),
  )

  next_empty : (full : Bool) → with_worker a (if full then flushing else idle) ≡ 0
  next_empty true = refl
  next_empty false = refl

  settle-content :
      (v : Verdict) (p : Payload) (d : Dispatcher)
      → in_batcher a (settle p v d).0.batcher + with_worker a (settle p v d).1
        ≡ in_batcher a d.batcher + is a p.content
  unfolding settle
  settle-content passed p d = omega (
    arith,
    in_batcher-append_locked p.content d.batcher,
    next_empty (append_locked p.content d.batcher).1,
  )
  settle-content (failed err) p d = refl
  settle-content (panicked text) p d = refl

-- Two states that agree on the channel, the workers, the dead letters and the configuration.
pub record SameFrame (d d' : Dispatcher) : Type 0 where
  pub cfg : d'.cfg ≡ d.cfg
  pub chain : d'.chain ≡ d.chain
  pub buf : d'.buf ≡ d.buf
  pub capacity : d'.capacity ≡ d.capacity
  pub closed : d'.closed ≡ d.closed
  pub workers : d'.workers ≡ d.workers
  pub dlq : d'.dlq ≡ d.dlq

settle-SameFrame : (p : Payload) (v : Verdict) (d : Dispatcher) → SameFrame d (settle p v d).0
unfolding settle
settle-SameFrame p passed d = ground arith
settle-SameFrame p (failed err) d = ground arith
settle-SameFrame p (panicked text) d = ground arith

-- Processing a payload leaves the channel, the workers and the dead letters alone.
pub process_one-SameFrame : (p : Payload) (d : Dispatcher) → SameFrame d (process_one p d).0
unfolding process_one
process_one-SameFrame p d =
    let (verdict, world, _) = judge p d in
    let f = settle-SameFrame p verdict (record d { world = world }) in
    record {
      cfg = f.cfg;
      chain = f.chain;
      buf = f.buf;
      capacity = f.capacity;
      closed = f.closed;
      workers = f.workers;
      dlq = f.dlq;
    }

-- A payload that is processed is once more with the batcher, or still with its worker.
pub process_one-content :
    (a : Bytes) (p : Payload) (d : Dispatcher)
    → in_batcher a (process_one p d).0.batcher + with_worker a (process_one p d).1
      ≡ in_batcher a d.batcher + is a p.content
unfolding process_one
process_one-content a p d =
    let (verdict, world, _) = judge p d in settle-content a verdict p (record d { world = world })
