-- ===== src/System/Accounts.antt =====
-- Every payload that clients were told of is accounted for, over whole histories of the system.
use xyllo.Base.{
  ℕ, ltb, length, sum_by, length-append, Option, none, some, List, [], ◌∷◌, flatten, sum_by-append,
  ◌≡◌, refl, arith, subst, Option-cases, inl, inr,
}
use xyllo.Auth.{JwtLibrary}
use xyllo.Dispatcher.{Dispatcher, Payload, step}
use xyllo.Dispatcher.Moves.{step-Moved}
use xyllo.Dispatcher.Processing.{is}
use xyllo.Dispatcher.Conservation.{fails, Balance, steady, then_Balance, Moved-Balance}
use xyllo.Dispatcher.Shutdown.{Inv, Moved-Inv}
use xyllo.Ingestor.{serve}
use xyllo.Ingestor.Pooling.{IsKept}
use xyllo.Translator.{Registry}
use xyllo.StreamIngestor.{stream_key, handle_message}
use xyllo.StreamIngestor.Delivery.{handle_message-Delivered}
use xyllo.System.{
  System, Happening, requests, receives, acts, Outcome, consumed, consumer_of, happen, history,
  after_answer, after_message, after_action, map_option,
}
use xyllo.System.Outcomes.{
  Told, moves, Entered, enters_none, enters_one, Shows, serve-Shows, Delivered-Shows,
}

Entered-Balance : (d d' : Dispatcher) (ps : List Payload) → Entered d d' ps → Balance d d' ps 0
Entered-Balance d d' ps (enters_none w e) = rw e (steady d _ [] 0 (λ a. omega arith) refl)
Entered-Balance d d' ps (enters_one p w running room e) = rw e (
    steady d _ (p ∷ []) 0
      (λ a. omega (arith, sum_by-append (λ (q : Payload). is a q.content) d.buf (p ∷ []))) refl)

Entered-Inv :
    (n c : ℕ) (d d' : Dispatcher) (ps : List Payload) → Entered d d' ps → Inv n c d → Inv n c d'
Entered-Inv n c d d' ps (enters_none w e) v =
    rw e (record { pool = v.pool; capacity = v.capacity; bounded = v.bounded; drained = v.drained })
Entered-Inv n c d d' ps (enters_one p w running room e) v = rw e (record {
  pool = v.pool;
  capacity = v.capacity;
  bounded = let b = v.capacity in omega (arith, length-append d.buf (p ∷ []));
  drained = λ returned. let shut = (v.drained returned).0 in cc;
})

-- 1 for a worker's step in which a write to the dead letter file, if there is one, fails.
abbrev pub failing : Happening → ℕ
failing (acts a) = fails a
failing (requests chance request) = 0
failing (receives region msg draw) = 0

-- What a state must fulfil: the dispatcher's invariant, a pool of reset payloads, and the translators.
abbrev pub Sound : Registry → ℕ → ℕ → System → Type 0
Sound reg n c s = Inv n c s.server.disp × IsKept reg s.server

-- The payloads `ps` that an outcome tells of are what has come in.
abbrev Accounted : Registry → Outcome → Dispatcher → Dispatcher → ℕ → Type 0
Accounted reg o d d' failures = (ps : List Payload) × Told reg o ps × Balance d d' ps failures

abbrev After : Registry → ℕ → ℕ → Dispatcher → ℕ → System × Outcome → Type 0
After reg n c d failures (s, o) = Accounted reg o d s.server.disp failures × Sound reg n c s

shown :
    {reg : Registry} {o : Outcome} (n c : ℕ) (d d' : Dispatcher)
    → Shows reg o d d'
    → Inv n c d
    → Accounted reg o d d' 0 × Inv n c d'
shown n c d d' (ps, told, entered) v =
    ((ps, told, Entered-Balance d d' ps entered), Entered-Inv n c d d' ps entered v)

mapped :
    {A B : Type 0} (f : A → B) (o : Option A) (b : B)
    → map_option f o ≡ some b
    → (a : A) × (o ≡ some a) × (f a ≡ b)
mapped f none b e = absurd cc
mapped f (some a) b e = (a, refl, cc)

module _ (jwt : JwtLibrary) (reg : Registry) where
  -- One event.
  happen-After :
      (n c : ℕ) (h : Happening) (s : System) (w : System × Outcome)
      → Sound reg n c s
      → happen jwt h s ≡ some w
      → After reg n c s.server.disp (failing h) w
  unfolding happen after_answer after_message after_action
  happen-After n c (requests chance request) s w (v, kept) p =
      let ((server, response), q, e) =
        mapped (after_answer s) (serve jwt chance request s.server) w p in
      let (shows, kept') = serve-Shows jwt reg chance request s.server (server, response) kept q in
      let (told, v') = shown n c s.server.disp server.disp shows v in
      subst (After reg n c s.server.disp 0) e (told, (v', kept'))
  happen-After n c (receives region msg draw) s w (v, kept) p =
      let (after, q, e) =
        mapped (after_message region msg s)
          (handle_message (stream_key s.redis region) region msg draw (consumer_of s)) w p in
      let shows = Delivered-Shows region msg draw (consumer_of s) after (
        handle_message-Delivered (stream_key s.redis region) region msg draw (consumer_of s) after
          q) in
      let (told, v') =
        shown n c s.server.disp after.disp
          (subst
            (λ r.
              Shows r (consumed region msg (ltb (length s.acked) (length after.acked)))
                s.server.disp after.disp)
            kept.1 shows)
          v in
      subst (After reg n c s.server.disp 0) e (told, (v', kept))
  happen-After n c (acts a) s w (v, kept) p =
      let ((d', ps), q, e) = mapped (after_action s) (step a s.server.disp) w p in
      let m = step-Moved a s.server.disp d' ps q in
      subst (After reg n c s.server.disp (fails a)) e (
        (ps, moves ps, Moved-Balance a s.server.disp d' ps m),
        (Moved-Inv n c a s.server.disp d' ps m v, kept),
      )

-- For each outcome the payloads that it tells of.
pub data AllTold (reg : Registry) : List Outcome → List (List Payload) → Type 0 where
  nobody : AllTold reg [] []
  told :
      {o : Outcome} {ps : List Payload} {os : List Outcome} {pss : List (List Payload)}
      → Told reg o ps
      → AllTold reg os pss
      → AllTold reg (o ∷ os) (ps ∷ pss)

abbrev Booked : Registry → ℕ → ℕ → Dispatcher → ℕ → System × List Outcome → Type 0
Booked reg n c d failures (s, os) =
    ((pss : List (List Payload)) × AllTold reg os pss
      × Balance d s.server.disp (flatten pss) failures)
    × Sound reg n c s

module _ (jwt : JwtLibrary) where
  history-cons :
      (h : Happening) (rest : List Happening) (s : System) (w : System × List Outcome)
      → history jwt (h ∷ rest) s ≡ some w
      → (u : System × Outcome) × (v : System × List Outcome) × (happen jwt h s ≡ some u)
        × (history jwt rest u.0 ≡ some v)
        × (w ≡ (v.0, u.1 ∷ v.1))
  unfolding history
  history-cons h rest s w p = elim (Option-cases (happen jwt h s)) [
    | inl stuck ↦ absurd (ground arith)
    | inr (u, q) ↦ elim (Option-cases (history jwt rest u.0)) [
      | inl stuck ↦ absurd (ground arith)
      | inr (v, r) ↦ (u, v, q, r, ground arith)
    ]
  ]

  pub history-Booked :
      (reg : Registry) (n c : ℕ) (hs : List Happening) (s : System) (w : System × List Outcome)
      → Sound reg n c s
      → history jwt hs s ≡ some w
      → Booked reg n c s.server.disp (sum_by failing hs) w
  unfolding history flatten
  history-Booked reg n c [] s w v p =
      let same : (s, []) ≡ w = cc in
      subst (Booked reg n c s.server.disp 0) same
        (([], nobody, steady s.server.disp s.server.disp [] 0 (λ a. omega arith) refl), v)
  history-Booked reg n c (h ∷ rest) s w v p =
      let ((u, o), (t, os), q, r, e) = history-cons h rest s w p in
      let ((ps, first, one), sound) = happen-After jwt reg n c h s (u, o) v q in
      let ((pss, all, others), sound') = history-Booked reg n c rest u (t, os) sound r in
      rw e (
        (
          ps ∷ pss,
          told first all,
          then_Balance s.server.disp u.server.disp t.server.disp ps (flatten pss) (failing h)
              (sum_by failing rest) one others,
        ),
        sound',
      )
