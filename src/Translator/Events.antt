-- ===== src/Translator/Events.antt =====
-- What every event has that a translator makes, and which translator makes it.
use xyllo.Base.{
  Bytes, codes, ◌==◌, ==_iff, ℕ, ◌/◌, ◌≤◌, ◌<◌, ◌^◌, ◌-ℤ◌, ℤ, pos, pos_part, neg_part, Option, none,
  some, [], Bool-cases, subst, ◌∷◌, bytes_eq, lookup-insert, ◌≡◌, ◌≢◌, refl, arith, inl, inr,
  if◌then◌else◌,
}
use xyllo.Json.{Value, null, bool, num, str, arr, obj, Fields, end, field}
use xyllo.Json.Parse.{parse}
use xyllo.Translator.{
  Event, translated, Inbound, Registry, register, translate, Envelope, empty, names, int64,
  set_type, set_timestamp, set_member, set_members, into_envelope, event_of, passthrough, outcome,
}

-- Within the range of an int64.
abbrev pub IsInt64 : ℤ → Type 0
IsInt64 i = (pos_part i < 2 ^ 63) × (neg_part i ≤ 2 ^ 63)

set_timestamp-IsInt64 :
    (v : Value) (e : Envelope) → IsInt64 e.timestamp_ms → IsInt64 (set_timestamp v e).timestamp_ms
unfolding set_timestamp int64 ◌-ℤ◌
set_timestamp-IsInt64 null e h = h
set_timestamp-IsInt64 (num n) e h = ground arith
set_timestamp-IsInt64 (str s) e h = h
set_timestamp-IsInt64 (bool b) e h = h
set_timestamp-IsInt64 (arr vs) e h = h
set_timestamp-IsInt64 (obj fs) e h = h

set_type-IsInt64 :
    (v : Value) (e : Envelope) → IsInt64 e.timestamp_ms → IsInt64 (set_type v e).timestamp_ms
unfolding set_type
set_type-IsInt64 null e h = h
set_type-IsInt64 (num n) e h = h
set_type-IsInt64 (str s) e h = h
set_type-IsInt64 (bool b) e h = h
set_type-IsInt64 (arr vs) e h = h
set_type-IsInt64 (obj fs) e h = h

set_member-IsInt64 :
    (key : Bytes) (v : Value) (raw : Bytes) (e : Envelope)
    → IsInt64 e.timestamp_ms
    → IsInt64 (set_member key v raw e).timestamp_ms
unfolding set_member
set_member-IsInt64 key v raw e h = elim (Bool-cases (names key (codes "event_type"))) [
  | inl y ↦ rw y (set_type-IsInt64 v e h)
  | inr n ↦ elim (Bool-cases (names key (codes "timestamp_ms"))) [
    | inl y ↦ rw (n, y) (set_timestamp-IsInt64 v e h)
    | inr m ↦ elim (Bool-cases (names key (codes "body"))) [
      | inl y ↦ rw (n, m, y) h
      | inr k ↦ rw (n, m, k) h
    ]
  ]
]

set_members-IsInt64 :
    (fs : Fields) (e : Envelope) → IsInt64 e.timestamp_ms → IsInt64 (set_members fs e).timestamp_ms
unfolding set_members
set_members-IsInt64 end e h = h
set_members-IsInt64 (field key v raw fs) e h =
    set_members-IsInt64 fs (set_member key v raw e) (set_member-IsInt64 key v raw e h)

into_envelope-IsInt64 :
    (o : Option Value) (e : Envelope) → into_envelope o ≡ some e → IsInt64 e.timestamp_ms
unfolding into_envelope
into_envelope-IsInt64 none e h = absurd cc
into_envelope-IsInt64 (some null) e h = ground arith
into_envelope-IsInt64 (some (obj fs)) e h =
    let kept = set_members-IsInt64 fs empty (omega arith, omega arith) in ground arith
into_envelope-IsInt64 (some (num n)) e h = absurd cc
into_envelope-IsInt64 (some (str s)) e h = absurd cc
into_envelope-IsInt64 (some (bool b)) e h = absurd cc
into_envelope-IsInt64 (some (arr vs)) e h = absurd cc

-- An event that says where it came from and when, and that carries something.
pub record IsStamped (source : Bytes) (later : ℕ) (e : Event) : Type 0 where
  pub unnamed : e.id ≡ []
  pub from : e.source ≡ source
  pub received : e.received_at ≡ later
  pub fits : IsInt64 e.timestamp_ms
  pub timed : e.timestamp_ms ≢ pos 0
  pub carries : e.body ≢ []

milliseconds-pos : (now : ℕ) → 1000000 ≤ now → 1 ≤ now / 1000000
milliseconds-pos now h = omega arith

event_of-IsStamped :
    (now later : ℕ) (source raw : Bytes) (e : Envelope)
    → 1000000 ≤ now
    → now < 2 ^ 63
    → raw ≢ []
    → IsInt64 e.timestamp_ms
    → IsStamped source later (event_of now later source raw e)
unfolding event_of
event_of-IsStamped now later source raw e low high full fits = record {
  unnamed = refl;
  from = refl;
  received = refl;
  fits = ground arith;
  timed = ground (arith, milliseconds-pos now low);
  carries = ground (arith, ==_iff e.body []);
}

into_envelope-nonempty :
    (raw : Bytes) (e : Envelope) → into_envelope (parse raw) ≡ some e → raw ≢ []
unfolding into_envelope parse
into_envelope-nonempty [] e h = absurd cc
into_envelope-nonempty (c ∷ raw) e h = λ q. absurd cc

outcome-IsStamped :
    (text : Bytes → Bytes) (now later : ℕ) (source raw : Bytes) (e : Event) (o : Option Envelope)
    → 1000000 ≤ now
    → now < 2 ^ 63
    → into_envelope (parse raw) ≡ o
    → outcome text now later source raw o ≡ translated e
    → IsStamped source later e
unfolding outcome
outcome-IsStamped text now later source raw e none low high q p = absurd cc
outcome-IsStamped text now later source raw e (some env) low high q p =
    let made : event_of now later source raw env ≡ e = cc in
    subst (IsStamped source later) made (
      event_of-IsStamped now later source raw env low high (into_envelope-nonempty raw env q)
        (into_envelope-IsInt64 (parse raw) env q))

-- Passthrough, with a clock between the first millisecond of 1970 and 2262: every event that it
-- makes has no ID yet, the given source, the second reading of the clock as its time of receipt, a
-- timestamp in the range of an int64 that is not zero, and a body that is not empty.
pub passthrough-IsStamped :
    (text : Bytes → Bytes) (now later : ℕ) (source raw : Bytes) (e : Event)
    → 1000000 ≤ now
    → now < 2 ^ 63
    → passthrough text now later source raw ≡ translated e
    → IsStamped source later e
unfolding passthrough
passthrough-IsStamped text now later source raw e low high p =
    outcome-IsStamped text now later source raw e (into_envelope (parse raw)) low high refl p

-- The translator that a source is registered with translates its payloads, and what was there
-- before translates those of all other sources.
pub register-translate :
    (source other : Bytes) (t : Inbound) (r : Registry) (now later : ℕ) (raw : Bytes)
    → translate (register source t r) now later other raw
      ≡ (if source == other then t now later other raw else translate r now later other raw)
unfolding translate register
register-translate source other t r now later raw =
    rw (lookup-insert source other t r.translators)
      (elim (Bool-cases (source == other)) [ inl y ↦ rw y refl | inr n ↦ rw n refl ])
