-- ===== src/Ingestor/Arrays.antt =====
-- The arrays behind the pooled payloads of handleIngest, in internal/ingestor/ingestor.go and
-- internal/pool/pool.go: Put keeps a payload's array, and until it is serialised an event's body may be
-- a part of that array. Many calls of the handler run, in any order of their steps. An array that
-- append replaces by a larger one counts as the same.
pub mod Ownership
mod Tests
use xyllo.Base.{
  Bytes, Bool, ◌==◌, ℕ, zero, suc, eqb, Option, none, some, List, [], ◌∷◌, ◌++◌, get_elem?, set,
  if◌then◌else◌,
}
use xyllo.Translator.{Event, Translated, translated, malformed, Registry, translate, marshal}
use xyllo.Ingestor.{with_id}

-- What one call of the handler works on: its body, its source, and what chance gives it.
pub record Task : Type 0 where
  pub source : Bytes
  pub body : Bytes
  pub now : ℕ
  pub later : ℕ
  pub uuid : Bytes

-- Where a call stands: the body is copied into an array; the event is made, and its body is what the
-- function reads off the array; the event is serialised, or could not be made; or the payload is back
-- in the pool.
pub data Place : Type 0 where
  filled : ℕ → Task → Place
  holding : ℕ → Task → Event → (Bytes → Bytes) → Place
  serialised : ℕ → Task → Option Bytes → Place
  released : Task → Option Bytes → Place

-- Arrays have numbers, below `fresh`; `free` are those of the pool.
pub record Heap : Type 0 where
  pub memory : ℕ → Bytes
  pub free : List ℕ
  pub fresh : ℕ
  pub places : List Place

abbrev pub no_calls : (ℕ → Bytes) → Heap
no_calls memory = record { memory = memory; free = []; fresh = 0; places = [] }

abbrev pub write : ℕ → Bytes → (ℕ → Bytes) → ℕ → Bytes
write a content memory b = if eqb a b then content else memory b

unfoldable pub remove_at : ℕ → List ℕ → List ℕ
remove_at i [] = []
remove_at zero (a ∷ rest) = rest
remove_at (suc i) (a ∷ rest) = a ∷ remove_at i rest

-- Get, which gives out a payload of the pool or makes one, and the copy of the body.
fill_with : Task → Heap → ℕ → Option ℕ → Heap
unfolding remove_at
fill_with t h choice (some a) = record h {
  memory = write a t.body h.memory;
  free = remove_at choice h.free;
  places = filled a t ∷ h.places;
}
fill_with t h choice none = record h {
  memory = write h.fresh t.body h.memory;
  fresh = suc h.fresh;
  places = filled h.fresh t ∷ h.places;
}

-- The event of a translation need not hold a copy: `view` reads its body off the array, or is
-- constant where the translator has made one. A `view` that does not give the body is not this event's.
translate_at : ℕ → ℕ → Task → (Bytes → Bytes) → Heap → Translated → Option Heap
translate_at i a t view h (malformed err) =
    some (record h { places = set h.places i (serialised a t none) })
translate_at i a t view h (translated e) =
    if view (h.memory a) == e.body
    then some (record h { places = set h.places i (holding a t e view) })
    else none

-- The next step of a call: Translate; json.Marshal, which reads the array; Put.
go_on : Registry → ℕ → (Bytes → Bytes) → Heap → Option Place → Option Heap
unfolding translate_at translate marshal
go_on reg i view h none = none
go_on reg i view h (some (filled a t)) =
    translate_at i a t view h (translate reg t.now t.later t.source (h.memory a))
go_on reg i view h (some (holding a t e v)) =
    let json = marshal (with_id t.uuid (record e { body = v (h.memory a) })) in
    some (record h { places = set h.places i (serialised a t json) })
go_on reg i view h (some (serialised a t json)) =
    some (record h { free = a ∷ h.free; places = set h.places i (released t json) })
go_on reg i view h (some (released t json)) = none

-- A new call begins, or a call goes on.
pub data CallStep : Type 0 where
  begins : Task → ℕ → CallStep
  goes : ℕ → (Bytes → Bytes) → CallStep

unfoldable pub call_step : Registry → CallStep → Heap → Option Heap
unfolding fill_with go_on
call_step reg (begins t choice) h = some (fill_with t h choice (get_elem? h.free choice))
call_step reg (goes i view) h = go_on reg i view h (get_elem? h.places i)

unfoldable pub call_steps : Registry → List CallStep → Heap → Option Heap
unfolding call_step
call_steps reg [] h = some h
call_steps reg (t ∷ rest) h = elim (call_step reg t h) [
  | none ↦ none
  | some h' ↦ call_steps reg rest h'
]
