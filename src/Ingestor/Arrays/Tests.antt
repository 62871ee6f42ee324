-- ===== src/Ingestor/Arrays/Tests.antt =====
-- Two calls that take turns with one array: the second gets it when the first has put it back.
use xyllo.Base.{
  Bytes, codes, ◌==◌, none, some, List, [], ◌∷◌, get_elem?, ◌≡◌, refl, lookup, bytes_eq,
}
use xyllo.Translator.{new_registry, Registry, translate, marshal}
use xyllo.Samples.{unknown_error}
use xyllo.Ingestor.Arrays.{
  Task, released, Heap, no_calls, remove_at, CallStep, begins, goes, call_step, call_steps,
}
use xyllo.Ingestor.Arrays.Ownership.{Owned, call_steps-Owned}

abbrev task : Bytes → Task
task body = record {
  source = codes "web";
  body = body;
  now = 1700000000000000000;
  later = 1700000000000000000;
  uuid = codes "u-1";
}

-- Without an envelope, the body of an event is the whole array.
abbrev whole : Bytes → Bytes
whole content = content

abbrev ts : List CallStep
ts =
    begins (task (codes "{\"a\":1}")) 0
    ∷ goes 0 whole
    ∷ goes 0 whole
    ∷ goes 0 whole
    ∷ begins (task (codes "{\"b\":22}")) 0
    ∷ goes 0 whole
    ∷ goes 0 whole
    ∷ []

reg : Registry
reg = new_registry unknown_error

machine : Unit {0}
unfolding call_steps call_step remove_at reg new_registry translate marshal ◌==◌ lookup
machine = tt

outcome : Heap
unfolding machine
outcome = elim (call_steps reg ts (no_calls (λ a. []))) [ none ↦ no_calls (λ a. []) | some h ↦ h ]

went : call_steps reg ts (no_calls (λ a. [])) ≡ some outcome
unfolding outcome
went = refl

-- One array is enough, and the first call has kept its own bytes.
outcome_lem :
    (outcome.fresh ≡ 1)
    × (get_elem? outcome.places 1
        ≡ some (
            released (task (codes "{\"a\":1}")) (
              some (
                codes
                  "{\"id\":\"u-1\",\"source\":\"web\",\"event_type\":\"\",\"timestamp_ms\":1700000000000,\"received_at\":\"2023-11-14T22:13:20Z\",\"body\":{\"a\":1}}"))))
unfolding outcome
outcome_lem = (refl, refl)

call_steps-Owned_example : Owned reg outcome
call_steps-Owned_example = call_steps-Owned reg (λ a. []) ts outcome went
