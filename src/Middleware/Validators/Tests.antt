-- ===== src/Middleware/Validators/Tests.antt =====
-- Payloads at the validating handlers.
use xyllo.Base.{Bytes, codes, ◌==◌, false, pos, none, [], ◌≡◌, refl, lookup, insert, bytes_eq}
use xyllo.Metrics.{nop}
use xyllo.Json.{float_zero}
use xyllo.Json.Objects.{decode_object}
use xyllo.Json.Parse.{parse}
use xyllo.Middleware.{Result, World, passed, run}
use xyllo.Middleware.Validators.{validators, schema_error}
use xyllo.Middleware.Validators.Accepts.{IsCanonical, validators_iff}

abbrev unknown_error : Bytes → Bytes
unknown_error payload = codes "unexpected end of JSON input"

abbrev world : World
world = record {
  now = 0;
  limiter = record {
    cfg = record { enabled = false; requests_per_second = pos 1; burst_size = pos 1 };
    buckets = [];
  };
  metrics = nop;
}

abbrev event : Result
event = record {
  source = codes "web";
  payload = codes "{\"id\":\"7\",\"source\":\"web\",\"event_type\":\"click\",\"timestamp_ms\":12}";
  problems = [];
}

event-IsCanonical : IsCanonical event.payload
unfolding decode_object parse lookup insert float_zero ◌==◌
event-IsCanonical =
    (_, refl, ((_, refl, λ e. cc), (_, refl, λ e. cc), (_, refl, λ e. cc), (_, refl, refl)))

-- The event passes.
validators_iff_example : run (validators unknown_error) world event ≡ (passed, world, event)
validators_iff_example = (validators_iff unknown_error world event).0.1 event-IsCanonical

-- A false id is no empty string and no zero, so that it is the type checker that refuses it.
false_id_lem :
    schema_error unknown_error
      (codes "{\"id\":false,\"source\":\"web\",\"event_type\":\"click\",\"timestamp_ms\":12}")
    ≡ none
unfolding schema_error decode_object parse lookup insert float_zero ◌==◌
false_id_lem = refl
