-- ===== src/Dlq/Tests.antt =====
-- Runs of the dead letter queue.
use xyllo.Base.{Bytes, some, arith, codes, ◌==◌, Bool, true, false, List, [], ◌∷◌, ◌≡◌, inl, refl}
use xyllo.Config.{DlqConfig}
use xyllo.Json.{obj, Fields}
use xyllo.Json.Parse.{parse}
use xyllo.Json.Rewriting.{member_contents}
use xyllo.Json.Encode.Base64.{base64, unbase64}
use xyllo.Dlq.Lines.{IsOneLine}
use xyllo.Dlq.Recovery.{recorded, entry_json-recorded}
use xyllo.Dlq.{entry_json, Entry, entry_line, write_error, Dlq, new, close}
use xyllo.Dlq.Routing.{
  store_all, written_of, notices_of, lines_of, file-routing, other-backends-log,
}

abbrev to_file : DlqConfig
to_file = record { backend = codes "file"; target = codes "dlq.log" }

abbrev to_redis : DlqConfig
to_redis = record { backend = codes "redis"; target = codes "localhost:6379" }

abbrev opened : Dlq
opened = record { cfg = to_file; is_open = true; written = []; logged = [] }

abbrev logging : Dlq
logging = record { cfg = to_redis; is_open = false; written = []; logged = [] }

abbrev bad : Entry
bad = record { received_at = 1; source = codes "web"; reason = codes "bad"; raw = codes "x" }

-- One write succeeds and one fails.
abbrev entries : List (Bool × Entry)
entries = (true, bad) ∷ (false, bad) ∷ []

file-routing_example :
    ((store_all entries opened).written ≡ bad ∷ [])
    × ((store_all entries opened).logged ≡ write_error (codes "web") ∷ [])
    × ((store_all entries (close true (store_all entries opened)).0).written ≡ bad ∷ [])
    × ((store_all entries (close true (store_all entries opened)).0).logged
        ≡ write_error (codes "web") ∷ entry_line bad ∷ entry_line bad ∷ [])
unfolding new written_of notices_of lines_of ◌==◌
file-routing_example = file-routing true true to_file opened entries entries refl refl (λ e. cc)

other-backends-log_example :
    ((store_all entries logging).written ≡ [])
    × ((store_all entries logging).logged ≡ entry_line bad ∷ entry_line bad ∷ [])
    × (close true (store_all entries logging) ≡ (store_all entries logging, true))
unfolding new lines_of ◌==◌
other-backends-log_example =
    other-backends-log true true to_redis logging entries refl (inl (λ e. cc))

abbrev refused : Entry
refused = record {
  received_at = 1700000000000000000;
  source = codes "web";
  reason = codes "bad <id>";
  raw = codes "{\"a\":1}";
}

abbrev refused_line : Bytes
refused_line =
    codes
      "{\"received_at\":\"2023-11-14T22:13:20Z\",\"source\":\"web\",\"reason\":\"bad \\u003cid\\u003e\",\"raw\":\"eyJhIjoxfQ==\"}"

refused_lem : entry_json refused ≡ some refused_line
unfolding entry_json
refused_lem = refl

entry_json-recorded_example :
    IsOneLine refused_line
    × (unbase64 (base64 refused.raw) ≡ some refused.raw)
    × (fs : Fields) × (text : Bytes) × (parse refused_line ≡ some (obj fs))
    × (member_contents fs ≡ recorded refused text)
entry_json-recorded_example =
    entry_json-recorded refused refused_line
      (
        omega arith,
        (
          omega arith,
          (omega arith, (omega arith, (omega arith, (omega arith, (omega arith, tt))))),
        ),
      )
      refused_lem
