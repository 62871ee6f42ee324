-- ===== src/Translator/Decoded.antt =====
-- What encoding/json decodes from an encoded event.
use xyllo.Base.{Bytes, codes, ℕ, suc, ◌+◌, ◌≤◌, some, length, ◌≡◌, sym, ap, ◌∙◌, arith}
use xyllo.Json.{Value, obj, Fields}
use xyllo.Json.Parse.{parse}
use xyllo.Json.Rewriting.{member_contents}
use xyllo.Json.Encode.{encode_time, encode_raw}
use xyllo.Translator.{Event, marshal}
use xyllo.Translator.Events.{IsInt64}
use xyllo.Translator.Values.{id_key, source_key, type_key, described, raw_value, encode_raw-Read}
use xyllo.Translator.Members.{
  members_text, marshal_parts, body-Members, received-Members, timestamp-Members,
}
use xyllo.Json.Encode.Objects.{Members, text-Members, object-value, whole-object}

-- All members with enough fuel for the body.
all-Members :
    (n : ℕ) (e : Event) (received body : Bytes)
    → IsInt64 e.timestamp_ms
    → encode_time e.received_at ≡ some received
    → encode_raw e.body ≡ some body
    → 2 + length e.body + length e.body ≤ n
    → (text : Bytes) × (v : Value) × (raw_value e.body ≡ some v)
      × Members
          (suc (suc (suc (suc (suc (suc n))))))
          (members_text e received body)
          (described e text v)
all-Members n e received body fits time raw le =
    let (v, raw', bodies) = body-Members n e.body body (encode_raw-Read n e.body body le raw) in
    let (text, receiveds) = received-Members n e.received_at received _ _ time bodies in
    let timestamps = timestamp-Members (suc n) e.timestamp_ms _ _ fits receiveds in
    let types =
      text-Members (suc (suc n)) (codes "event_type") e.event_type _ _ _ (type_key _) timestamps in
    let sources =
      text-Members (suc (suc (suc n))) (codes "source") e.source _ _ _ (source_key _) types in
    (
      text,
      v,
      raw',
      text-Members (suc (suc (suc (suc n)))) (codes "id") e.id _ _ _ (id_key _) sources,
    )

-- An event that json.Marshal encodes, with a timestamp in the range of an int64, is decoded to an
-- object with the event's fields, in order: the strings and the number as they are, the time of
-- receipt as some string, and the value of the body, a nil one being null.
pub marshal-decoded :
    (e : Event) (out : Bytes)
    → IsInt64 e.timestamp_ms
    → marshal e ≡ some out
    → (fs : Fields) × (text : Bytes) × (v : Value) × (parse out ≡ some (obj fs))
      × (raw_value e.body ≡ some v)
      × (member_contents fs ≡ described e text v)
marshal-decoded e out fits h =
    let (received, body, time, raw, whole) = marshal_parts e out h in
    let inside = members_text e received body in
    let n = length inside + length inside + length e.body + length e.body in
    let (text, v, raw', (fs, read, same)) =
      all-Members (suc (suc n)) e received body fits time raw (omega arith) in
    (
      fs,
      text,
      v,
      ap parse (sym whole)
          ∙ whole-object (suc (suc (suc (suc (suc (suc (suc (suc (suc n))))))))) inside fs
              (omega arith)
              (object-value (suc (suc (suc (suc (suc (suc (suc (suc n)))))))) _ fs read),
      raw',
      same,
    )
