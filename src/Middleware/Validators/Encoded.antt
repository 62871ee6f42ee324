-- ===== src/Middleware/Validators/Encoded.antt =====
-- Encoded events at the two validating handlers.
use xyllo.Base.{
  Bytes, codes, Bool, true, false, ◌||◌, ◌==◌, ℕ, ◌+◌, ◌-◌, ◌*◌, ◌<◌, ◌^◌, leb, ℤ, pos, negsuc,
  Option, none, some, [], Assoc, bytes_eq, lookup, insert, ◌≡◌, ◌≢◌, ◌↔◌, refl, sym, ap, ◌∙◌, arith,
  Bool-cases, inl, inr,
}
use xyllo.Json.{Value, num, str, obj, Fields, float_zero, float_overflow}
use xyllo.Json.Parse.{parse}
use xyllo.Json.Objects.{overflows, fields_overflow, members, into_map, decode_object}
use xyllo.Json.Rewriting.{member_contents}
use xyllo.Json.Contents.{
  overflows-content, fields_overflow-contents, content_of, members-content, content_of-str,
  content_of-num,
}
use xyllo.Json.Encode.Decimal.{number_of}
use xyllo.Translator.{Event, marshal}
use xyllo.Translator.Events.{IsInt64}
use xyllo.Translator.Values.{described, raw_value}
use xyllo.Translator.Decoded.{marshal-decoded}
use xyllo.Middleware.Validators.Accepts.{IsText, IsCanonical}

leb-false : (a b : ℕ) → b < a → leb a b ≡ false
leb-false a b l = ground arith

or_false : (b : Bool) → (b || false) ≡ b
or_false true = refl
or_false false = refl

number_of-fits : (i : ℤ) → IsInt64 i → float_overflow (number_of i) ≡ false
unfolding float_overflow
number_of-fits (pos n) (l, h) = leb-false (2 ^ 1024 - 2 ^ 970) (n * 10 ^ 0) (omega arith)
number_of-fits (negsuc n) (l, h) = leb-false (2 ^ 1024 - 2 ^ 970) ((n + 1) * 10 ^ 0) (omega arith)

number_of-float_zero : (i : ℤ) → i ≢ pos 0 → float_zero (number_of i) ≡ false
unfolding float_zero
number_of-float_zero (pos n) h = ground arith
number_of-float_zero (negsuc n) h = ground arith

described-overflow :
    (e : Event) (text : Bytes) (v : Value)
    → IsInt64 e.timestamp_ms
    → fields_overflow (described e text v) ≡ overflows v
unfolding fields_overflow overflows
described-overflow e text v h =
    rw (number_of-fits e.timestamp_ms h, overflows-content v) (or_false (overflows v))

described-id :
    (e : Event) (text : Bytes) (v : Value)
    → lookup (codes "id") (members (described e text v) []) ≡ some (str e.id)
unfolding members lookup insert ◌==◌
described-id e text v = refl

described-source :
    (e : Event) (text : Bytes) (v : Value)
    → lookup (codes "source") (members (described e text v) []) ≡ some (str e.source)
unfolding members lookup insert ◌==◌
described-source e text v = refl

described-type :
    (e : Event) (text : Bytes) (v : Value)
    → lookup (codes "event_type") (members (described e text v) []) ≡ some (str e.event_type)
unfolding members lookup insert ◌==◌
described-type e text v = refl

described-timestamp :
    (e : Event) (text : Bytes) (v : Value)
    → lookup (codes "timestamp_ms") (members (described e text v) [])
      ≡ some (num (number_of e.timestamp_ms))
unfolding members lookup insert ◌==◌
described-timestamp e text v = refl

-- What is decoded from an encoded event.
record Decoded (e : Event) (v : Value) (out : Bytes) : Type 0 where
  decoded : Assoc Bytes Value
  succeeds : overflows v ≡ false → decode_object out ≡ some decoded
  fails : overflows v ≡ true → decode_object out ≡ none
  has_id : lookup (codes "id") decoded ≡ some (str e.id)
  has_source : lookup (codes "source") decoded ≡ some (str e.source)
  has_type : lookup (codes "event_type") decoded ≡ some (str e.event_type)
  has_timestamp : lookup (codes "timestamp_ms") decoded ≡ some (num (number_of e.timestamp_ms))

into_map-fits :
    (fs : Fields) → fields_overflow fs ≡ false → into_map (some (obj fs)) ≡ some (members fs [])
unfolding into_map
into_map-fits fs h = rw h refl

into_map-overflow : (fs : Fields) → fields_overflow fs ≡ true → into_map (some (obj fs)) ≡ none
unfolding into_map
into_map-overflow fs h = rw h refl

same_value : (v w : Value) (o : Option Value) → o ≡ some v → o ≡ some w → w ≡ v
same_value v w o e f = cc

Decoded-from :
    (e : Event) (v : Value) (out : Bytes) (fs : Fields) (text : Bytes)
    → IsInt64 e.timestamp_ms
    → parse out ≡ some (obj fs)
    → member_contents fs ≡ described e text v
    → Decoded e v out
unfolding decode_object
Decoded-from e v out fs text fits read same =
    let overflow : fields_overflow fs ≡ overflows v =
      sym (fields_overflow-contents fs)
      ∙ ap fields_overflow same
      ∙ described-overflow e text v fits in
    let at : (k : Bytes)
        → content_of (lookup k (members fs [])) ≡ lookup k (members (described e text v) []) =
      λ k. members-content fs k ∙ ap (λ gs. lookup k (members gs [])) same in
    record {
      decoded = members fs [];
      succeeds = λ h. ap into_map read ∙ into_map-fits fs (overflow ∙ h);
      fails = λ h. ap into_map read ∙ into_map-overflow fs (overflow ∙ h);
      has_id =
          content_of-str (lookup (codes "id") (members fs [])) e.id
            (at (codes "id") ∙ described-id e text v);
      has_source =
          content_of-str (lookup (codes "source") (members fs [])) e.source
            (at (codes "source") ∙ described-source e text v);
      has_type =
          content_of-str (lookup (codes "event_type") (members fs [])) e.event_type
            (at (codes "event_type") ∙ described-type e text v);
      has_timestamp =
          content_of-num (lookup (codes "timestamp_ms") (members fs [])) (number_of e.timestamp_ms)
            (at (codes "timestamp_ms") ∙ described-timestamp e text v);
    }

marshal-Decoded :
    (e : Event) (v : Value) (out : Bytes)
    → IsInt64 e.timestamp_ms
    → raw_value e.body ≡ some v
    → marshal e ≡ some out
    → Decoded e v out
marshal-Decoded e v out fits raw h =
    let (fs, text, w, read, raw', same) = marshal-decoded e out fits h in
    Decoded-from e v out fs text fits read
      (same ∙ ap (described e text) (same_value v w (raw_value e.body) raw raw'))

same_text : (t s : Bytes) (o : Option Value) → o ≡ some (str t) → o ≡ some (str s) → t ≡ s
same_text t s o e f = cc

text_of : (o : Option Value) (s : Bytes) → o ≡ some (str s) → IsText o → s ≢ []
text_of o s e (t, f, n) = λ z. n (same_text t s o f e ∙ z)

undecoded :
    (out : Bytes) (m : Assoc Bytes Value) → decode_object out ≡ none → decode_object out ≢ some m
undecoded out m e f = cc

same_map :
    (out : Bytes) (m k : Assoc Bytes Value)
    → decode_object out ≡ some m
    → decode_object out ≡ some k
    → m ≡ k
same_map out m k e f = cc

accepted_iff :
    (e : Event) (v : Value) (out : Bytes)
    → e.id ≢ []
    → e.source ≢ []
    → e.timestamp_ms ≢ pos 0
    → Decoded e v out
    → IsCanonical out ↔ ((e.event_type ≢ []) × (overflows v ≡ false))
accepted_iff e v out named sourced timed d = (
  λ (m, read, (_, _, typed, _)). elim (Bool-cases (overflows v)) [
    | inl y ↦ absurd (undecoded out m (d.fails y) read)
    | inr n ↦ (
      text_of (lookup (codes "event_type") m) e.event_type
          (ap (lookup (codes "event_type")) (same_map out m d.decoded read (d.succeeds n))
            ∙ d.has_type)
          typed,
      n,
    )
  ],
  λ (typed, fits). (
    d.decoded,
    d.succeeds fits,
    (
      (e.id, d.has_id, named),
      (e.source, d.has_source, sourced),
      (e.event_type, d.has_type, typed),
      (number_of e.timestamp_ms, d.has_timestamp, number_of-float_zero e.timestamp_ms timed),
    ),
  ),
)

-- An encoded event with an ID, a source and a timestamp in the range of an int64 that is not zero
-- is what the validating handlers want exactly if its type is not empty and each number in its body
-- fits a float64.
pub marshal-IsCanonical :
    (e : Event) (v : Value) (out : Bytes)
    → IsInt64 e.timestamp_ms
    → e.id ≢ []
    → e.source ≢ []
    → e.timestamp_ms ≢ pos 0
    → raw_value e.body ≡ some v
    → marshal e ≡ some out
    → IsCanonical out ↔ ((e.event_type ≢ []) × (overflows v ≡ false))
marshal-IsCanonical e v out fits named sourced timed raw h =
    accepted_iff e v out named sourced timed (marshal-Decoded e v out fits raw h)
