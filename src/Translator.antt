-- ===== src/Translator.antt =====
-- internal/translator/translator.go: the canonical event, the registry of translators and the
-- fallback Passthrough. The texts of decoding errors are a parameter. A key matches a field's name
-- up to the case of ASCII letters; encoding/json also folds U+017F to s, which is left out.
pub mod Events
pub mod Values
pub mod Members
pub mod Decoded
mod Tests
use xyllo.Base.{
  Bytes, codes, Bool, true, false, not, ◌&&◌, ◌||◌, ◌==◌, ◌++◌, ℕ, ◌+◌, ◌/◌, ◌*◌, ◌^◌, ltb, leb,
  eqb, ℤ, pos, negsuc, ◌-ℤ◌, Option, none, some, [], ◌∷◌, map, Assoc, bytes_eq, lookup, insert,
  if◌then◌else◌,
}
use xyllo.Xlerr.{Error, plain, wrapped, quote}
use xyllo.Json.{Number, Value, null, bool, num, str, arr, obj, Fields, end, field}
use xyllo.Json.Parse.{parse}
use xyllo.Json.Numbers.{◌>>=◌}
use xyllo.Json.Encode.{encode_text, encode_integer, encode_time, encode_raw}

-- Times are nanoseconds since 1970.
pub record Event : Type 0 where
  pub id : Bytes
  pub source : Bytes
  pub event_type : Bytes
  pub timestamp_ms : ℤ
  pub received_at : ℕ
  pub body : Bytes

pub data Translated : Type 0 where
  translated : Event → Translated
  malformed : Error → Translated

-- An InboundTranslator: what two readings of the clock give, the source and the raw payload.
abbrev pub Inbound : Type 0
Inbound = ℕ → ℕ → Bytes → Bytes → Translated

pub record Registry : Type 0 where
  pub translators : Assoc Bytes Inbound
  pub fallback : Inbound

unfoldable pub register : Bytes → Inbound → Registry → Registry
unfolding insert
register source t r = record r { translators = insert source t r.translators }

abbrev found_or : Inbound → Option Inbound → Inbound
found_or fallback none = fallback
found_or fallback (some t) = t

unfoldable pub translate : Registry → Inbound
unfolding lookup
translate r now later source = found_or r.fallback (lookup source r.translators) now later source

-- The struct that Passthrough decodes into, and whether a member had a type that does not fit.
pub record Envelope : Type 0 where
  pub event_type : Bytes
  pub timestamp_ms : ℤ
  pub body : Bytes
  pub faulty : Bool

abbrev pub empty : Envelope
empty = record { event_type = []; timestamp_ms = pos 0; body = []; faulty = false }

abbrev lower : ℕ → ℕ
lower c = if leb b'A' c && leb c b'Z' then c + 32 else c

abbrev pub names : Bytes → Bytes → Bool
names key name = map lower key == name

-- The number as an int64: its literal has neither fraction nor exponent, and it is in range.
unfoldable pub int64 : Number → Option ℤ
unfolding ◌-ℤ◌
int64 n =
    if not n.whole
    then none
    else if n.negative
    then (if leb n.digits (2 ^ 63) then some (pos 0 -ℤ pos n.digits) else none)
    else if ltb n.digits (2 ^ 63)
    then some (pos n.digits)
    else none

abbrev spoilt : Envelope → Envelope
spoilt e = record e { faulty = true }

set_type : Value → Envelope → Envelope
set_type null e = e
set_type (str s) e = record e { event_type = s }
set_type (bool b) e = spoilt e
set_type (num n) e = spoilt e
set_type (arr vs) e = spoilt e
set_type (obj fs) e = spoilt e

abbrev set_whole : Option ℤ → Envelope → Envelope
set_whole none e = spoilt e
set_whole (some i) e = record e { timestamp_ms = i }

set_timestamp : Value → Envelope → Envelope
unfolding int64
set_timestamp null e = e
set_timestamp (num n) e = set_whole (int64 n) e
set_timestamp (str s) e = spoilt e
set_timestamp (bool b) e = spoilt e
set_timestamp (arr vs) e = spoilt e
set_timestamp (obj fs) e = spoilt e

-- One member of the object. The field `body` is a RawMessage, which takes any bytes, a null's too.
set_member : Bytes → Value → Bytes → Envelope → Envelope
unfolding set_type set_timestamp
set_member key v raw e =
    if names key (codes "event_type")
    then set_type v e
    else if names key (codes "timestamp_ms")
    then set_timestamp v e
    else if names key (codes "body")
    then record e { body = raw }
    else e

unfoldable pub set_members : Fields → Envelope → Envelope
unfolding set_member
set_members end e = e
set_members (field key v raw fs) e = set_members fs (set_member key v raw e)

-- A top-level null leaves the struct as it is; `none` is an error.
unfoldable pub into_envelope : Option Value → Option Envelope
unfolding set_members
into_envelope none = none
into_envelope (some null) = some empty
into_envelope (some (obj fs)) = let e = set_members fs empty in if e.faulty then none else some e
into_envelope (some _) = none

abbrev is_zero : ℤ → Bool
is_zero (pos n) = eqb n 0
is_zero (negsuc n) = false

-- What Passthrough makes of a decoded envelope.
unfoldable pub event_of : ℕ → ℕ → Bytes → Bytes → Envelope → Event
event_of now later source raw e = record {
  id = [];
  source = source;
  event_type = e.event_type;
  timestamp_ms = if is_zero e.timestamp_ms then pos (now / 1000000) else e.timestamp_ms;
  received_at = later;
  body = if e.body == [] then raw else e.body;
}

module _ (decode_error : Bytes → Bytes) where
  outcome : ℕ → ℕ → Bytes → Bytes → Option Envelope → Translated
  unfolding event_of
  outcome now later source raw none = malformed (
      wrapped
        (codes "passthrough translator: malformed JSON from source " ++ quote source ++ codes ": ")
        (plain (decode_error raw)))
  outcome now later source raw (some e) = translated (event_of now later source raw e)

  unfoldable pub passthrough : Inbound
  unfolding outcome into_envelope parse
  passthrough now later source raw = outcome now later source raw (into_envelope (parse raw))

  unfoldable pub new_registry : Registry
  unfolding passthrough
  new_registry = record { translators = []; fallback = passthrough }

-- json.Marshal of an event; `none` is its error.
unfoldable pub marshal : Event → Option Bytes
unfolding encode_text encode_integer encode_time encode_raw
marshal e = do
  received ← encode_time e.received_at
  body ← encode_raw e.body
  some (
      codes "{\"id\":"
      ++ encode_text e.id
      ++ codes ",\"source\":"
      ++ encode_text e.source
      ++ codes ",\"event_type\":"
      ++ encode_text e.event_type
      ++ codes ",\"timestamp_ms\":"
      ++ encode_integer e.timestamp_ms
      ++ codes ",\"received_at\":"
      ++ received
      ++ codes ",\"body\":"
      ++ body
      ++ codes "}")
