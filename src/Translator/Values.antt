-- ===== src/Translator/Values.antt =====
-- What encoding/json reads from the values of an encoded event.
use xyllo.Base.{
  Bytes, codes, ◌++◌, ℕ, zero, suc, ◌+◌, ◌≤◌, Option, none, some, [], ◌∷◌, length, ◌≡◌, ◌≢◌, ◌⊎◌,
  refl, sym, ap, ◌∙◌, subst, arith, Option-cases, inl, inr,
}
use xyllo.Json.{Value, null, num, str, Fields, end, field}
use xyllo.Json.Numbers.{is_space, skip_space, is_digit}
use xyllo.Json.Parse.{parse, whole_document, parse_value, digits, start, member_key}
use xyllo.Json.Fuel.{parse-fuel}
use xyllo.Json.Steps.{bind-some}
use xyllo.Json.Rewriting.{content}
use xyllo.Json.Tails.{skip_space-tail}
use xyllo.Json.Append.{value-tail}
use xyllo.Json.Compact.{skip_space-compact_from}
use xyllo.Json.Encode.{outside, compact_from, encode_raw}
use xyllo.Json.Encode.Decimal.{number_of}
use xyllo.Json.Compact.Values.{value-compact}
use xyllo.Translator.{Event}

-- The keys.
pub id_key : (s : Bytes) → member_key (codes "\"id\":" ++ s) ≡ some (codes "id", s)
unfolding member_key
id_key s = refl

pub source_key : (s : Bytes) → member_key (codes "\"source\":" ++ s) ≡ some (codes "source", s)
unfolding member_key
source_key s = refl

pub type_key :
    (s : Bytes) → member_key (codes "\"event_type\":" ++ s) ≡ some (codes "event_type", s)
unfolding member_key
type_key s = refl

pub timestamp_key :
    (s : Bytes) → member_key (codes "\"timestamp_ms\":" ++ s) ≡ some (codes "timestamp_ms", s)
unfolding member_key
timestamp_key s = refl

pub received_key :
    (s : Bytes) → member_key (codes "\"received_at\":" ++ s) ≡ some (codes "received_at", s)
unfolding member_key
received_key s = refl

pub body_key : (s : Bytes) → member_key (codes "\"body\":" ++ s) ≡ some (codes "body", s)
unfolding member_key
body_key s = refl

pub digit_or_minus :
    (c : ℕ) (s : Bytes)
    → (c ≡ b'-') ⊎ ((b'0' ≤ c) × (c ≤ b'9'))
    → (start c ≡ digits) × (skip_space (c ∷ s) ≡ c ∷ s)
unfolding start is_digit skip_space is_space
digit_or_minus c s h = (ground arith, ground arith)

-- The fields of an event as they are decoded, without the raw bytes.
abbrev pub described : Event → Bytes → Value → Fields
described e received v = field (codes "id") (str e.id) [] (
    field (codes "source") (str e.source) [] (
      field (codes "event_type") (str e.event_type) [] (
        field (codes "timestamp_ms") (num (number_of e.timestamp_ms)) [] (
          field (codes "received_at") (str received) []
            (field (codes "body") (content v) [] end)))))

-- The value of a raw message, of which the nil one is null.
unfoldable pub raw_value : Bytes → Option Value
unfolding parse
raw_value [] = some null
raw_value (c ∷ s) = parse (c ∷ s)

ended :
    (w v : Value) (s : Bytes)
    → (elim s as (λ _. Option Value) [ [] ↦ some w | _ ∷ _ ↦ none ]) ≡ some v
    → (w ≡ v) × (s ≡ [])
ended w v [] e = (cc, refl)
ended w v (c ∷ s) e = absurd cc

pub same_text : (a b : Bytes) → some a ≡ some b → a ≡ b
same_text a b e = cc

none_text : {a : Bytes} → none ≢ some a
none_text e = cc

whole_document-some :
    (w : Value) (rest : Bytes) (v : Value)
    → whole_document (w, rest) ≡ some v
    → (w ≡ v) × (skip_space rest ≡ [])
unfolding whole_document
whole_document-some w rest v e = ended w v (skip_space rest) e

document-value :
    (n : ℕ) (s : Bytes) (v : Value)
    → 2 + length s + length s ≤ n
    → parse s ≡ some v
    → (rest : Bytes) × (parse_value n (skip_space s) ≡ some (v, rest)) × (skip_space rest ≡ [])
document-value n s v le e =
    let ((w, rest), read, last) =
      bind-some (parse_value n (skip_space s)) whole_document v (sym (parse-fuel n s le) ∙ e) in
    let (same, none_left) = whole_document-some w rest v last in
    (rest, read ∙ ap (λ x. some (x, rest)) same, none_left)

raw_document-value :
    (n : ℕ) (s : Bytes) (v : Value)
    → 2 + length s + length s ≤ n
    → parse s ≡ some v
    → (w : Value) × (parse_value n (compact_from 0 outside s ++ b'}' ∷ []) ≡ some (w, b'}' ∷ []))
      × (content w ≡ content v)
raw_document-value n s v le e =
    let (rest, read, none_left) = document-value n s v le e in
    let (w, compacted, same) = value-compact n s v rest read none_left in
    let (w', closed, same') = value-tail n (compact_from 0 outside s) w [] compacted in
    (w', closed, same' ∙ same)

raw-skip_space :
    (s : Bytes)
    → skip_space (compact_from 0 outside s ++ b'}' ∷ []) ≡ compact_from 0 outside s ++ b'}' ∷ []
raw-skip_space s =
    skip_space-tail (compact_from 0 outside s)
    ∙ ap (λ o. o ++ b'}' ∷ []) (skip_space-compact_from s)

-- What is read from an encoded raw message in front of the closing brace.
abbrev pub RawRead : ℕ → Bytes → Bytes → Type 0
RawRead n body out =
    (v : Value) × (w : Value) × (raw_value body ≡ some v)
    × (parse_value n (out ++ b'}' ∷ []) ≡ some (w, b'}' ∷ []))
    × (content w ≡ content v)
    × (skip_space (out ++ b'}' ∷ []) ≡ out ++ b'}' ∷ [])

null-read : (n : ℕ) → RawRead (suc n) [] (codes "null")
unfolding raw_value parse_value skip_space
null-read n = (null, null, refl, refl, refl, refl)

pub encode_raw-Read :
    (n : ℕ) (body out : Bytes)
    → 2 + length body + length body ≤ n
    → encode_raw body ≡ some out
    → RawRead n body out
unfolding encode_raw raw_value
encode_raw-Read zero [] out le e = absurd (omega arith)
encode_raw-Read (suc n) [] out le e =
    subst (RawRead (suc n) []) (same_text (codes "null") out e) (null-read n)
encode_raw-Read n (c ∷ s) out le e = elim (Option-cases (parse (c ∷ s))) [
  | inl k ↦ absurd (none_text (rw (k, encode_raw) at e))
  | inr (v, k) ↦
      let (w, read, same) = raw_document-value n (c ∷ s) v le k in
      subst (RawRead n (c ∷ s))
        (same_text (compact_from 0 outside (c ∷ s)) out (rw (k, encode_raw) at e))
        (v, w, k, read, same, raw-skip_space (c ∷ s))
]
