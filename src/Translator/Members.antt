-- ===== src/Translator/Members.antt =====
-- What encoding/json reads from the members of an encoded event.
use xyllo.Base.{
  Bytes, codes, ◌++◌, ℕ, suc, ◌+◌, ◌≤◌, ℤ, pos, negsuc, some, [], ◌∷◌, ◌≡◌, ◌⊎◌, refl, sym, ap, ◌∙◌,
  arith, inl, inr,
}
use mathlib.Core.List.{append_assoc}
use xyllo.Json.{Value, num, str, Fields, end, field}
use xyllo.Json.Numbers.{skip_space, parse_number}
use xyllo.Json.Parse.{parse_value}
use xyllo.Json.Steps.{bind-some}
use xyllo.Json.Steps.Starts.{reads_number, read-parse_value}
use xyllo.Json.Rewriting.{content, member_contents}
use xyllo.Json.Encode.{encode_text, decimal_on, encode_integer, encode_time, encode_raw}
use xyllo.Json.Encode.Decimal.{
  number_of, parse_number-encode_integer, decimal_on-start, decimal_on-append,
}
use xyllo.Translator.{Event, marshal}
use xyllo.Translator.Events.{IsInt64}
use xyllo.Translator.Values.{
  timestamp_key, received_key, body_key, digit_or_minus, raw_value, same_text, RawRead,
}
use xyllo.Json.Encode.Objects.{time-Members, member-last, Members, more-Members}

-- The text of an encoded event behind the opening brace, member by member.
abbrev pub members_text : Event → Bytes → Bytes → Bytes
members_text e received body =
    codes "\"id\":"
    ++ (encode_text e.id
        ++ (codes ",\"source\":"
            ++ (encode_text e.source
                ++ (codes ",\"event_type\":"
                    ++ (encode_text e.event_type
                        ++ (codes ",\"timestamp_ms\":"
                            ++ (encode_integer e.timestamp_ms
                                ++ (codes ",\"received_at\":"
                                    ++ (received
                                        ++ (codes ",\"body\":" ++ (body ++ codes "}")))))))))))

regroup :
    (a b c d r s : Bytes)
    → codes "{\"id\":"
        ++ a
        ++ codes ",\"source\":"
        ++ b
        ++ codes ",\"event_type\":"
        ++ c
        ++ codes ",\"timestamp_ms\":"
        ++ d
        ++ codes ",\"received_at\":"
        ++ r
        ++ codes ",\"body\":"
        ++ s
        ++ codes "}"
      ≡ b'{'
        ∷ (codes "\"id\":"
            ++ (a
                ++ (codes ",\"source\":"
                    ++ (b
                        ++ (codes ",\"event_type\":"
                            ++ (c
                                ++ (codes ",\"timestamp_ms\":"
                                    ++ (d
                                        ++ (codes ",\"received_at\":"
                                            ++ (r
                                                ++ (codes ",\"body\":"
                                                    ++ (s ++ codes "}"))))))))))))
regroup a b c d r s = simp append_assoc

pub marshal_parts :
    (e : Event) (out : Bytes)
    → marshal e ≡ some out
    → (received : Bytes) × (body : Bytes) × (encode_time e.received_at ≡ some received)
      × (encode_raw e.body ≡ some body)
      × (b'{' ∷ members_text e received body ≡ out)
unfolding marshal
marshal_parts e out h =
    let (received, time, h₁) = bind-some (encode_time e.received_at) _ out h in
    let (body, raw, h₂) = bind-some (encode_raw e.body) _ out h₁ in
    (
      received,
      body,
      time,
      raw,
      sym (
            regroup (encode_text e.id) (encode_text e.source) (encode_text e.event_type)
              (encode_integer e.timestamp_ms) received body)
          ∙ same_text _ out h₂,
    )

integer-start :
    (i : ℤ) (t : Bytes)
    → IsInt64 i
    → (c : ℕ) × (s : Bytes) × (encode_integer i ++ b',' ∷ t ≡ c ∷ s)
      × ((c ≡ b'-') ⊎ ((b'0' ≤ c) × (c ≤ b'9')))
unfolding encode_integer
integer-start (pos n) t (l, h) =
    let (c, s, e, low, high) = decimal_on-start n (b',' ∷ t) (omega arith) in
    (c, s, decimal_on-append 20 n [] (b',' ∷ t) ∙ e, inr (low, high))
integer-start (negsuc n) t h = (b'-', decimal_on 20 (n + 1) [] ++ b',' ∷ t, refl, inl refl)

integer-value :
    (n : ℕ) (i : ℤ) (t : Bytes)
    → IsInt64 i
    → (parse_value (suc n) (encode_integer i ++ b',' ∷ t) ≡ some (num (number_of i), b',' ∷ t))
      × (skip_space (encode_integer i ++ b',' ∷ t) ≡ encode_integer i ++ b',' ∷ t)
integer-value n i t (l, h) =
    let (c, s, e, digit) = integer-start i t (l, h) in
    let (starts, none_skipped) = digit_or_minus c s digit in
    let read = parse_number-encode_integer i t (omega arith) (omega arith) in
    (
      ap (parse_value (suc n)) e
          ∙ read-parse_value n c s (num (number_of i)) (b',' ∷ t)
              (reads_number (number_of i) starts (ap parse_number (sym e) ∙ read) refl),
      ap skip_space e ∙ none_skipped ∙ sym e,
    )

pub body-Members :
    (n : ℕ) (body out : Bytes)
    → RawRead n body out
    → (v : Value) × (raw_value body ≡ some v)
      × Members
          (suc n)
          (codes "\"body\":" ++ out ++ codes "}")
          (field (codes "body") (content v) [] end)
unfolding member_contents
body-Members n body out (v, w, raw, read, same, none_skipped) = (
  v,
  raw,
  (
    _,
    member-last n (codes "body") (out ++ codes "}") w (codes "\"body\":" ++ out ++ codes "}") []
        (body_key (out ++ codes "}")) none_skipped read,
    ap (λ x. field (codes "body") x [] end) same,
  ),
)

pub received-Members :
    (n t : ℕ) (received rest : Bytes) (fs : Fields)
    → encode_time t ≡ some received
    → Members (suc n) rest fs
    → (text : Bytes) × Members
        (suc (suc n))
        (codes "\"received_at\":" ++ received ++ b',' ∷ rest)
        (field (codes "received_at") (str text) [] fs)
received-Members n t received rest fs time members =
    time-Members n t (codes "received_at") received rest
      (codes "\"received_at\":" ++ received ++ b',' ∷ rest) fs
      (received_key (received ++ b',' ∷ rest)) time members

pub timestamp-Members :
    (n : ℕ) (i : ℤ) (rest : Bytes) (fs : Fields)
    → IsInt64 i
    → Members (suc n) rest fs
    → Members
        (suc (suc n))
        (codes "\"timestamp_ms\":" ++ encode_integer i ++ b',' ∷ rest)
        (field (codes "timestamp_ms") (num (number_of i)) [] fs)
unfolding content
timestamp-Members n i rest fs fits members =
    let (read, none_skipped) = integer-value n i rest fits in
    more-Members (suc n) (codes "timestamp_ms") (encode_integer i ++ b',' ∷ rest) rest
      (codes "\"timestamp_ms\":" ++ encode_integer i ++ b',' ∷ rest) (num (number_of i)) fs
      (timestamp_key (encode_integer i ++ b',' ∷ rest)) none_skipped read members
