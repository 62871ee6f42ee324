-- ===== src/Dlq/Recovery.antt =====
-- What is decoded from a line of the dead letter file or log.
use xyllo.Base.{
  Bytes, codes, Bool, true, ◌&&◌, leb, ◌++◌, ℕ, suc, ◌+◌, ◌<◌, length, some, [], ◌∷◌, ◌≡◌, refl,
  sym, ap, ◌∙◌, subst, arith, All,
}
use mathlib.Core.List.{append_assoc}
use xyllo.Json.{str, obj, Fields, end, field}
use xyllo.Json.Parse.{parse, member_key}
use xyllo.Json.Rewriting.{member_contents}
use xyllo.Json.Steps.{bind-some}
use xyllo.Json.Encode.{encode_text, encode_time}
use xyllo.Json.Encode.Base64.{base64, unbase64, encode_bytes, unbase64-base64, unquote-encode_bytes}
use xyllo.Json.Encode.Objects.{
  Members, text-Members, time-Members, last-Members, object-value, whole-object,
}
use xyllo.Dlq.{Entry, entry_json}
use xyllo.Dlq.Lines.{
  IsOneLine, joined, encode_text-IsOneLine, encode_bytes-IsOneLine, encode_time-IsOneLine,
}

-- The text of an entry behind the opening brace, member by member.
abbrev members_text : Entry → Bytes → Bytes
members_text e received =
    codes "\"received_at\":"
    ++ (received
        ++ (codes ",\"source\":"
            ++ (encode_text e.source
                ++ (codes ",\"reason\":"
                    ++ (encode_text e.reason
                        ++ (codes ",\"raw\":" ++ (encode_bytes e.raw ++ codes "}")))))))

regroup :
    (a b c d : Bytes)
    → codes "{\"received_at\":"
        ++ a
        ++ codes ",\"source\":"
        ++ b
        ++ codes ",\"reason\":"
        ++ c
        ++ codes ",\"raw\":"
        ++ d
        ++ codes "}"
      ≡ b'{'
        ∷ (codes "\"received_at\":"
            ++ (a
                ++ (codes ",\"source\":"
                    ++ (b
                        ++ (codes ",\"reason\":"
                            ++ (c ++ (codes ",\"raw\":" ++ (d ++ codes "}"))))))))
regroup a b c d = simp append_assoc

same_text : (a b : Bytes) → some a ≡ some b → a ≡ b
same_text a b e = cc

entry_parts :
    (e : Entry) (line : Bytes)
    → entry_json e ≡ some line
    → (received : Bytes) × (encode_time e.received_at ≡ some received)
      × (b'{' ∷ members_text e received ≡ line)
unfolding entry_json
entry_parts e line h =
    let (received, time, h₁) = bind-some (encode_time e.received_at) _ line h in
    (
      received,
      time,
      sym (regroup received (encode_text e.source) (encode_text e.reason) (encode_bytes e.raw))
          ∙ same_text _ line h₁,
    )

received_key :
    (s : Bytes) → member_key (codes "\"received_at\":" ++ s) ≡ some (codes "received_at", s)
unfolding member_key
received_key s = refl

source_key : (s : Bytes) → member_key (codes "\"source\":" ++ s) ≡ some (codes "source", s)
unfolding member_key
source_key s = refl

reason_key : (s : Bytes) → member_key (codes "\"reason\":" ++ s) ≡ some (codes "reason", s)
unfolding member_key
reason_key s = refl

raw_key : (s : Bytes) → member_key (codes "\"raw\":" ++ 34 ∷ s) ≡ some (codes "raw", 34 ∷ s)
unfolding member_key
raw_key s = refl

-- An entry as it is decoded, without the raw bytes of its members.
abbrev pub recorded : Entry → Bytes → Fields
recorded e received = field (codes "received_at") (str received) [] (
    field (codes "source") (str e.source) []
      (field (codes "reason") (str e.reason) [] (field (codes "raw") (str (base64 e.raw)) [] end)))

raw-Members :
    (n : ℕ) (raw : Bytes)
    → Members
        (suc (suc n))
        (codes "\"raw\":" ++ (encode_bytes raw ++ codes "}"))
        (field (codes "raw") (str (base64 raw)) [] end)
unfolding encode_bytes
raw-Members n raw =
    subst
      (λ u.
        Members (suc (suc n)) (codes "\"raw\":" ++ 34 ∷ u)
          (field (codes "raw") (str (base64 raw)) [] end))
      (sym (append_assoc (base64 raw) (34 ∷ []) (codes "}")))
      (last-Members n (codes "raw") (base64 raw ++ 34 ∷ b'}' ∷ []) (base64 raw)
        (codes "\"raw\":" ++ 34 ∷ base64 raw ++ 34 ∷ b'}' ∷ [])
        (raw_key (base64 raw ++ 34 ∷ b'}' ∷ [])) (unquote-encode_bytes raw (b'}' ∷ [])))

all-Members :
    (n : ℕ) (e : Entry) (received : Bytes)
    → encode_time e.received_at ≡ some received
    → (text : Bytes) × Members
        (suc (suc (suc (suc (suc n)))))
        (members_text e received)
        (recorded e text)
all-Members n e received time =
    let raws = raw-Members n e.raw in
    let reasons = text-Members (suc n) (codes "reason") e.reason _ _ _ (reason_key _) raws in
    let sources =
      text-Members (suc (suc n)) (codes "source") e.source _ _ _ (source_key _) reasons in
    time-Members (suc (suc (suc n))) e.received_at (codes "received_at") received _ _ _
      (received_key _) time sources

no_control : Bytes → Bool
no_control [] = true
no_control (c ∷ s) = leb 32 c && no_control s

checked : (s : Bytes) → no_control s ≡ true → IsOneLine s
unfolding no_control
checked [] h = tt
checked (c ∷ s) h = (ground arith, checked s (ground arith))

one_line :
    (e : Entry) (received : Bytes) → IsOneLine received → IsOneLine (b'{' ∷ members_text e received)
unfolding no_control
one_line e received h =
    joined (codes "{\"received_at\":") _ (checked (codes "{\"received_at\":") refl) (
      joined received _ h (
        joined (codes ",\"source\":") _ (checked (codes ",\"source\":") refl) (
          joined (encode_text e.source) _ (encode_text-IsOneLine e.source) (
            joined (codes ",\"reason\":") _ (checked (codes ",\"reason\":") refl) (
              joined (encode_text e.reason) _ (encode_text-IsOneLine e.reason) (
                joined (codes ",\"raw\":") _ (checked (codes ",\"raw\":") refl) (
                  joined (encode_bytes e.raw) (codes "}") (encode_bytes-IsOneLine e.raw)
                    (checked (codes "}") refl))))))))

-- A dead letter's line has no control characters, so that it is one line, and what is decoded from
-- it is an object with the entry's source and reason as they are, the time as some string, and the
-- payload in base64, which decodes to the payload.
pub entry_json-recorded :
    (e : Entry) (line : Bytes)
    → All (λ c. c < 256) e.raw
    → entry_json e ≡ some line
    → IsOneLine line
      × (unbase64 (base64 e.raw) ≡ some e.raw)
      × (fs : Fields) × (text : Bytes) × (parse line ≡ some (obj fs))
      × (member_contents fs ≡ recorded e text)
entry_json-recorded e line bytes h =
    let (received, time, whole) = entry_parts e line h in
    let inside = members_text e received in
    let n = length inside + length inside in
    let (text, (fs, read, same)) = all-Members n e received time in
    (
      subst IsOneLine whole
          (one_line e received (encode_time-IsOneLine e.received_at received time)),
      unbase64-base64 e.raw bytes,
      fs,
      text,
      ap parse (sym whole)
          ∙ whole-object (suc (suc (suc (suc (suc (suc n)))))) inside fs (omega arith)
              (object-value (suc (suc (suc (suc (suc n))))) _ fs read),
      same,
    )
