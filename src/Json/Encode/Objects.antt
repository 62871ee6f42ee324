-- ===== src/Json/Encode/Objects.antt =====
-- Reading back an encoded object, member by member.
use xyllo.Base.{sym, Bytes, ◌++◌, ℕ, suc, ◌+◌, ◌≤◌, some, [], ◌∷◌, length, ◌≡◌, refl, ap, ◌∙◌}
use mathlib.Core.List.{append_assoc}
use xyllo.Json.{Value, str, Fields, end, field, obj}
use xyllo.Json.Numbers.{is_space, skip_space}
use xyllo.Json.Texts.{unquote}
use xyllo.Json.Parse.{
  parse, whole_document, parse_value, parse_fields, start, member_key, behind, behind_of, between,
  closed_at_once,
}
use xyllo.Json.Fuel.{parse-fuel}
use xyllo.Json.Steps.{more_fields, last_field, read-parse_fields, bind-is}
use xyllo.Json.Steps.Starts.{reads_text, read-parse_value, reads_object}
use xyllo.Json.Rewriting.{content, member_contents}
use xyllo.Json.Encode.{escape_from, encode_text, encode_time}
use xyllo.Json.Encode.Times.{unquote-encode_time}
use xyllo.Json.Encode.Quoted.{unquote-encode_text}

-- Values of an encoded event in front of what follows them.
pub quoted-value :
    (n : ℕ) (s t rest : Bytes)
    → unquote s ≡ some (t, rest)
    → parse_value (suc n) (34 ∷ s) ≡ some (str t, rest)
unfolding start
quoted-value n s t rest e = read-parse_value n 34 s (str t) rest (reads_text t refl e refl)

pub text-value :
    (n : ℕ) (s rest : Bytes) → parse_value (suc n) (encode_text s ++ rest) ≡ some (str s, rest)
unfolding encode_text
text-value n s rest =
    ap (λ o. parse_value (suc n) (34 ∷ o)) (append_assoc (escape_from 0 s) (34 ∷ []) rest)
    ∙ quoted-value n (escape_from 0 s ++ 34 ∷ rest) s rest (unquote-encode_text s rest)

-- One more member of an object, in front of a comma.
pub member-more :
    (n : ℕ) (key at t : Bytes) (v : Value) (s : Bytes) (fs : Fields) (last : Bytes)
    → member_key s ≡ some (key, at)
    → skip_space at ≡ at
    → parse_value n at ≡ some (v, b',' ∷ t)
    → parse_fields n t ≡ some (fs, last)
    → parse_fields (suc n) s ≡ some (field key v (between (skip_space at) (b',' ∷ t)) fs, last)
unfolding behind behind_of skip_space
member-more n key at t v s fs last k none_skipped e rest =
    read-parse_fields n s _ last
      (more_fields key v at (b',' ∷ t) t fs k (ap (parse_value n) none_skipped ∙ e) refl rest refl)

pub member-last :
    (n : ℕ) (key at : Bytes) (v : Value) (s last : Bytes)
    → member_key s ≡ some (key, at)
    → skip_space at ≡ at
    → parse_value n at ≡ some (v, b'}' ∷ last)
    → parse_fields (suc n) s ≡ some (field key v (between (skip_space at) (b'}' ∷ last)) end, last)
unfolding behind behind_of skip_space
member-last n key at v s last k none_skipped e =
    read-parse_fields n s _ last
      (last_field key v at (b'}' ∷ last) k (ap (parse_value n) none_skipped ∙ e) refl refl)

-- No space stands in front of a value.
pub text-skip_space : (s rest : Bytes) → skip_space (encode_text s ++ rest) ≡ encode_text s ++ rest
unfolding encode_text skip_space is_space
text-skip_space s rest = refl

pub quote-skip_space : (s : Bytes) → skip_space (34 ∷ s) ≡ 34 ∷ s
unfolding skip_space is_space
quote-skip_space s = refl

-- The members one after another, from the last.
abbrev pub Members : ℕ → Bytes → Fields → Type 0
Members n s fs = (gs : Fields) × (parse_fields n s ≡ some (gs, [])) × (member_contents gs ≡ fs)

pub more-Members :
    (n : ℕ) (key at t s : Bytes) (v : Value) (fs : Fields)
    → member_key s ≡ some (key, at)
    → skip_space at ≡ at
    → parse_value n at ≡ some (v, b',' ∷ t)
    → Members n t fs
    → Members (suc n) s (field key (content v) [] fs)
unfolding member_contents
more-Members n key at t s v fs k none_skipped e (gs, rest, same) =
    (_, member-more n key at t v s gs [] k none_skipped e rest, ap (field key (content v) []) same)

pub text-Members :
    (n : ℕ) (key text t s : Bytes) (fs : Fields)
    → member_key s ≡ some (key, encode_text text ++ b',' ∷ t)
    → Members (suc n) t fs
    → Members (suc (suc n)) s (field key (str text) [] fs)
unfolding content
text-Members n key text t s fs k rest =
    more-Members (suc n) key (encode_text text ++ b',' ∷ t) t s (str text) fs k
      (text-skip_space text (b',' ∷ t)) (text-value n text (b',' ∷ t)) rest

pub time-Members :
    (n t : ℕ) (key received rest s : Bytes) (fs : Fields)
    → member_key s ≡ some (key, received ++ b',' ∷ rest)
    → encode_time t ≡ some received
    → Members (suc n) rest fs
    → (text : Bytes) × Members (suc (suc n)) s (field key (str text) [] fs)
unfolding content
time-Members n t key received rest s fs k time members =
    let (u, text, opening, read) = unquote-encode_time t received (b',' ∷ rest) time in
    (
      text,
      more-Members (suc n) key (received ++ b',' ∷ rest) rest s (str text) fs k
          (ap skip_space opening ∙ quote-skip_space u ∙ sym opening)
          (ap (parse_value (suc n)) opening ∙ quoted-value n u text (b',' ∷ rest) read) members,
    )

-- A last member that is a string.
pub last-Members :
    (n : ℕ) (key u text s : Bytes)
    → member_key s ≡ some (key, 34 ∷ u)
    → unquote u ≡ some (text, b'}' ∷ [])
    → Members (suc (suc n)) s (field key (str text) [] end)
unfolding content member_contents
last-Members n key u text s k read = (
  _,
  member-last (suc n) key (34 ∷ u) (str text) s [] k (quote-skip_space u)
      (quoted-value n u text (b'}' ∷ []) read),
  refl,
)

pub object-value :
    (n : ℕ) (s : Bytes) (fs : Fields)
    → parse_fields n (34 ∷ s) ≡ some (fs, [])
    → parse_value (suc n) (b'{' ∷ 34 ∷ s) ≡ some (obj fs, [])
unfolding start closed_at_once
object-value n s fs e =
    read-parse_value n b'{' (34 ∷ s) (obj fs) [] (reads_object fs refl refl e refl)

pub whole-object :
    (n : ℕ) (s : Bytes) (fs : Fields)
    → 2 + length (b'{' ∷ s) + length (b'{' ∷ s) ≤ n
    → parse_value n (b'{' ∷ s) ≡ some (obj fs, [])
    → parse (b'{' ∷ s) ≡ some (obj fs)
unfolding whole_document skip_space is_space
whole-object n s fs le e =
    parse-fuel n (b'{' ∷ s) le
    ∙ bind-is (parse_value n (b'{' ∷ s)) whole_document (obj fs, []) (some (obj fs)) e refl
