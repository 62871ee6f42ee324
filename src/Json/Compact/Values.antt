-- ===== src/Json/Compact/Values.antt =====
-- The compaction of a raw message leaves the value that is read from it.
use xyllo.Base.{Bytes, ℕ, some, [], ◌∷◌, ◌≡◌, sym, ap, ◌∙◌, inl}
use xyllo.Json.{Number, Value}
use xyllo.Json.Numbers.{skip_space, parse_number}
use xyllo.Json.Parse.{parse_value, start, digits}
use xyllo.Json.Kept.{start-digits}
use xyllo.Json.Rewriting.{IsRewriting, content, value-Same}
use xyllo.Json.Encode.{outside, inside, compact_from}
use xyllo.Json.Compact.{compact_from-quote, compact_from-skip_space, skip_space-compact_from}
use xyllo.Json.Compact.Strings.{unquote-compact}
use xyllo.Json.Compact.Numbers.{parse_number-compact}
use xyllo.Json.Compact.Literals.{
  compact_from-kept, expect-compact, Stops, Stops-EndsNumber, skipped,
}
use xyllo.Json.Compact.Tokens.{
  closed_at_once-array, closed_at_once-object, open_array, open_object, behind-more, behind-done,
  member_key-compact,
}

number_kept :
    (c : ℕ) (s : Bytes) (k : Number) (rest : Bytes)
    → start c ≡ digits
    → parse_number (c ∷ s) ≡ some (k, rest)
    → Stops rest
    → parse_number (c ∷ compact_from 0 outside s) ≡ some (k, compact_from 0 outside rest)
number_kept c s k rest d e stops =
    let (a, b, sp) = start-digits c d in
    parse_number-compact c s k rest sp (a, b) e (Stops-EndsNumber rest stops)

compact_from-IsRewriting : IsRewriting (compact_from 0 outside) (compact_from 0 inside) Stops
compact_from-IsRewriting = record {
  spaces = λ s. skip_space-compact_from s ∙ sym (compact_from-skip_space s);
  kept_byte = compact_from-kept;
  quote_byte = compact_from-quote;
  literal_text = expect-compact;
  string_text = unquote-compact;
  number_text = number_kept;
  empty_array = closed_at_once-array;
  empty_object = closed_at_once-object;
  open_array = open_array;
  open_object = λ s key rest named e. open_object s e;
  member_name = member_key-compact;
  more_behind = behind-more;
  done_behind = behind-done;
}

all_gone : (s : Bytes) → skip_space s ≡ [] → compact_from 0 outside s ≡ []
unfolding compact_from
all_gone s e = skipped s [] e

-- What a whole document is read as, is read from its compaction, with the same fuel.
pub value-compact :
    (n : ℕ) (s : Bytes) (v : Value) (rest : Bytes)
    → parse_value n (skip_space s) ≡ some (v, rest)
    → skip_space rest ≡ []
    → (w : Value) × (parse_value n (compact_from 0 outside s) ≡ some (w, []))
      × (content w ≡ content v)
unfolding Stops
value-compact n s v rest e all =
    let (w, read, same) =
      value-Same (compact_from 0 outside) (compact_from 0 inside) Stops compact_from-IsRewriting n
        (skip_space s) v rest e (inl all) in
    (
      w,
      ap (parse_value n) (sym (compact_from-skip_space s))
          ∙ read
          ∙ ap (λ r. some (w, r)) (all_gone rest all),
      same,
    )
