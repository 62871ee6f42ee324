-- ===== src/Json/Append.antt =====
-- A value is read in the same way in front of a closing brace.
use xyllo.Base.{
  Bytes, codes, ◌++◌, ℕ, eqb, none, some, [], ◌∷◌, ◌≡◌, ◌≢◌, ◌⊎◌, refl, sym, ap, ◌∙◌, arith,
  Bool-cases, inl, inr,
}
use xyllo.Json.{Number, Value}
use xyllo.Json.Numbers.{skip_space, expect, parse_number}
use xyllo.Json.Texts.{unquote}
use xyllo.Json.Parse.{
  parse_value, member_key, Behind, more, done, wrong, behind, behind_of, closed_at_once,
}
use xyllo.Json.Steps.Keys.{member_key_parts, parts-member_key}
use xyllo.Json.Rewriting.{IsRewriting, content, value-Same}
use xyllo.Json.Tails.{
  tail, skip_space-tail, expect-tail, unquote_from-tail, tailed, parse_number-tail,
}

-- Tokens.
closed_some :
    (close : ℕ) (s rest : Bytes)
    → closed_at_once close s ≡ some rest
    → closed_at_once close (tail s) ≡ some (tail rest)
unfolding closed_at_once
closed_some close s rest e =
    ap (expect (close ∷ [])) (skip_space-tail s) ∙ expect-tail (close ∷ []) (skip_space s) rest e

expect-none :
    (close : ℕ) (s : Bytes)
    → (s ≢ []) ⊎ (close ≢ b'}')
    → expect (close ∷ []) s ≡ none
    → expect (close ∷ []) (tail s) ≡ none
unfolding expect
expect-none close [] (inl n) e = absurd (n refl)
expect-none close [] (inr n) e = ground arith
expect-none close (c ∷ s) n e = ground arith

array_open : (s : Bytes) → closed_at_once b']' s ≡ none → closed_at_once b']' (tail s) ≡ none
unfolding closed_at_once
array_open s e =
    ap (expect (b']' ∷ [])) (skip_space-tail s)
    ∙ expect-none b']' (skip_space s) (inr (omega arith)) e

no_opening : (s : Bytes) → expect (34 ∷ []) [] ≢ some s
unfolding expect
no_opening s e = absurd cc

object_open :
    (s key rest : Bytes)
    → member_key s ≡ some (key, rest)
    → closed_at_once b'}' s ≡ none
    → closed_at_once b'}' (tail s) ≡ none
unfolding closed_at_once
object_open s key rest named e =
    let (s₁, s₂, opening, _, _) = member_key_parts s key rest named in
    ap (expect (b'}' ∷ [])) (skip_space-tail s)
    ∙ expect-none b'}' (skip_space s)
        (inl (λ none_left. no_opening s₁ (sym (ap (expect (34 ∷ [])) none_left) ∙ opening))) e

member_key-tail :
    (s key rest : Bytes)
    → member_key s ≡ some (key, rest)
    → member_key (tail s) ≡ some (key, tail rest)
unfolding unquote
member_key-tail s key rest e =
    let (s₁, s₂, opening, name, colon) = member_key_parts s key rest e in
    parts-member_key (tail s) (tail s₁) key (tail s₂) (tail rest)
      (ap (expect (34 ∷ [])) (skip_space-tail s) ∙ expect-tail (34 ∷ []) (skip_space s) s₁ opening)
      (unquote_from-tail _ s₁ key s₂ name)
      (ap (expect (codes ":")) (skip_space-tail s₂)
        ∙ expect-tail (codes ":") (skip_space s₂) rest colon)

abbrev tail_behind : Behind → Behind
tail_behind (more t) = more (tail t)
tail_behind (done t) = done (tail t)
tail_behind wrong = wrong

behind_of-tail :
    (close : ℕ) (s : Bytes) (x : Behind)
    → behind_of close s ≡ x
    → x ≢ wrong
    → behind_of close (tail s) ≡ tail_behind x
unfolding behind_of
behind_of-tail close [] x e n = absurd (n (sym e))
behind_of-tail close (c ∷ s) x e n = rw (sym e) (elim (Bool-cases (eqb c b',')) [
  | inl y ↦ rw y refl
  | inr k ↦ elim (Bool-cases (eqb c close)) [ inl y ↦ rw (k, y) refl | inr m ↦ rw (k, m) refl ]
])

behind-tail :
    (close : ℕ) (s : Bytes) (x : Behind)
    → behind close s ≡ x
    → x ≢ wrong
    → behind close (tail s) ≡ tail_behind x
unfolding behind
behind-tail close s x e n =
    ap (behind_of close) (skip_space-tail s) ∙ behind_of-tail close (skip_space s) x e n

more_right : (t : Bytes) → more t ≢ wrong
more_right t e = absurd cc

done_right : (t : Bytes) → done t ≢ wrong
done_right t e = absurd cc

number_kept :
    (c : ℕ) (s : Bytes) (k : Number) (rest : Bytes)
    → parse_number (c ∷ s) ≡ some (k, rest)
    → parse_number (c ∷ tail s) ≡ some (k, tail rest)
number_kept c s k rest e = parse_number-tail (c ∷ s) ∙ ap tailed e

tail-IsRewriting : IsRewriting tail tail (λ s. Unit)
unfolding unquote
tail-IsRewriting = record {
  spaces = skip_space-tail;
  kept_byte = λ c s k. refl;
  quote_byte = λ s. refl;
  literal_text = λ p s rest k e. expect-tail p s rest e;
  string_text = λ s t rest e. unquote_from-tail _ s t rest e;
  number_text = λ c s k rest d e stops. number_kept c s k rest e;
  empty_array = closed_some b']';
  empty_object = closed_some b'}';
  open_array = array_open;
  open_object = object_open;
  member_name = member_key-tail;
  more_behind = λ close s t k e. (behind-tail close s (more t) e (more_right t), tt);
  done_behind = λ close s t k e. (behind-tail close s (done t) e (done_right t), tt);
}

-- A value is read as the same value in front of a closing brace.
pub value-tail :
    (n : ℕ) (s : Bytes) (v : Value) (rest : Bytes)
    → parse_value n s ≡ some (v, rest)
    → (w : Value) × (parse_value n (s ++ b'}' ∷ []) ≡ some (w, rest ++ b'}' ∷ []))
      × (content w ≡ content v)
value-tail n s v rest e = value-Same tail tail (λ s. Unit) tail-IsRewriting n s v rest e tt
