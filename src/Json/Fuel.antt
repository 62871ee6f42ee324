-- ===== src/Json/Fuel.antt =====
-- How the fuel of the parser relates to the length of its text.
use xyllo.Base.{
  Bytes, ℕ, zero, suc, ◌+◌, ◌*◌, ◌≤◌, ◌<◌, Option, none, some, [], ◌∷◌, length, ◌≡◌, refl, arith,
  Option-cases, inl, inr,
}
use xyllo.Json.{Value, Items, Fields, nil, cons, end, field}
use xyllo.Json.Numbers.{◌>>=◌, skip_space}
use xyllo.Json.Parse.{
  parse_value, parse_items, parse_fields, Start, literal, quoted, bracket, brace, digits, unknown,
  start, member_key, Behind, more, done, wrong, behind, closed_at_once, between, parse,
  whole_document,
}
use xyllo.Json.Shrink.{Leaves, length-skip_space}
use xyllo.Json.Measure.{behind-more, value-Leaves, member_key-Leaves}

bind-same :
    {A B : Type 0} (n : ℕ) (o o' : Option (A × Bytes)) (f g : A × Bytes → Option (B × Bytes))
    → o ≡ o'
    → Leaves n o'
    → ((a : A) (rest : Bytes) → length rest ≤ n → f (a, rest) ≡ g (a, rest))
    → (o >>= f) ≡ (o' >>= g)
bind-same n o none f g e h k = rw e refl
bind-same n o (some (a, rest)) f g e h k = rw e (k a rest h)

value_at-same :
    (n m c : ℕ) (s : Bytes) (x : Start)
    → start c ≡ x
    → parse_items n s ≡ parse_items m s
    → parse_fields n s ≡ parse_fields m s
    → parse_value (suc n) (c ∷ s) ≡ parse_value (suc m) (c ∷ s)
unfolding parse_value
value_at-same n m c s (literal text v) e items fields = rw (e, parse_value) refl
value_at-same n m c s quoted e items fields = rw (e, parse_value) refl
value_at-same n m c s digits e items fields = rw (e, parse_value) refl
value_at-same n m c s unknown e items fields = rw (e, parse_value) refl
value_at-same n m c s bracket e items fields = elim (Option-cases (closed_at_once b']' s)) [
  | inl k ↦ rw (e, parse_value, k, items) refl
  | inr (rest, k) ↦ rw (e, parse_value, k) refl
]
value_at-same n m c s brace e items fields = elim (Option-cases (closed_at_once b'}' s)) [
  | inl k ↦ rw (e, parse_value, k, fields) refl
  | inr (rest, k) ↦ rw (e, parse_value, k) refl
]

items_behind-same :
    (n m : ℕ) (v : Value) (rest : Bytes) (x : Behind)
    → behind b']' rest ≡ x
    → ((t : Bytes) → length t < length rest → parse_items n t ≡ parse_items m t)
    → (elim x as (λ _. Option (Items × Bytes)) [
      | more rest' ↦ parse_items n rest' >>= λ (vs, last). some (cons v vs, last)
      | done rest' ↦ some (cons v nil, rest')
      | wrong ↦ none
    ])
      ≡ (elim x [
        | more rest' ↦ parse_items m rest' >>= λ (vs, last). some (cons v vs, last)
        | done rest' ↦ some (cons v nil, rest')
        | wrong ↦ none
      ])
items_behind-same n m v rest wrong e items = refl
items_behind-same n m v rest (done r) e items = refl
items_behind-same n m v rest (more r) e items = rw (items r (behind-more b']' rest r e)) refl

fields_behind-same :
    (n m : ℕ) (key : Bytes) (v : Value) (raw rest : Bytes) (x : Behind)
    → behind b'}' rest ≡ x
    → ((t : Bytes) → length t < length rest → parse_fields n t ≡ parse_fields m t)
    → (elim x as (λ _. Option (Fields × Bytes)) [
      | more rest' ↦ parse_fields n rest' >>= λ (fs, last). some (field key v raw fs, last)
      | done rest' ↦ some (field key v raw end, rest')
      | wrong ↦ none
    ])
      ≡ (elim x [
        | more rest' ↦ parse_fields m rest' >>= λ (fs, last). some (field key v raw fs, last)
        | done rest' ↦ some (field key v raw end, rest')
        | wrong ↦ none
      ])
fields_behind-same n m key v raw rest wrong e fields = refl
fields_behind-same n m key v raw rest (done r) e fields = refl
fields_behind-same n m key v raw rest (more r) e fields =
    rw (fields r (behind-more b'}' rest r e)) refl

mutual
  unfolding parse_value parse_items parse_fields

  value-same :
      (n m : ℕ) (s : Bytes) → n ≤ m → 2 * length s + 1 ≤ n → parse_value n s ≡ parse_value m s
  value-same zero m s le b = absurd (omega arith)
  value-same (suc n) zero s le b = absurd (omega arith)
  value-same (suc n) (suc m) [] le b = refl
  value-same (suc n) (suc m) (c ∷ s) le b =
      value_at-same n m c s (start c) refl (items-same n m s (omega arith) (omega arith))
        (fields-same n m s (omega arith) (omega arith))

  items-same :
      (n m : ℕ) (s : Bytes) → n ≤ m → 2 * length s + 2 ≤ n → parse_items n s ≡ parse_items m s
  items-same zero m s le b = absurd (omega arith)
  items-same (suc n) zero s le b = absurd (omega arith)
  items-same (suc n) (suc m) s le b =
      let shorter = length-skip_space s in
      bind-same (length (skip_space s)) (parse_value n (skip_space s))
        (parse_value m (skip_space s)) _ _
        (value-same n m (skip_space s) (omega arith) (omega arith)) (value-Leaves m (skip_space s))
        (λ v rest h.
          items_behind-same n m v rest (behind b']' rest) refl
            (λ t short. items-same n m t (omega arith) (omega arith)))

  fields-same :
      (n m : ℕ) (s : Bytes) → n ≤ m → 2 * length s + 2 ≤ n → parse_fields n s ≡ parse_fields m s
  fields-same zero m s le b = absurd (omega arith)
  fields-same (suc n) zero s le b = absurd (omega arith)
  fields-same (suc n) (suc m) s le b =
      bind-same (length s) (member_key s) (member_key s) _ _ refl (member_key-Leaves s)
        (λ key s₁ h₁.
          let shorter = length-skip_space s₁ in
          bind-same (length (skip_space s₁)) (parse_value n (skip_space s₁))
            (parse_value m (skip_space s₁)) _ _
            (value-same n m (skip_space s₁) (omega arith) (omega arith))
            (value-Leaves m (skip_space s₁))
            (λ v rest h.
              fields_behind-same n m key v (between (skip_space s₁) rest) rest (behind b'}' rest)
                refl (λ t short. fields-same n m t (omega arith) (omega arith))))

-- The parser's fuel suffices: with any fuel from twice the length of the text and two on, it gives
-- the same result.
pub parse-fuel :
    (m : ℕ) (s : Bytes)
    → 2 + length s + length s ≤ m
    → parse s ≡ (parse_value m (skip_space s) >>= whole_document)
unfolding parse
parse-fuel m s le =
    let shorter = length-skip_space s in
    rw (value-same (2 + length s + length s) m (skip_space s) le (omega arith)) refl
