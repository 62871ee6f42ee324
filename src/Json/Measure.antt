-- ===== src/Json/Measure.antt =====
-- Lengths: what the parser leaves of a text, whatever its fuel.
use xyllo.Base.{
  Bytes, ℕ, zero, suc, ◌≤◌, ◌<◌, none, some, [], ◌∷◌, length, ◌≡◌, refl, arith, Option-cases, inl,
  inr, codes, subst,
}
use xyllo.Json.{Value, nil, cons, end, field}
use xyllo.Json.Numbers.{◌>>=◌, skip_space, expect, parse_number}
use xyllo.Json.Texts.{unquote}
use xyllo.Json.Parse.{
  parse_value, parse_items, parse_fields, Start, literal, quoted, bracket, brace, digits, unknown,
  start, member_key, Behind, more, done, wrong, behind, behind_of, closed_at_once, between,
}
use xyllo.Json.Shrink.{
  Leaves, Rests, bind-Leaves, bind_rest-Leaves, length-skip_space, expect-Rests, unquote-Leaves,
  parse_number-Leaves,
}

behind_of-more :
    (close : ℕ) (t s r : Bytes)
    → length t ≤ length s
    → behind_of close t ≡ more r
    → length r < length s
unfolding behind_of
behind_of-more close [] s r le h = absurd cc
behind_of-more close (c ∷ t) s r le h = ground arith

behind_of-done :
    (close : ℕ) (t s r : Bytes)
    → length t ≤ length s
    → behind_of close t ≡ done r
    → length r < length s
unfolding behind_of
behind_of-done close [] s r le h = absurd cc
behind_of-done close (c ∷ t) s r le h = ground arith

behind-done : (close : ℕ) (s r : Bytes) → behind close s ≡ done r → length r < length s
unfolding behind
behind-done close s r h = behind_of-done close (skip_space s) s r (length-skip_space s) h

pub behind-more : (close : ℕ) (s r : Bytes) → behind close s ≡ more r → length r < length s
unfolding behind
behind-more close s r h = behind_of-more close (skip_space s) s r (length-skip_space s) h

closed-Rests : (close : ℕ) (s : Bytes) → Rests (length s) (closed_at_once close s)
unfolding closed_at_once
closed-Rests close s =
    expect-Rests (close ∷ []) (skip_space s) (length s)
      (let shorter = length-skip_space s in omega arith)

pub member_key-Leaves : (s : Bytes) → Leaves (length s) (member_key s)
unfolding member_key
member_key-Leaves s =
    bind_rest-Leaves (length s) (length s) (expect (34 ∷ []) (skip_space s)) _
      (expect-Rests (34 ∷ []) (skip_space s) (length s)
        (let shorter = length-skip_space s in omega arith))
      (λ s₁ h₁. bind-Leaves (length s₁) (length s) (unquote s₁) _ (unquote-Leaves s₁) (λ key s₂ h₂.
        bind_rest-Leaves (length s₂) (length s) (expect (codes ":") (skip_space s₂)) _
          (expect-Rests (codes ":") (skip_space s₂) (length s₂)
            (let shorter = length-skip_space s₂ in omega arith))
          (λ s₃ h₃. omega arith)))

value_at-Leaves :
    (n c : ℕ) (s : Bytes) (x : Start)
    → start c ≡ x
    → ((t : Bytes) → Leaves (length t) (parse_items n t))
    → ((t : Bytes) → Leaves (length t) (parse_fields n t))
    → Leaves (suc (length s)) (parse_value (suc n) (c ∷ s))
unfolding parse_value
value_at-Leaves n c s (literal text v) e items fields =
    rw (e, Leaves)
      (bind_rest-Leaves (length s) (suc (length s)) (expect text s) _
        (expect-Rests text s (length s) (omega arith)) (λ rest h. omega arith))
value_at-Leaves n c s quoted e items fields =
    rw (e, Leaves)
      (bind-Leaves (length s) (suc (length s)) (unquote s) _ (unquote-Leaves s)
        (λ text rest h. omega arith))
value_at-Leaves n c s digits e items fields =
    rw (e, Leaves)
      (bind-Leaves (suc (length s)) (suc (length s)) (parse_number (c ∷ s)) _
        (parse_number-Leaves (c ∷ s)) (λ k rest h. h))
value_at-Leaves n c s unknown e items fields = rw (e, Leaves) tt
value_at-Leaves n c s bracket e items fields = elim (Option-cases (closed_at_once b']' s)) [
  | inl k ↦
      rw (e, k, Leaves)
        (bind-Leaves (length s) (suc (length s)) (parse_items n s) _ (items s)
          (λ vs rest h. omega arith))
  | inr (rest, k) ↦
      let short = subst (Rests (length s)) k (closed-Rests b']' s) in
      rw (e, k, Leaves) (omega arith)
]
value_at-Leaves n c s brace e items fields = elim (Option-cases (closed_at_once b'}' s)) [
  | inl k ↦
      rw (e, k, Leaves)
        (bind-Leaves (length s) (suc (length s)) (parse_fields n s) _ (fields s)
          (λ vs rest h. omega arith))
  | inr (rest, k) ↦
      let short = subst (Rests (length s)) k (closed-Rests b'}' s) in
      rw (e, k, Leaves) (omega arith)
]

items_behind-Leaves :
    (n : ℕ) (v : Value) (rest : Bytes) (k : ℕ) (x : Behind)
    → behind b']' rest ≡ x
    → length rest ≤ k
    → ((t : Bytes) → Leaves (length t) (parse_items n t))
    → Leaves k (elim x [
      | more rest' ↦ parse_items n rest' >>= λ (vs, last). some (cons v vs, last)
      | done rest' ↦ some (cons v nil, rest')
      | wrong ↦ none
    ])
items_behind-Leaves n v rest k wrong e le items = tt
items_behind-Leaves n v rest k (done r) e le items =
    let shorter = behind-done b']' rest r e in omega arith
items_behind-Leaves n v rest k (more r) e le items =
    let shorter = behind-more b']' rest r e in
    bind-Leaves (length r) k (parse_items n r) _ (items r) (λ vs last h. omega arith)

fields_behind-Leaves :
    (n : ℕ) (key : Bytes) (v : Value) (raw rest : Bytes) (k : ℕ) (x : Behind)
    → behind b'}' rest ≡ x
    → length rest ≤ k
    → ((t : Bytes) → Leaves (length t) (parse_fields n t))
    → Leaves k (elim x [
      | more rest' ↦ parse_fields n rest' >>= λ (fs, last). some (field key v raw fs, last)
      | done rest' ↦ some (field key v raw end, rest')
      | wrong ↦ none
    ])
fields_behind-Leaves n key v raw rest k wrong e le fields = tt
fields_behind-Leaves n key v raw rest k (done r) e le fields =
    let shorter = behind-done b'}' rest r e in omega arith
fields_behind-Leaves n key v raw rest k (more r) e le fields =
    let shorter = behind-more b'}' rest r e in
    bind-Leaves (length r) k (parse_fields n r) _ (fields r) (λ fs last h. omega arith)

mutual
  unfolding parse_value parse_items parse_fields

  pub value-Leaves : (n : ℕ) (s : Bytes) → Leaves (length s) (parse_value n s)
  value-Leaves zero s = tt
  value-Leaves (suc n) [] = tt
  value-Leaves (suc n) (c ∷ s) =
      value_at-Leaves n c s (start c) refl (items-Leaves n) (fields-Leaves n)

  items-Leaves : (n : ℕ) (s : Bytes) → Leaves (length s) (parse_items n s)
  items-Leaves zero s = tt
  items-Leaves (suc n) s =
      let shorter = length-skip_space s in
      bind-Leaves (length (skip_space s)) (length s) (parse_value n (skip_space s)) _
        (value-Leaves n (skip_space s))
        (λ v rest h.
          items_behind-Leaves n v rest (length s) (behind b']' rest) refl (omega arith)
            (items-Leaves n))

  fields-Leaves : (n : ℕ) (s : Bytes) → Leaves (length s) (parse_fields n s)
  fields-Leaves zero s = tt
  fields-Leaves (suc n) s =
      bind-Leaves (length s) (length s) (member_key s) _ (member_key-Leaves s) (λ key s₁ h₁.
        let shorter = length-skip_space s₁ in
        bind-Leaves (length (skip_space s₁)) (length s) (parse_value n (skip_space s₁)) _
          (value-Leaves n (skip_space s₁))
          (λ v rest h.
            fields_behind-Leaves n key v (between (skip_space s₁) rest) rest (length s)
              (behind b'}' rest) refl (omega arith) (fields-Leaves n)))
