-- ===== src/Json/Steps.antt =====
-- The readings that the reading of an array's or an object's members is made of.
pub mod Starts
pub mod Keys
use xyllo.Base.{
  Bytes, ℕ, suc, Option, none, some, [], ◌∷◌, ◌≡◌, ◌⊎◌, refl, sym, ap, ◌∙◌, Option-cases, inl, inr,
}
use xyllo.Json.{Value, arr, obj, Items, nil, cons, Fields, end, field}
use xyllo.Json.Numbers.{◌>>=◌, skip_space}
use xyllo.Json.Parse.{
  parse_value, parse_items, parse_fields, member_key, Behind, more, done, wrong, behind, between,
}

pub bind-some {ℓ κ} :
    {A : Type ℓ} {B : Type κ} (o : Option A) (f : A → Option B) (b : B)
    → (o >>= f) ≡ some b
    → (a : A) × (o ≡ some a) × (f a ≡ some b)
bind-some none f b e = absurd cc
bind-some (some a) f b e = (a, refl, e)

the_end :
    {A : Type 0} {a b : A} {t last : Bytes}
    → ◌≡◌ {A = Option (A × Bytes)} (some (a, t)) (some (b, last))
    → t ≡ last
the_end e = cc

pub bind-is {ℓ κ} :
    {A : Type ℓ} {B : Type κ} (o : Option A) (f : A → Option B) (a : A) (q : Option B)
    → o ≡ some a
    → f a ≡ q
    → (o >>= f) ≡ q
bind-is o f a q e h = rw e h

-- The last item, or one with more items behind it.
pub data ItemsRead (n : ℕ) (s : Bytes) (vs : Items) (last : Bytes) : Type 0 where
  more_items :
      (v : Value) (r t : Bytes) (vs' : Items)
      → parse_value n (skip_space s) ≡ some (v, r)
      → behind b']' r ≡ more t
      → parse_items n t ≡ some (vs', last)
      → cons v vs' ≡ vs
      → ItemsRead n s vs last
  last_item :
      (v : Value) (r : Bytes)
      → parse_value n (skip_space s) ≡ some (v, r)
      → behind b']' r ≡ done last
      → cons v nil ≡ vs
      → ItemsRead n s vs last

more_cons :
    (v : Value) (o : Option (Items × Bytes)) (vs : Items) (last : Bytes)
    → ◌≡◌ {A = Option (Items × Bytes)} (o >>= λ (ws, r). some (cons v ws, r)) (some (vs, last))
    → (ws : Items) × (o ≡ some (ws, last)) × (cons v ws ≡ vs)
more_cons v none vs last e = absurd cc
more_cons v (some (ws, r)) vs last e = (ws, cc, cc)

items_behind :
    (n : ℕ) (s : Bytes) (vs : Items) (last : Bytes) (v : Value) (r : Bytes) (x : Behind)
    → parse_value n (skip_space s) ≡ some (v, r)
    → behind b']' r ≡ x
    → (elim x as (λ _. Option (Items × Bytes)) [
      | more t ↦ parse_items n t >>= λ (ws, end'). some (cons v ws, end')
      | done t ↦ some (cons v nil, t)
      | wrong ↦ none
    ])
      ≡ some (vs, last)
    → ItemsRead n s vs last
items_behind n s vs last v r wrong e b q = absurd cc
items_behind n s vs last v r (done t) e b q = last_item v r e (b ∙ ap done (the_end q)) cc
items_behind n s vs last v r (more t) e b q =
    let (ws, o, same) = more_cons v (parse_items n t) vs last q in more_items v r t ws e b o same

pub parse_items-Read :
    (n : ℕ) (s : Bytes) (vs : Items) (last : Bytes)
    → parse_items (suc n) s ≡ some (vs, last)
    → ItemsRead n s vs last
unfolding parse_items
parse_items-Read n s vs last e =
    let ((v, r), value, rest) = bind-some (parse_value n (skip_space s)) _ (vs, last) e in
    items_behind n s vs last v r (behind b']' r) value refl rest

pub read-parse_items :
    (n : ℕ) (s : Bytes) (vs : Items) (last : Bytes)
    → ItemsRead n s vs last
    → parse_items (suc n) s ≡ some (vs, last)
unfolding parse_items
read-parse_items n s vs last (more_items v r t ws e b o same) =
    bind-is (parse_value n (skip_space s)) _ (v, r) _ e (rw b (rw (o, same) refl))
read-parse_items n s vs last (last_item v r e b same) =
    bind-is (parse_value n (skip_space s)) _ (v, r) _ e (rw b (rw same refl))

-- The last member, or one with more members behind it.
pub data FieldsRead (n : ℕ) (s : Bytes) (fs : Fields) (last : Bytes) : Type 0 where
  more_fields :
      (key : Bytes) (v : Value) (s₁ r t : Bytes) (fs' : Fields)
      → member_key s ≡ some (key, s₁)
      → parse_value n (skip_space s₁) ≡ some (v, r)
      → behind b'}' r ≡ more t
      → parse_fields n t ≡ some (fs', last)
      → field key v (between (skip_space s₁) r) fs' ≡ fs
      → FieldsRead n s fs last
  last_field :
      (key : Bytes) (v : Value) (s₁ r : Bytes)
      → member_key s ≡ some (key, s₁)
      → parse_value n (skip_space s₁) ≡ some (v, r)
      → behind b'}' r ≡ done last
      → field key v (between (skip_space s₁) r) end ≡ fs
      → FieldsRead n s fs last

more_field :
    (key : Bytes) (v : Value) (raw : Bytes) (o : Option (Fields × Bytes)) (fs : Fields)
    (last : Bytes)
    → ◌≡◌ {A = Option (Fields × Bytes)}
        (o >>= λ (gs, r). some (field key v raw gs, r))
        (some (fs, last))
    → (gs : Fields) × (o ≡ some (gs, last)) × (field key v raw gs ≡ fs)
more_field key v raw none fs last e = absurd cc
more_field key v raw (some (gs, r)) fs last e = (gs, cc, cc)

fields_behind :
    (n : ℕ) (s : Bytes) (fs : Fields) (last key s₁ : Bytes) (v : Value) (r : Bytes) (x : Behind)
    → member_key s ≡ some (key, s₁)
    → parse_value n (skip_space s₁) ≡ some (v, r)
    → behind b'}' r ≡ x
    → (elim x as (λ _. Option (Fields × Bytes)) [
      | more t ↦
          parse_fields n t >>= λ (gs, end'). some (field key v (between (skip_space s₁) r) gs, end')
      | done t ↦ some (field key v (between (skip_space s₁) r) end, t)
      | wrong ↦ none
    ])
      ≡ some (fs, last)
    → FieldsRead n s fs last
fields_behind n s fs last key s₁ v r wrong k e b q = absurd cc
fields_behind n s fs last key s₁ v r (done t) k e b q =
    last_field key v s₁ r k e (b ∙ ap done (the_end q)) cc
fields_behind n s fs last key s₁ v r (more t) k e b q =
    let (gs, o, same) = more_field key v (between (skip_space s₁) r) (parse_fields n t) fs last q in
    more_fields key v s₁ r t gs k e b o same

pub parse_fields-Read :
    (n : ℕ) (s : Bytes) (fs : Fields) (last : Bytes)
    → parse_fields (suc n) s ≡ some (fs, last)
    → FieldsRead n s fs last
unfolding parse_fields
parse_fields-Read n s fs last e =
    let ((key, s₁), k, e₁) = bind-some (member_key s) _ (fs, last) e in
    let ((v, r), value, rest) = bind-some (parse_value n (skip_space s₁)) _ (fs, last) e₁ in
    fields_behind n s fs last key s₁ v r (behind b'}' r) k value refl rest

pub read-parse_fields :
    (n : ℕ) (s : Bytes) (fs : Fields) (last : Bytes)
    → FieldsRead n s fs last
    → parse_fields (suc n) s ≡ some (fs, last)
unfolding parse_fields
read-parse_fields n s fs last (more_fields key v s₁ r t gs k e b o same) =
    bind-is (member_key s) _ (key, s₁) _ k
      (bind-is (parse_value n (skip_space s₁)) _ (v, r) _ e (rw b (rw (o, same) refl)))
read-parse_fields n s fs last (last_field key v s₁ r k e b same) =
    bind-is (member_key s) _ (key, s₁) _ k
      (bind-is (parse_value n (skip_space s₁)) _ (v, r) _ e (rw b (rw same refl)))
