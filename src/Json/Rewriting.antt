-- ===== src/Json/Rewriting.antt =====
-- Ways to rewrite a text that leave the value that is read from it: the laws that the rewriting obeys
-- at the tokens, and that it then obeys at whole values.
use xyllo.Base.{
  Bytes, ℕ, zero, suc, none, some, [], ◌∷◌, ◌≡◌, ◌⊎◌, refl, sym, ap, ◌∙◌, inl, inr, All,
}
use xyllo.Json.{Number, Value, null, bool, num, str, arr, obj, Items, nil, cons, Fields, end, field}
use xyllo.Json.Numbers.{skip_space, expect, parse_number}
use xyllo.Json.Texts.{unquote}
use xyllo.Json.Parse.{
  parse_value, parse_items, parse_fields, digits, start, member_key, more, done, behind,
  closed_at_once, between,
}
use xyllo.Json.Steps.{
  ItemsRead, more_items, last_item, FieldsRead, more_fields, last_field, parse_items-Read,
  read-parse_items, parse_fields-Read, read-parse_fields,
}
use xyllo.Json.Steps.Starts.{
  ValueRead, reads_literal, reads_text, reads_number, reads_empty_array, reads_array,
  reads_empty_object, reads_object, parse_value-Read, read-parse_value,
}
use xyllo.Json.Kept.{IsKept, start-literal, start-quoted, start-digits, start-bracket, start-brace}

unfoldable mutual
  -- A value without the bytes that stand with the members of its objects.
  pub content : Value → Value
  content null = null
  content (bool b) = bool b
  content (num n) = num n
  content (str s) = str s
  content (arr vs) = arr (contents vs)
  content (obj fs) = obj (member_contents fs)

  pub contents : Items → Items
  contents nil = nil
  contents (cons v vs) = cons (content v) (contents vs)

  pub member_contents : Fields → Fields
  member_contents end = end
  member_contents (field key v raw fs) = field key (content v) [] (member_contents fs)

-- What a rewriting `f` does to the tokens; `g` is what it does inside of a string. A number is kept in
-- front of what `Stops` allows.
pub record IsRewriting (f g : Bytes → Bytes) (Stops : Bytes → Type 0) : Type 0 where
  pub spaces : (s : Bytes) → skip_space (f s) ≡ f (skip_space s)
  pub kept_byte : (c : ℕ) (s : Bytes) → IsKept c → f (c ∷ s) ≡ c ∷ f s
  pub quote_byte : (s : Bytes) → f (34 ∷ s) ≡ 34 ∷ g s
  pub literal_text :
      (p s rest : Bytes) → All IsKept p → expect p s ≡ some rest → expect p (f s) ≡ some (f rest)
  pub string_text :
      (s t rest : Bytes) → unquote s ≡ some (t, rest) → unquote (g s) ≡ some (t, f rest)
  pub number_text :
      (c : ℕ) (s : Bytes) (k : Number) (rest : Bytes)
      → start c ≡ digits
      → parse_number (c ∷ s) ≡ some (k, rest)
      → Stops rest
      → parse_number (c ∷ f s) ≡ some (k, f rest)
  pub empty_array :
      (s rest : Bytes)
      → closed_at_once b']' s ≡ some rest
      → closed_at_once b']' (f s) ≡ some (f rest)
  pub empty_object :
      (s rest : Bytes)
      → closed_at_once b'}' s ≡ some rest
      → closed_at_once b'}' (f s) ≡ some (f rest)
  pub open_array : (s : Bytes) → closed_at_once b']' s ≡ none → closed_at_once b']' (f s) ≡ none
  pub open_object :
      (s key rest : Bytes)
      → member_key s ≡ some (key, rest)
      → closed_at_once b'}' s ≡ none
      → closed_at_once b'}' (f s) ≡ none
  pub member_name :
      (s key rest : Bytes) → member_key s ≡ some (key, rest) → member_key (f s) ≡ some (key, f rest)
  pub more_behind :
      (close : ℕ) (s t : Bytes)
      → (close ≡ b']') ⊎ (close ≡ b'}')
      → behind close s ≡ more t
      → (behind close (f s) ≡ more (f t)) × Stops s
  pub done_behind :
      (close : ℕ) (s t : Bytes)
      → (close ≡ b']') ⊎ (close ≡ b'}')
      → behind close s ≡ done t
      → (behind close (f s) ≡ done (f t)) × Stops s

key_read :
    (n : ℕ) (s : Bytes) (fs : Fields) (last : Bytes)
    → FieldsRead n s fs last
    → (key : Bytes) × (rest : Bytes) × (member_key s ≡ some (key, rest))
key_read n s fs last (more_fields key v s₁ r t fs' k e b o same) = (key, s₁, k)
key_read n s fs last (last_field key v s₁ r k e b same) = (key, s₁, k)

first_key :
    (n : ℕ) (s : Bytes) (fs : Fields) (last : Bytes)
    → parse_fields n s ≡ some (fs, last)
    → (key : Bytes) × (rest : Bytes) × (member_key s ≡ some (key, rest))
unfolding parse_fields
first_key zero s fs last e = absurd cc
first_key (suc n) s fs last e = key_read n s fs last (parse_fields-Read n s fs last e)

module _ (f g : Bytes → Bytes) (Stops : Bytes → Type 0) (law : IsRewriting f g Stops) where
  -- What a text and its compaction are read as.
  abbrev SameValue : ℕ → Bytes → Value → Bytes → Type 0
  SameValue n s v rest =
      (w : Value) × (parse_value n s ≡ some (w, f rest)) × (content w ≡ content v)

  abbrev SameItems : ℕ → Bytes → Items → Bytes → Type 0
  SameItems n s vs rest =
      (ws : Items) × (parse_items n s ≡ some (ws, f rest)) × (contents ws ≡ contents vs)

  abbrev SameFields : ℕ → Bytes → Fields → Bytes → Type 0
  SameFields n s fs rest =
      (gs : Fields) × (parse_fields n s ≡ some (gs, f rest))
      × (member_contents gs ≡ member_contents fs)

  read-Same :
      (n c : ℕ) (s : Bytes) (w v : Value) (rest : Bytes)
      → f (c ∷ s) ≡ c ∷ f s
      → ValueRead n c (f s) w (f rest)
      → content w ≡ content v
      → SameValue (suc n) (f (c ∷ s)) v rest
  read-Same n c s w v rest e read same =
      (w, ap (parse_value (suc n)) e ∙ read-parse_value n c (f s) w (f rest) read, same)

  ValueRead-Same :
      (n c : ℕ) (s : Bytes) (v : Value) (rest : Bytes)
      → ValueRead n c s v rest
      → Stops rest
      → ((vs : Items) (last : Bytes)
          → parse_items n s ≡ some (vs, last)
          → SameItems n (f s) vs last)
      → ((fs : Fields) (last : Bytes)
          → parse_fields n s ≡ some (fs, last)
          → SameFields n (f s) fs last)
      → SameValue (suc n) (f (c ∷ s)) v rest
  unfolding content
  ValueRead-Same n c s v rest (reads_literal text k e) stops items fields =
      let (kept, all) = start-literal c text v k in
      read-Same n c s v v rest (law.kept_byte c s kept)
        (reads_literal text k (law.literal_text text s rest all e)) refl
  ValueRead-Same n c s v rest (reads_text t k e same) stops items fields =
      let quote_byte = start-quoted c k in
      (
        v,
        ap (parse_value (suc n)) (ap (λ x. f (x ∷ s)) quote_byte ∙ law.quote_byte s)
            ∙ read-parse_value n 34 (g s) v (f rest)
                (reads_text t (ap start (sym quote_byte) ∙ k) (law.string_text s t rest e) same),
        refl,
      )
  ValueRead-Same n c s v rest (reads_number m k e same) stops items fields =
      read-Same n c s v v rest (law.kept_byte c s (start-digits c k))
        (reads_number m k (law.number_text c s m rest k e stops) same) refl
  ValueRead-Same n c s v rest (reads_empty_array k e same) stops items fields =
      read-Same n c s v v rest (law.kept_byte c s (start-bracket c k))
        (reads_empty_array k (law.empty_array s rest e) same) refl
  ValueRead-Same n c s v rest (reads_array xs k e read same) stops items fields =
      let (ws, read', alike) = items xs rest read in
      read-Same n c s (arr ws) v rest (law.kept_byte c s (start-bracket c k))
        (reads_array ws k (law.open_array s e) read' refl) (ap arr alike ∙ ap content same)
  ValueRead-Same n c s v rest (reads_empty_object k e same) stops items fields =
      read-Same n c s v v rest (law.kept_byte c s (start-brace c k))
        (reads_empty_object k (law.empty_object s rest e) same) refl
  ValueRead-Same n c s v rest (reads_object fs k e read same) stops items fields =
      let (gs, read', alike) = fields fs rest read in
      let (key, s₁, named) = first_key n s fs rest read in
      read-Same n c s (obj gs) v rest (law.kept_byte c s (start-brace c k))
        (reads_object gs k (law.open_object s key s₁ named e) read' refl)
        (ap obj alike ∙ ap content same)

  ItemsRead-Same :
      (n : ℕ) (s : Bytes) (vs : Items) (last : Bytes)
      → ItemsRead n s vs last
      → ((t : Bytes) (v : Value) (rest : Bytes)
          → parse_value n t ≡ some (v, rest)
          → Stops rest
          → SameValue n (f t) v rest)
      → ((t : Bytes) (ws : Items) (rest : Bytes)
          → parse_items n t ≡ some (ws, rest)
          → SameItems n (f t) ws rest)
      → SameItems (suc n) (f s) vs last
  unfolding contents
  ItemsRead-Same n s vs last (more_items v r t vs' e b o same) value items =
      let (b', stops) = law.more_behind b']' r t (inl refl) b in
      let (w, e', alike) = value (skip_space s) v r e stops in
      let (ws, o', alikes) = items t vs' last o in
      (
        cons w ws,
        read-parse_items n (f s) (cons w ws) (f last)
            (more_items w (f r) (f t) ws (ap (parse_value n) (law.spaces s) ∙ e') b' o' refl),
        ap (λ x. cons x (contents ws)) alike ∙ ap (cons (content v)) alikes ∙ ap contents same,
      )
  ItemsRead-Same n s vs last (last_item v r e b same) value items =
      let (b', stops) = law.done_behind b']' r last (inl refl) b in
      let (w, e', alike) = value (skip_space s) v r e stops in
      (
        cons w nil,
        read-parse_items n (f s) (cons w nil) (f last)
            (last_item w (f r) (ap (parse_value n) (law.spaces s) ∙ e') b' refl),
        ap (λ x. cons x nil) alike ∙ ap contents same,
      )

  FieldsRead-Same :
      (n : ℕ) (s : Bytes) (fs : Fields) (last : Bytes)
      → FieldsRead n s fs last
      → ((t : Bytes) (v : Value) (rest : Bytes)
          → parse_value n t ≡ some (v, rest)
          → Stops rest
          → SameValue n (f t) v rest)
      → ((t : Bytes) (gs : Fields) (rest : Bytes)
          → parse_fields n t ≡ some (gs, rest)
          → SameFields n (f t) gs rest)
      → SameFields (suc n) (f s) fs last
  unfolding member_contents
  FieldsRead-Same n s fs last (more_fields key v s₁ r t fs' k e b o same) value fields =
      let (b', stops) = law.more_behind b'}' r t (inr refl) b in
      let (w, e', alike) = value (skip_space s₁) v r e stops in
      let (gs, o', alikes) = fields t fs' last o in
      let raw = between (skip_space (f s₁)) (f r) in
      (
        field key w raw gs,
        read-parse_fields n (f s) (field key w raw gs) (f last) (
            more_fields key w (f s₁) (f r) (f t) gs (law.member_name s key s₁ k)
              (ap (parse_value n) (law.spaces s₁) ∙ e') b' o' refl),
        ap (λ x. field key x [] (member_contents gs)) alike
            ∙ ap (field key (content v) []) alikes
            ∙ ap member_contents same,
      )
  FieldsRead-Same n s fs last (last_field key v s₁ r k e b same) value fields =
      let (b', stops) = law.done_behind b'}' r last (inr refl) b in
      let (w, e', alike) = value (skip_space s₁) v r e stops in
      let raw = between (skip_space (f s₁)) (f r) in
      (
        field key w raw end,
        read-parse_fields n (f s) (field key w raw end) (f last) (
            last_field key w (f s₁) (f r) (law.member_name s key s₁ k)
              (ap (parse_value n) (law.spaces s₁) ∙ e') b' refl),
        ap (λ x. field key x [] end) alike ∙ ap member_contents same,
      )

  mutual
    unfolding parse_value parse_items parse_fields

    pub value-Same :
        (n : ℕ) (s : Bytes) (v : Value) (rest : Bytes)
        → parse_value n s ≡ some (v, rest)
        → Stops rest
        → SameValue n (f s) v rest
    value-Same zero s v rest e stops = absurd cc
    value-Same (suc n) [] v rest e stops = absurd cc
    value-Same (suc n) (c ∷ s) v rest e stops =
        ValueRead-Same n c s v rest (parse_value-Read n c s v rest e) stops (items-Same n s)
          (fields-Same n s)

    items-Same :
        (n : ℕ) (s : Bytes) (vs : Items) (last : Bytes)
        → parse_items n s ≡ some (vs, last)
        → SameItems n (f s) vs last
    items-Same zero s vs last e = absurd cc
    items-Same (suc n) s vs last e =
        ItemsRead-Same n s vs last (parse_items-Read n s vs last e) (value-Same n) (items-Same n)

    fields-Same :
        (n : ℕ) (s : Bytes) (fs : Fields) (last : Bytes)
        → parse_fields n s ≡ some (fs, last)
        → SameFields n (f s) fs last
    fields-Same zero s fs last e = absurd cc
    fields-Same (suc n) s fs last e =
        FieldsRead-Same n s fs last (parse_fields-Read n s fs last e) (value-Same n) (fields-Same n)
