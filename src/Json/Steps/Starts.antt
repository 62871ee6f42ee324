-- ===== src/Json/Steps/Starts.antt =====
-- The readings that a value's reading is made of.
use xyllo.Base.{Bytes, ℕ, suc, Option, none, some, ◌∷◌, ◌≡◌, refl, ap, ◌∙◌}
use xyllo.Json.{Number, Value, num, str, arr, obj, Items, nil, Fields, end}
use xyllo.Json.Numbers.{◌>>=◌, expect, parse_number}
use xyllo.Json.Texts.{unquote}
use xyllo.Json.Parse.{
  parse_value, parse_items, parse_fields, Start, literal, quoted, bracket, brace, digits, unknown,
  start, closed_at_once,
}
use xyllo.Json.Steps.{bind-some, bind-is}

-- What a value is read from, by its first byte.
pub data ValueRead (n c : ℕ) (s : Bytes) (v : Value) (rest : Bytes) : Type 0 where
  reads_literal :
      (text : Bytes) → start c ≡ literal text v → expect text s ≡ some rest → ValueRead n c s v rest
  reads_text :
      (t : Bytes)
      → start c ≡ quoted
      → unquote s ≡ some (t, rest)
      → str t ≡ v
      → ValueRead n c s v rest
  reads_number :
      (k : Number)
      → start c ≡ digits
      → parse_number (c ∷ s) ≡ some (k, rest)
      → num k ≡ v
      → ValueRead n c s v rest
  reads_empty_array :
      start c ≡ bracket → closed_at_once b']' s ≡ some rest → arr nil ≡ v → ValueRead n c s v rest
  reads_array :
      (xs : Items)
      → start c ≡ bracket
      → closed_at_once b']' s ≡ none
      → parse_items n s ≡ some (xs, rest)
      → arr xs ≡ v
      → ValueRead n c s v rest
  reads_empty_object :
      start c ≡ brace → closed_at_once b'}' s ≡ some rest → obj end ≡ v → ValueRead n c s v rest
  reads_object :
      (fs : Fields)
      → start c ≡ brace
      → closed_at_once b'}' s ≡ none
      → parse_fields n s ≡ some (fs, rest)
      → obj fs ≡ v
      → ValueRead n c s v rest

abbrev Is : Value → Bytes → Value → Bytes → Type 0
Is w r v rest = ◌≡◌ {A = Option (Value × Bytes)} (some (w, r)) (some (v, rest))

Is-value : (w : Value) (r : Bytes) (v : Value) (rest : Bytes) → Is w r v rest → w ≡ v
Is-value w r v rest e = cc

Is-rest : (w : Value) (r : Bytes) (v : Value) (rest : Bytes) → Is w r v rest → r ≡ rest
Is-rest w r v rest e = cc

moved :
    {A : Type 0} (o : Option (A × Bytes)) (a : A) (r rest : Bytes)
    → o ≡ some (a, r)
    → r ≡ rest
    → o ≡ some (a, rest)
moved o a r rest e h = cc

array_read :
    (n c : ℕ) (s : Bytes) (v : Value) (rest : Bytes) (o : Option Bytes)
    → start c ≡ bracket
    → closed_at_once b']' s ≡ o
    → (elim o as (λ _. Option (Value × Bytes)) [
      | some r ↦ some (arr nil, r)
      | none ↦ parse_items n s >>= λ (xs, r). some (arr xs, r)
    ])
      ≡ some (v, rest)
    → ValueRead n c s v rest
array_read n c s v rest (some r) k h e =
    reads_empty_array k (h ∙ ap some (Is-rest (arr nil) r v rest e)) (Is-value (arr nil) r v rest e)
array_read n c s v rest none k h e =
    let ((xs, r), items, q) = bind-some (parse_items n s) _ (v, rest) e in
    reads_array xs k h (moved (parse_items n s) xs r rest items (Is-rest (arr xs) r v rest q))
      (Is-value (arr xs) r v rest q)

object_read :
    (n c : ℕ) (s : Bytes) (v : Value) (rest : Bytes) (o : Option Bytes)
    → start c ≡ brace
    → closed_at_once b'}' s ≡ o
    → (elim o as (λ _. Option (Value × Bytes)) [
      | some r ↦ some (obj end, r)
      | none ↦ parse_fields n s >>= λ (fs, r). some (obj fs, r)
    ])
      ≡ some (v, rest)
    → ValueRead n c s v rest
object_read n c s v rest (some r) k h e =
    reads_empty_object k (h ∙ ap some (Is-rest (obj end) r v rest e))
      (Is-value (obj end) r v rest e)
object_read n c s v rest none k h e =
    let ((fs, r), fields, q) = bind-some (parse_fields n s) _ (v, rest) e in
    reads_object fs k h (moved (parse_fields n s) fs r rest fields (Is-rest (obj fs) r v rest q))
      (Is-value (obj fs) r v rest q)

no_value : {A B : Type 0} {a : A} → ◌≡◌ {A = Option A} none (some a) → B
no_value e = absurd cc

value_read :
    (n c : ℕ) (s : Bytes) (v : Value) (rest : Bytes) (x : Start)
    → start c ≡ x
    → parse_value (suc n) (c ∷ s) ≡ some (v, rest)
    → ValueRead n c s v rest
unfolding parse_value
value_read n c s v rest (literal text w) k e =
    let (r, q, same) = bind-some (expect text s) _ (v, rest) (rw (k, parse_value) at e) in
    reads_literal text (k ∙ ap (literal text) (Is-value w r v rest same))
      (q ∙ ap some (Is-rest w r v rest same))
value_read n c s v rest quoted k e =
    let ((t, r), q, same) = bind-some (unquote s) _ (v, rest) (rw (k, parse_value) at e) in
    reads_text t k (moved (unquote s) t r rest q (Is-rest (str t) r v rest same))
      (Is-value (str t) r v rest same)
value_read n c s v rest digits k e =
    let ((m, r), q, same) =
      bind-some (parse_number (c ∷ s)) _ (v, rest) (rw (k, parse_value) at e) in
    reads_number m k (moved (parse_number (c ∷ s)) m r rest q (Is-rest (num m) r v rest same))
      (Is-value (num m) r v rest same)
value_read n c s v rest unknown k e = no_value (rw (k, parse_value) at e)
value_read n c s v rest bracket k e =
    array_read n c s v rest (closed_at_once b']' s) k refl (rw (k, parse_value) at e)
value_read n c s v rest brace k e =
    object_read n c s v rest (closed_at_once b'}' s) k refl (rw (k, parse_value) at e)

pub parse_value-Read :
    (n c : ℕ) (s : Bytes) (v : Value) (rest : Bytes)
    → parse_value (suc n) (c ∷ s) ≡ some (v, rest)
    → ValueRead n c s v rest
parse_value-Read n c s v rest e = value_read n c s v rest (start c) refl e

pub read-parse_value :
    (n c : ℕ) (s : Bytes) (v : Value) (rest : Bytes)
    → ValueRead n c s v rest
    → parse_value (suc n) (c ∷ s) ≡ some (v, rest)
unfolding parse_value
read-parse_value n c s v rest (reads_literal text k e) =
    rw (k, parse_value) (bind-is (expect text s) _ rest _ e refl)
read-parse_value n c s v rest (reads_text t k e same) =
    rw (k, parse_value) (bind-is (unquote s) _ (t, rest) _ e (ap (λ w. some (w, rest)) same))
read-parse_value n c s v rest (reads_number m k e same) =
    rw (k, parse_value)
      (bind-is (parse_number (c ∷ s)) _ (m, rest) _ e (ap (λ w. some (w, rest)) same))
read-parse_value n c s v rest (reads_empty_array k e same) =
    rw (k, parse_value) (rw e (ap (λ w. some (w, rest)) same))
read-parse_value n c s v rest (reads_array xs k e items same) =
    rw (k, parse_value)
      (rw e (bind-is (parse_items n s) _ (xs, rest) _ items (ap (λ w. some (w, rest)) same)))
read-parse_value n c s v rest (reads_empty_object k e same) =
    rw (k, parse_value) (rw e (ap (λ w. some (w, rest)) same))
read-parse_value n c s v rest (reads_object fs k e fields same) =
    rw (k, parse_value)
      (rw e (bind-is (parse_fields n s) _ (fs, rest) _ fields (ap (λ w. some (w, rest)) same)))
