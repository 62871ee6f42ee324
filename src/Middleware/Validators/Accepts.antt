-- ===== src/Middleware/Validators/Accepts.antt =====
-- The payloads that the two validating handlers let through.
use xyllo.Base.{
  Bytes, codes, true, false, ==_iff, Option, none, some, [], ◌∷◌, Assoc, bytes_eq, lookup, ◌≡◌, ◌≢◌,
  ◌↔◌, ◌⊎◌, subst, refl, arith, Bool-cases, inl, inr,
}
use xyllo.Xlerr.{Error}
use xyllo.Json.{Number, Value, null, bool, num, str, arr, obj, float_zero}
use xyllo.Json.Objects.{decode_object}
use xyllo.Middleware.{Result, World, passed, failed, Handler, new_chain, run, run_handlers}
use xyllo.Middleware.Order.{run_handlers-cons}
use xyllo.Middleware.Validators.{
  schema_field, string_field, number_field, check_fields, type_check, first_error, verdict_of,
  schema_error, checked_type, schema_validator, type_checker, validators, required,
}

-- A string that is not empty, and a number that is not zero.
abbrev pub IsText : Option Value → Type 0
IsText o = (s : Bytes) × (o ≡ some (str s)) × (s ≢ [])

abbrev pub IsTime : Option Value → Type 0
IsTime o = (n : Number) × (o ≡ some (num n)) × (float_zero n ≡ false)

schema_field-IsText :
    (key : Bytes) (o : Option Value)
    → ((schema_field key o ≡ none) × (string_field key o ≡ none)) ↔ IsText o
unfolding schema_field string_field
schema_field-IsText key none = ground arith
schema_field-IsText key (some null) = ground arith
schema_field-IsText key (some (bool b)) = ground arith
schema_field-IsText key (some (num n)) = ground arith
schema_field-IsText key (some (str s)) = ground (arith, ==_iff s [])
schema_field-IsText key (some (arr vs)) = ground arith
schema_field-IsText key (some (obj fs)) = ground arith

schema_field-zero :
    (key : Bytes) (n : Number) → float_zero n ≡ true → schema_field key (some (num n)) ≢ none
unfolding schema_field
schema_field-zero key n z = rw z (ground arith)

schema_field-number :
    (key : Bytes) (n : Number) → float_zero n ≡ false → schema_field key (some (num n)) ≡ none
unfolding schema_field
schema_field-number key n z = rw z refl

nonzero : (n : Number) → IsTime (some (num n)) → float_zero n ≢ true
nonzero n (k, e, z) = cc

schema_field-IsTime :
    (key : Bytes) (o : Option Value)
    → ((schema_field key o ≡ none) × (number_field key o ≡ none)) ↔ IsTime o
unfolding schema_field number_field
schema_field-IsTime key none = ground arith
schema_field-IsTime key (some null) = ground arith
schema_field-IsTime key (some (bool b)) = ground arith
schema_field-IsTime key (some (num n)) = elim (Bool-cases (float_zero n)) [
  | inl z ↦ (λ q. absurd (schema_field-zero key n z q.0), λ t. absurd (nonzero n t z))
  | inr nz ↦ (λ q. (n, refl, nz), λ t. (schema_field-number key n nz, refl))
]
schema_field-IsTime key (some (str s)) = ground arith
schema_field-IsTime key (some (arr vs)) = ground arith
schema_field-IsTime key (some (obj fs)) = ground arith

-- A decoded event with all its fields.
abbrev pub IsComplete : Assoc Bytes Value → Type 0
IsComplete m =
    IsText (lookup (codes "id") m)
    × IsText (lookup (codes "source") m)
    × IsText (lookup (codes "event_type") m)
    × IsTime (lookup (codes "timestamp_ms") m)

-- What the two handlers want of a payload.
abbrev pub IsCanonical : Bytes → Type 0
IsCanonical payload = (m : Assoc Bytes Value) × (decode_object payload ≡ some m) × IsComplete m

verdict-passed_iff : (o : Option Error) → (verdict_of o ≡ passed) ↔ (o ≡ none)
verdict-passed_iff none = ground arith
verdict-passed_iff (some err) = ground arith

first_error_iff : (a b : Option Error) → (first_error a b ≡ none) ↔ ((a ≡ none) × (b ≡ none))
first_error_iff none b = ground arith
first_error_iff (some err) b = ground arith

by_field :
    {P Q R T : Type 0} {a b c d a' b' c' d' : Option Error}
    → (((a ≡ none) × (a' ≡ none)) ↔ P)
    → (((b ≡ none) × (b' ≡ none)) ↔ Q)
    → (((c ≡ none) × (c' ≡ none)) ↔ R)
    → (((d ≡ none) × (d' ≡ none)) ↔ T)
    → ((first_error a (first_error b (first_error c (first_error d none))) ≡ none)
        × (first_error (first_error a' (first_error b' (first_error c' none))) d' ≡ none))
      ↔ (P × Q × R × T)
by_field {a = a} {b} {c} {d} {a'} {b'} {c'} {d'} p q s t = ground (
  arith,
  first_error_iff a (first_error b (first_error c (first_error d none))),
  first_error_iff b (first_error c (first_error d none)),
  first_error_iff c (first_error d none),
  first_error_iff d none,
  first_error_iff (first_error a' (first_error b' (first_error c' none))) d',
  first_error_iff a' (first_error b' (first_error c' none)),
  first_error_iff b' (first_error c' none),
  first_error_iff c' none,
)

-- The two handlers' loops find no error on a decoded payload.
check_fields-IsComplete :
    (m : Assoc Bytes Value)
    → ((check_fields schema_field m required ≡ none) × (type_check m ≡ none)) ↔ IsComplete m
unfolding check_fields type_check
check_fields-IsComplete m =
    by_field (schema_field-IsText (codes "id") (lookup (codes "id") m))
      (schema_field-IsText (codes "source") (lookup (codes "source") m))
      (schema_field-IsText (codes "event_type") (lookup (codes "event_type") m))
      (schema_field-IsTime (codes "timestamp_ms") (lookup (codes "timestamp_ms") m))

some-none : {e : Error} → some e ≢ none
some-none p = cc

decoded-none :
    (payload : Bytes) (m : Assoc Bytes Value)
    → decode_object payload ≡ none
    → decode_object payload ≢ some m
decoded-none payload m e d = cc

some_inj :
    (k m : Assoc Bytes Value) (payload : Bytes)
    → decode_object payload ≡ some k
    → decode_object payload ≡ some m
    → k ≡ m
some_inj k m payload d e = cc

by_document :
    (errs errt : Error) (payload : Bytes) (o : Option (Assoc Bytes Value))
    → decode_object payload ≡ o
    → (((elim o [ none ↦ some errs | some m ↦ check_fields schema_field m required ]) ≡ none)
        × ((elim o [ none ↦ some errt | some m ↦ type_check m ]) ≡ none))
      ↔ IsCanonical payload
by_document errs errt payload none e =
    (λ q. absurd (some-none q.0), λ (m, d, c). absurd (decoded-none payload m e d))
by_document errs errt payload (some m) e = (
  λ q. (m, e, (check_fields-IsComplete m).0 q),
  λ (k, d, c). (check_fields-IsComplete m).1 (subst IsComplete (some_inj k m payload d e) c),
)

-- Both handlers on a payload.
schema_error-IsCanonical :
    (text : Bytes → Bytes) (payload : Bytes)
    → ((schema_error text payload ≡ none) × (checked_type text payload ≡ none))
      ↔ IsCanonical payload
unfolding schema_error checked_type
schema_error-IsCanonical text payload = by_document _ _ payload (decode_object payload) refl

run_handlers-nil : (w : World) (r : Result) → run_handlers [] w r ≡ (passed, w, r)
unfolding run_handlers
run_handlers-nil w r = refl

two_handlers :
    (h k : Handler) (w : World) (r : Result) (a b : Option Error)
    → h w r ≡ (verdict_of a, w, r)
    → k w r ≡ (verdict_of b, w, r)
    → run (new_chain (h ∷ k ∷ [])) w r ≡ (verdict_of (first_error a b), w, r)
unfolding run new_chain
two_handlers h k w r none none p q =
    rw (run_handlers-cons h (k ∷ []) w r, p, run_handlers-cons k [] w r, q) (run_handlers-nil w r)
two_handlers h k w r none (some err) p q =
    rw (run_handlers-cons h (k ∷ []) w r, p, run_handlers-cons k [] w r, q) refl
two_handlers h k w r (some err) b p q = rw (run_handlers-cons h (k ∷ []) w r, p) refl

run-verdict :
    (text : Bytes → Bytes) (w : World) (r : Result)
    → run (validators text) w r
      ≡ (verdict_of (first_error (schema_error text r.payload) (checked_type text r.payload)), w, r)
unfolding schema_validator type_checker
run-verdict text w r =
    two_handlers (schema_validator text) (type_checker text) w r (schema_error text r.payload)
      (checked_type text r.payload) refl refl

verdict_cases :
    (o : Option Error) → (verdict_of o ≡ passed) ⊎ ((err : Error) × (verdict_of o ≡ failed err))
verdict_cases none = inl refl
verdict_cases (some err) = inr (err, refl)

-- A chain of the two validating handlers passes exactly the payloads that decode to an object
-- whose id, source and event_type are strings and not empty, and whose timestamp_ms is a number
-- and not zero; it leaves the payload and the shared state as they are. All else they refuse with
-- an error, and they never panic.
pub validators_iff :
    (text : Bytes → Bytes) (w : World) (r : Result)
    → ((run (validators text) w r ≡ (passed, w, r)) ↔ IsCanonical r.payload)
      × ((run (validators text) w r ≡ (passed, w, r))
          ⊎ ((err : Error) × (run (validators text) w r ≡ (failed err, w, r))))
validators_iff text w r =
    let a = schema_error text r.payload in
    let b = checked_type text r.payload in
    rw (run-verdict text w r) (
      (
        λ p.
            (schema_error-IsCanonical text r.payload).0
              ((first_error_iff a b).0 ((verdict-passed_iff (first_error a b)).0 (ground arith))),
        λ c.
            let accepted =
              (first_error_iff a b).1 ((schema_error-IsCanonical text r.payload).1 c) in
            ground (arith, verdict-passed_iff (first_error a b)),
      ),
      elim (verdict_cases (first_error a b)) [
        | inl p ↦ inl (ground arith)
        | inr (err, p) ↦ inr (err, ground arith)
      ],
    )
