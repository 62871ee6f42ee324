-- ===== src/Middleware/Validators.antt =====
-- The handlers SchemaValidator and TypeChecker of internal/middleware/middleware.go. The text of the
-- error that json.Unmarshal returns for a document is a parameter; that it returns one is not.
pub mod Accepts
pub mod Encoded
mod Tests
use xyllo.Base.{
  Bytes, codes, Bool, true, false, ◌++◌, ◌==◌, Option, none, some, List, [], ◌∷◌, Assoc, bytes_eq,
  lookup, if◌then◌else◌,
}
use xyllo.Xlerr.{Error, plain, wrapped, quote}
use xyllo.Json.{Value, null, bool, num, str, arr, obj, float_zero}
use xyllo.Json.Objects.{decode_object}
use xyllo.Middleware.{Verdict, passed, failed, Handler, Chain, new_chain}

abbrev pub schema_op : Bytes
schema_op = codes "SchemaValidator"

abbrev pub type_op : Bytes
type_op = codes "TypeChecker"

abbrev pub required : List Bytes
required = codes "id" ∷ codes "source" ∷ codes "event_type" ∷ codes "timestamp_ms" ∷ []

abbrev pub string_fields : List Bytes
string_fields = codes "id" ∷ codes "source" ∷ codes "event_type" ∷ []

-- The text `op: <before> "key"<behind>`.
abbrev field_error : Bytes → Bytes → Bytes → Bytes → Error
field_error op before key behind = plain (op ++ codes ": " ++ before ++ quote key ++ behind)

abbrev pub missing : Bytes → Error
missing key = field_error schema_op (codes "missing required field ") key []

-- The body of the validator's loop, for the value that the map has at the key.
unfoldable pub schema_field : Bytes → Option Value → Option Error
unfolding float_zero
schema_field key none = some (missing key)
schema_field key (some null) = some (missing key)
schema_field key (some (str s)) =
    if s == []
    then some (field_error schema_op (codes "field ") key (codes " must not be empty"))
    else none
schema_field key (some (num n)) =
    if float_zero n
    then some (field_error schema_op (codes "field ") key (codes " must not be zero"))
    else none
schema_field key (some (bool b)) = none
schema_field key (some (arr vs)) = none
schema_field key (some (obj fs)) = none

abbrev pub first_error : Option Error → Option Error → Option Error
first_error none later = later
first_error (some err) later = some err

-- A loop over keys that returns the first error.
unfoldable pub check_fields :
    (Bytes → Option Value → Option Error) → Assoc Bytes Value → List Bytes → Option Error
unfolding lookup
check_fields check m [] = none
check_fields check m (key ∷ keys) =
    first_error (check key (lookup key m)) (check_fields check m keys)

-- %T of a decoded value.
go_type : Value → Bytes
go_type null = codes "<nil>"
go_type (bool b) = codes "bool"
go_type (num n) = codes "float64"
go_type (str s) = codes "string"
go_type (arr vs) = codes "[]interface {}"
go_type (obj fs) = codes "map[string]interface {}"

abbrev type_error : Bytes → Bytes → Value → Option Error
type_error what key v = some (
    field_error type_op (codes "field ") key
      (codes " must be a " ++ what ++ codes ", got " ++ go_type v))

-- The body of the type checker's loop.
unfoldable pub string_field : Bytes → Option Value → Option Error
unfolding go_type
string_field key none = none
string_field key (some (str s)) = none
string_field key (some v) = type_error (codes "string") key v

unfoldable pub number_field : Bytes → Option Value → Option Error
unfolding go_type
number_field key none = none
number_field key (some (num n)) = none
number_field key (some v) = type_error (codes "number") key v

-- The type checker's two loops on a decoded payload.
unfoldable pub type_check : Assoc Bytes Value → Option Error
unfolding string_field number_field check_fields lookup
type_check m =
    first_error (check_fields string_field m string_fields)
      (number_field (codes "timestamp_ms") (lookup (codes "timestamp_ms") m))

abbrev pub verdict_of : Option Error → Verdict
verdict_of none = passed
verdict_of (some err) = failed err

module _ (decode_error : Bytes → Bytes) where
  invalid_json : Bytes → Bytes → Error
  invalid_json op payload = wrapped (op ++ codes ": invalid JSON: ") (plain (decode_error payload))

  unfoldable pub schema_error : Bytes → Option Error
  unfolding schema_field check_fields invalid_json decode_object
  schema_error payload = elim (decode_object payload) [
    | none ↦ some (invalid_json schema_op payload)
    | some m ↦ check_fields schema_field m required
  ]

  unfoldable pub checked_type : Bytes → Option Error
  unfolding type_check invalid_json decode_object
  checked_type payload = elim (decode_object payload) [
    | none ↦ some (invalid_json type_op payload)
    | some m ↦ type_check m
  ]

  unfoldable pub schema_validator : Handler
  unfolding schema_error
  schema_validator w r = (verdict_of (schema_error r.payload), w, r)

  unfoldable pub type_checker : Handler
  unfolding checked_type
  type_checker w r = (verdict_of (checked_type r.payload), w, r)

  abbrev pub validators : Chain
  validators = new_chain (schema_validator ∷ type_checker ∷ [])
