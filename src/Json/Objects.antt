-- ===== src/Json/Objects.antt =====
-- json.Unmarshal into a map[string]any.
use xyllo.Base.{
  Bytes, Bool, false, ◌||◌, Option, none, some, [], Assoc, bytes_eq, insert, if◌then◌else◌,
}
use xyllo.Json.{
  Value, null, bool, num, str, arr, obj, Items, nil, cons, Fields, end, field, float_overflow,
}
use xyllo.Json.Parse.{parse}

unfoldable mutual
  unfolding float_overflow

  -- Some number in the value does not fit a float64.
  pub overflows : Value → Bool
  overflows null = false
  overflows (bool b) = false
  overflows (num n) = float_overflow n
  overflows (str s) = false
  overflows (arr vs) = items_overflow vs
  overflows (obj fs) = fields_overflow fs

  pub items_overflow : Items → Bool
  items_overflow nil = false
  items_overflow (cons v vs) = overflows v || items_overflow vs

  pub fields_overflow : Fields → Bool
  fields_overflow end = false
  fields_overflow (field key v raw fs) = overflows v || fields_overflow fs

-- The members written into a map one after another: of two with one key, the later one stays.
unfoldable pub members : Fields → Assoc Bytes Value → Assoc Bytes Value
unfolding insert
members end m = m
members (field key v raw fs) m = members fs (insert key v m)

-- A top-level null leaves the map nil, which reads as empty.
unfoldable pub into_map : Option Value → Option (Assoc Bytes Value)
unfolding members fields_overflow
into_map (some null) = some []
into_map (some (obj fs)) = if fields_overflow fs then none else some (members fs [])
into_map (some _) = none
into_map none = none

-- `none`: Unmarshal returns an error.
unfoldable pub decode_object : Bytes → Option (Assoc Bytes Value)
unfolding into_map parse
decode_object s = into_map (parse s)
