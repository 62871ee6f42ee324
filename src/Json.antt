-- ===== src/Json.antt =====
-- encoding/json, as far as the pipeline uses it: the values that a document holds, with the raw
-- bytes of each member of an object, and numbers as their decimal literals say.
pub mod Numbers
pub mod Texts
pub mod Parse
pub mod Objects
pub mod Shrink
pub mod Measure
pub mod Tails
pub mod Append
pub mod Compact
pub mod Kept
pub mod Rewriting
pub mod Contents
pub mod Fuel
pub mod Steps
pub mod Encode
mod Tests
use xyllo.Base.{Bytes, Bool, ℕ, ℤ, pos, negsuc, ◌+◌, ◌-◌, ◌*◌, ◌^◌, leb, List, [], ◌∷◌}

-- digits · 10^(exponent), with a sign; `whole` says that the literal has neither fraction nor
-- exponent, so that it can be read as an integer.
pub record Number : Type 0 where
  pub negative : Bool
  pub digits : ℕ
  pub exponent : ℤ
  pub whole : Bool

mutual
  pub data Value : Type 0 where
    null : Value
    bool : Bool → Value
    num : Number → Value
    str : Bytes → Value
    arr : Items → Value
    obj : Fields → Value

  pub data Items : Type 0 where
    nil : Items
    cons : Value → Items → Items

  -- A member's key, its value and the bytes of the value.
  pub data Fields : Type 0 where
    end : Fields
    field : Bytes → Value → Bytes → Fields → Fields

-- 2^1075, the inverse of the largest magnitude that float64 rounds to zero.
abbrev half_least : ℕ
half_least = 2 ^ 1075

-- The smallest magnitude that float64 rounds beyond its largest number.
abbrev overflow_bound : ℕ
overflow_bound = 2 ^ 1024 - 2 ^ 970

zero_at : ℕ → ℤ → Bool
zero_at d (pos e) = leb d 0
zero_at d (negsuc e) = leb (d * half_least) (10 ^ (e + 1))

-- The number as a float64 is zero.
unfoldable pub float_zero : Number → Bool
unfolding zero_at
float_zero n = zero_at n.digits n.exponent

overflow_at : ℕ → ℤ → Bool
overflow_at d (pos e) = leb overflow_bound (d * 10 ^ e)
overflow_at d (negsuc e) = leb (overflow_bound * 10 ^ (e + 1)) d

-- The number is out of float64's range, which is an error.
unfoldable pub float_overflow : Number → Bool
unfolding overflow_at
float_overflow n = overflow_at n.digits n.exponent
