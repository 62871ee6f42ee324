-- ===== src/Config/Durations.antt =====
-- BatcherConfig.UnmarshalYAML of config/config.go, and time.ParseDuration, which it calls. What the
-- YAML library decodes into the struct `plain` is an argument. A duration is in nanoseconds. The
-- product of a fraction and its unit is cut off exactly, where package time computes it in float64.
pub mod Reading
pub mod Rounds
pub mod Batchers
mod Tests
use xyllo.Base.{
  Bytes, codes, ◌==◌, ◌++◌, Bool, true, false, not, ◌&&◌, ◌||◌, ℕ, zero, suc, ◌+◌, ◌-◌, ◌*◌, ◌/◌,
  ◌^◌, ltb, leb, eqb, ℤ, pos, ◌-ℤ◌, Option, none, some, [], ◌∷◌, length, ◌⊎◌, inl, inr,
  if◌then◌else◌,
}
use xyllo.Xlerr.{Error, wrapped, quote}
use xyllo.Json.Numbers.{◌>>=◌, is_digit}
use xyllo.Config.{BatcherConfig}

-- 2^63, the magnitude of the least int64.
abbrev pub limit : ℕ
limit = 2 ^ 63

-- leadingInt: the digits at the front and the rest; an error beyond 2^63.
unfoldable pub leading_int : ℕ → Bytes → Option (ℕ × Bytes)
unfolding is_digit
leading_int x [] = some (x, [])
leading_int x (c ∷ s) =
    let next = x * 10 + (c - b'0') in
    let more = leading_int next s in
    if not (is_digit c)
    then some (x, c ∷ s)
    else if ltb (limit / 10) x
    then none
    else if ltb limit next
    then none
    else more

-- leadingFraction: the digits of a fraction, its scale and the rest; digits beyond 2^63 are dropped.
unfoldable pub leading_fraction : Bool → ℕ → ℕ → Bytes → ℕ × ℕ × Bytes
unfolding is_digit
leading_fraction full x scale [] = (x, scale, [])
leading_fraction full x scale (c ∷ s) =
    let next = x * 10 + (c - b'0') in
    let stopped = leading_fraction true x scale s in
    let more = leading_fraction false next (scale * 10) s in
    if not (is_digit c)
    then (x, scale, c ∷ s)
    else if full || (ltb ((limit - 1) / 10) x || ltb limit next)
    then stopped
    else more

unfoldable pub is_numeric : ℕ → Bool
unfolding is_digit
is_numeric c = eqb c b'.' || is_digit c

-- The unit's name at the front, and the rest.
unfoldable pub unit_name : Bytes → Bytes × Bytes
unfolding is_numeric
unit_name [] = ([], [])
unit_name (c ∷ s) =
    let (u, rest) = unit_name s in if is_numeric c then ([], c ∷ s) else (c ∷ u, rest)

-- unitMap; the micro sign and the Greek letter mu are both allowed.
unfoldable pub unit_of : Bytes → Option ℕ
unfolding ◌==◌
unit_of u =
    if u == codes "ns"
    then some 1
    else if u == codes "us" || (u == 194 ∷ 181 ∷ b's' ∷ [] || u == 206 ∷ 188 ∷ b's' ∷ [])
    then some 1000
    else if u == codes "ms"
    then some 1000000
    else if u == codes "s"
    then some 1000000000
    else if u == codes "m"
    then some 60000000000
    else if u == codes "h"
    then some 3600000000000
    else none

-- A fraction behind a point, if there is one: the digits, the scale, whether there are any, the rest.
unfoldable pub fraction_of : Bytes → ℕ × ℕ × Bool × Bytes
unfolding leading_fraction
fraction_of [] = (0, 1, false, [])
fraction_of (c ∷ s) =
    let (f, scale, rest) = leading_fraction false 0 1 s in
    if eqb c b'.'
    then (f, scale, not (eqb (length rest) (length s)), rest)
    else (0, 1, false, c ∷ s)

-- A quantity with its unit, in nanoseconds.
unfoldable pub scaled : ℕ → ℕ → ℕ → ℕ → Option ℕ
scaled v f scale unit =
    let whole = v * unit in
    let total = whole + f * unit / scale in
    if ltb (limit / unit) v
    then none
    else if eqb f 0
    then some whole
    else if ltb limit total
    then none
    else some total

-- One round of the loop: a quantity and its unit.
unfoldable pub quantity : Bytes → Option (ℕ × Bytes)
unfolding leading_int fraction_of unit_name unit_of scaled is_numeric
quantity [] = none
quantity (c ∷ s) =
    if not (is_numeric c)
    then none
    else (leading_int 0 (c ∷ s) >>= λ (v, s₁).
        let (f, scale, post, s₂) = fraction_of s₁ in
        let (u, s₃) = unit_name s₂ in
        if eqb (length s₁) (length (c ∷ s)) && not post
        then none
        else if u == []
        then none
        else (unit_of u >>= λ unit. scaled v f scale unit >>= λ n. some (n, s₃)))

-- The loop. Each round reads at least one byte, so that the length of the text is enough fuel.
unfoldable pub quantities : ℕ → ℕ → Bytes → Option ℕ
unfolding quantity
quantities fuel d [] = some d
quantities zero d (c ∷ s) = none
quantities (suc fuel) d (c ∷ s) = quantity (c ∷ s) >>= λ (v, rest).
    let later = quantities fuel (d + v) rest in if ltb limit (d + v) then none else later

-- Behind the sign.
unfoldable pub magnitude : Bytes → Option ℕ
unfolding quantities
magnitude s = if s == codes "0" then some 0 else if s == [] then none else quantities (length s) 0 s

unfoldable pub signed : Bool → Option ℕ → Option ℤ
unfolding ◌-ℤ◌
signed neg none = none
signed true (some d) = some (pos 0 -ℤ pos d)
signed false (some d) = if ltb (limit - 1) d then none else some (pos d)

unfoldable pub parse_duration : Bytes → Option ℤ
unfolding magnitude signed
parse_duration [] = none
parse_duration (c ∷ s) =
    if eqb c b'-'
    then signed true (magnitude s)
    else if eqb c b'+'
    then signed false (magnitude s)
    else signed false (magnitude (c ∷ s))

-- What the YAML library decodes into `plain`; a field that is missing in the document is zero.
pub record Plain : Type 0 where
  pub max_size : ℤ
  pub flush_interval : Bytes

pub data Unmarshalled : Type 0 where
  unmarshalled : BatcherConfig → Unmarshalled
  refused : Error → BatcherConfig → Unmarshalled

-- The error of package time is `time_error`, by the text that it could not read.
module _ (time_error : Bytes → Error) where
  with_interval : Bytes → BatcherConfig → Option ℤ → Unmarshalled
  with_interval text b none =
      refused
        (wrapped (codes "batcher.flush_interval: invalid duration " ++ quote text ++ codes ": ")
          (time_error text))
        b
  with_interval text b (some d) = unmarshalled (record b { flush_interval = d })

  -- `decoded` is the result of value.Decode; the receiver is `b`.
  unfoldable pub unmarshal_yaml : (Plain ⊎ Error) → BatcherConfig → Unmarshalled
  unfolding with_interval parse_duration
  unmarshal_yaml (inr err) b = refused err b
  unmarshal_yaml (inl p) b =
      let sized : BatcherConfig = record b { max_size = p.max_size } in
      if p.flush_interval == []
      then unmarshalled sized
      else with_interval p.flush_interval sized (parse_duration p.flush_interval)
