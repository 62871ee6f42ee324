-- ===== src/Json/Numbers.antt =====
-- The number literals of JSON, as the scanner of encoding/json accepts them.
use xyllo.Base.{
  Bytes, Bool, true, false, ◌&&◌, ◌||◌, ℕ, ◌+◌, ◌-◌, ◌*◌, leb, eqb, ℤ, pos, ◌-ℤ◌, Option, none,
  some, [], ◌∷◌, if◌then◌else◌,
}
use xyllo.Json.{Number}

infixl 5 ◌>>=◌
abbrev pub ◌>>=◌ {ℓ κ} : {A : Type ℓ} {B : Type κ} → Option A → (A → Option B) → Option B
none >>= f = none
some a >>= f = f a

unfoldable pub is_space : ℕ → Bool
is_space c = eqb c 32 || (eqb c 9 || (eqb c 10 || eqb c 13))

unfoldable pub skip_space : Bytes → Bytes
unfolding is_space
skip_space [] = []
skip_space (c ∷ s) = if is_space c then skip_space s else c ∷ s

-- The rest behind a fixed text.
unfoldable pub expect : Bytes → Bytes → Option Bytes
expect [] s = some s
expect (p ∷ ps) [] = none
expect (p ∷ ps) (c ∷ s) = if eqb p c then expect ps s else none

unfoldable pub is_digit : ℕ → Bool
is_digit c = leb b'0' c && leb c b'9'

-- A run of digits: its value behind `acc`, its length behind `n`, and the rest.
unfoldable pub digits_from : ℕ → ℕ → Bytes → ℕ × ℕ × Bytes
unfolding is_digit
digits_from acc n [] = (acc, n, [])
digits_from acc n (c ∷ s) =
    let more = digits_from (acc * 10 + (c - b'0')) (n + 1) s in
    if is_digit c then more else (acc, n, c ∷ s)

-- No leading zero, unless it is the only digit.
unfoldable pub whole_part : Bytes → Option (ℕ × Bytes)
unfolding digits_from
whole_part [] = none
whole_part (c ∷ s) =
    if eqb c b'0'
    then some (0, s)
    else if is_digit c
    then (let (d, _, rest) = digits_from 0 0 (c ∷ s) in some (d, rest))
    else none

-- The digits so far, how many of them stand behind the point, and the rest.
unfoldable pub fraction_part : ℕ → Bytes → Option (ℕ × ℕ × Bytes)
unfolding digits_from
fraction_part d [] = some (d, 0, [])
fraction_part d (c ∷ s) =
    if eqb c b'.'
    then (let (d', n, rest) = digits_from d 0 s in if eqb n 0 then none else some (d', n, rest))
    else some (d, 0, c ∷ s)

unfoldable pub signed_exponent : Bytes → Option (ℤ × Bytes)
unfolding digits_from ◌-ℤ◌
signed_exponent [] = none
signed_exponent (c ∷ s) =
    let (down, n, after) = digits_from 0 0 s in
    let (up, k, behind) = digits_from 0 0 (c ∷ s) in
    if eqb c b'-'
    then (if eqb n 0 then none else some (pos 0 -ℤ pos down, after))
    else if eqb c b'+'
    then (if eqb n 0 then none else some (pos down, after))
    else if eqb k 0
    then none
    else some (pos up, behind)

unfoldable pub exponent_part : Bytes → Option (Option ℤ × Bytes)
unfolding signed_exponent
exponent_part [] = some (none, [])
exponent_part (c ∷ s) =
    if eqb c b'e' || eqb c b'E'
    then (signed_exponent s >>= λ (e, rest). some (some e, rest))
    else some (none, c ∷ s)

abbrev pub exponent_or_zero : Option ℤ → ℤ
exponent_or_zero none = pos 0
exponent_or_zero (some e) = e

abbrev pub is_none : Option ℤ → Bool
is_none none = true
is_none (some e) = false

unfoldable pub unsigned_number : Bool → Bytes → Option (Number × Bytes)
unfolding whole_part fraction_part exponent_part ◌-ℤ◌
unsigned_number neg s = do
  (w, s₁) ← whole_part s
  (d, n, s₂) ← fraction_part w s₁
  (e, s₃) ← exponent_part s₂
  some (
    record {
      negative = neg;
      digits = d;
      exponent = exponent_or_zero e -ℤ pos n;
      whole = eqb n 0 && is_none e;
    },
    s₃,
  )

unfoldable pub parse_number : Bytes → Option (Number × Bytes)
unfolding unsigned_number
parse_number [] = none
parse_number (c ∷ s) = if eqb c b'-' then unsigned_number true s else unsigned_number false (c ∷ s)
