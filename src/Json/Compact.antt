-- ===== src/Json/Compact.antt =====
-- The compaction of a raw message, byte by byte, outside of string literals.
pub mod Characters
pub mod Strings
pub mod Digits
pub mod Fractions
pub mod Exponents
pub mod Numbers
pub mod Literals
pub mod Tokens
pub mod Values
use xyllo.Base.{
  Bytes, codes, Bool, true, false, ◌++◌, ℕ, zero, suc, ◌+◌, ◌-◌, eqb, Option, none, some, [], ◌∷◌,
  ◌≡◌, ◌≢◌, ◌⊎◌, refl, sym, ap, ◌∙◌, arith, Bool-cases, inl, inr,
}
use xyllo.Json.Numbers.{is_space, skip_space, expect}
use xyllo.Json.Encode.{
  Place, outside, inside, escaped, place_after, compact_byte, compact_from, line_separator,
}
use xyllo.Json.Encode.Quoted.{separator_cases}

-- A byte that starts no line separator is written by itself.
pub compact_from-byte :
    (at : Place) (c : ℕ) (s : Bytes)
    → line_separator (c ∷ s) ≡ none
    → compact_from 0 at (c ∷ s) ≡ compact_byte at c ++ compact_from 0 (place_after at c) s
unfolding compact_from
compact_from-byte at c s e = rw (e, compact_from) refl

pub compact_from-separator :
    (at : Place) (c : ℕ) (s : Bytes) (digit : ℕ)
    → line_separator (c ∷ s) ≡ some digit
    → compact_from 0 at (c ∷ s) ≡ codes "\\u202" ++ digit ∷ compact_from 2 inside s
unfolding compact_from
compact_from-separator at c s digit e = rw (e, compact_from) refl

pub no_separator : (c : ℕ) (s : Bytes) → c ≢ 226 → line_separator (c ∷ s) ≡ none
no_separator c s n = elim (separator_cases c s) [
  | inl e ↦ e
  | inr (d, t, e, _, _, _) ↦ absurd (n e)
]

-- A byte of a token other than a string is kept.
pub IsToken : ℕ → Type 0
IsToken c = (c ≢ 226) × (c ≢ 34) × (is_space c ≡ false)

pub compact_from-token :
    (c : ℕ) (s : Bytes)
    → c ≢ 226
    → c ≢ 34
    → is_space c ≡ false
    → compact_from 0 outside (c ∷ s) ≡ c ∷ compact_from 0 outside s
unfolding compact_byte place_after
compact_from-token c s n q sp =
    let stays : place_after outside c ≡ outside = ground arith in
    let kept : compact_byte outside c ≡ c ∷ [] = rw sp refl in
    rw (compact_from-byte outside c s (no_separator c s n)) (rw (kept, stays) refl)

pub compact_from-quote :
    (s : Bytes) → compact_from 0 outside (34 ∷ s) ≡ 34 ∷ compact_from 0 inside s
unfolding compact_byte place_after is_space
compact_from-quote s = compact_from-byte outside 34 s (no_separator 34 s (omega arith))

pub compact_from-space :
    (c : ℕ) (s : Bytes)
    → is_space c ≡ true
    → compact_from 0 outside (c ∷ s) ≡ compact_from 0 outside s
unfolding compact_byte place_after is_space
compact_from-space c s sp =
    let n : c ≢ 226 = ground arith in
    let stays : place_after outside c ≡ outside = ground arith in
    let dropped : compact_byte outside c ≡ [] = rw sp refl in
    rw (compact_from-byte outside c s (no_separator c s n)) (rw (dropped, stays) refl)

-- What is not dropped begins with the byte itself or with a backslash.
pub compact_from-head :
    (c : ℕ) (s : Bytes)
    → is_space c ≡ false
    → (d : ℕ) × (t : Bytes) × (compact_from 0 outside (c ∷ s) ≡ d ∷ t) × ((d ≡ c) ⊎ (d ≡ 92))
unfolding compact_from compact_byte
compact_from-head c s sp = elim (separator_cases c s) [
  | inl e ↦ (
    c,
    compact_from 0 (place_after outside c) s,
    rw (compact_from-byte outside c s e) (rw sp refl),
    inl refl,
  )
  | inr (d, t, _, _, _, e) ↦ (
    92,
    117 ∷ 50 ∷ 48 ∷ 50 ∷ (d - 168 + b'8') ∷ compact_from 2 inside s,
    compact_from-separator outside c s (d - 168 + b'8') e,
    inr refl,
  )
]

-- Spaces in front do not matter before the compaction, and there are none after it.
pub compact_from-skip_space :
    (s : Bytes) → compact_from 0 outside (skip_space s) ≡ compact_from 0 outside s
unfolding skip_space
compact_from-skip_space [] = refl
compact_from-skip_space (c ∷ s) = elim (Bool-cases (is_space c)) [
  | inl y ↦ rw (y, compact_from-space c s y) (compact_from-skip_space s)
  | inr n ↦ rw n refl
]

kept_head :
    (c d : ℕ) (t : Bytes) → is_space c ≡ false → (d ≡ c) ⊎ (d ≡ 92) → skip_space (d ∷ t) ≡ d ∷ t
unfolding skip_space is_space
kept_head c d t n (inl e) = rw (e, n) refl
kept_head c d t n (inr e) = rw e refl

pub skip_space-compact_from :
    (s : Bytes) → skip_space (compact_from 0 outside s) ≡ compact_from 0 outside s
unfolding skip_space compact_from
skip_space-compact_from [] = refl
skip_space-compact_from (c ∷ s) = elim (Bool-cases (is_space c)) [
  | inl y ↦ rw (compact_from-space c s y) (skip_space-compact_from s)
  | inr n ↦ let (d, t, e, h) = compact_from-head c s n in rw e (kept_head c d t n h)
]

-- Skipping spaces leaves nothing, or a byte that is none.
pub skip_space-cases :
    (s : Bytes)
    → (skip_space s ≡ []) ⊎ ((c : ℕ) × (t : Bytes) × (skip_space s ≡ c ∷ t) × (is_space c ≡ false))
unfolding skip_space
skip_space-cases [] = inl refl
skip_space-cases (c ∷ s) = elim (Bool-cases (is_space c)) [
  | inl y ↦ rw y (skip_space-cases s)
  | inr n ↦ inr (c, s, rw n refl, n)
]
