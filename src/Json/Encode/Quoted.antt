-- ===== src/Json/Encode/Quoted.antt =====
-- Reading back an encoded string.
use xyllo.Base.{
  Bytes, codes, ◌&&◌, ◌||◌, ◌++◌, ℕ, zero, suc, ◌+◌, ◌-◌, ◌*◌, ◌/◌, ◌%◌, ◌<◌, ◌≤◌, eqb, Option,
  none, some, [], ◌∷◌, ◌≡◌, ◌≢◌, ◌⊎◌, refl, sym, ap, ◌∙◌, arith, Bool-cases, inl, inr, All,
}
use mathlib.Core.List.{append_assoc}
use xyllo.Json.Texts.{
  Mode, plainly, hex, code_unit, hex_digit, unpaired, goes, char_read, unquote_from, unquote,
  prepend,
}
use xyllo.Json.Encode.{
  hex_letter, unicode_escape, is_html, escape_byte, line_separator, escape_from,
}

-- What a character's reading does to the text behind it.
pub unquote_from-goes :
    (m m' : Mode) (c : ℕ) (out t : Bytes)
    → char_read m c ≡ goes m' out
    → unquote_from m (c ∷ t) ≡ prepend out (unquote_from m' t)
unfolding unquote_from
unquote_from-goes m m' c out t e = rw (e, unquote_from) refl

pub prepend-prepend :
    (a b : Bytes) (o : Option (Bytes × Bytes)) → prepend a (prepend b o) ≡ prepend (a ++ b) o
prepend-prepend a b none = refl
prepend-prepend a b (some (text, rest)) = ap (λ x. some (x, rest)) (sym (append_assoc a b text))

pub prepend-nil : (o : Option (Bytes × Bytes)) → prepend [] o ≡ o
prepend-nil none = refl
prepend-nil (some (text, rest)) = refl

hex_digit-hex_letter : (d : ℕ) → d < 16 → hex_digit (hex_letter d) ≡ some d
unfolding hex_digit hex_letter
hex_digit-hex_letter d l = ground arith

char_read-hex_letter :
    (high : Option ℕ) (left acc d : ℕ)
    → d < 16
    → char_read (hex high (suc left) acc) (hex_letter d) ≡ goes (hex high left (acc * 16 + d)) []
unfolding char_read
char_read-hex_letter high left acc d l = rw (hex_digit-hex_letter d l) refl

char_read-last_letter :
    (high : Option ℕ) (acc d : ℕ)
    → d < 16
    → char_read (hex high 0 acc) (hex_letter d) ≡ code_unit high (acc * 16 + d)
unfolding char_read
char_read-last_letter high acc d l = rw (hex_digit-hex_letter d l) refl

-- A code unit below 128 is the character of that number.
code_unit-ascii :
    (high : Option ℕ) (u : ℕ)
    → u < 128
    → code_unit high u ≡ goes (plainly none) (unpaired high ++ u ∷ [])
unfolding code_unit
code_unit-ascii none u l = ground arith
code_unit-ascii (some h) u l = ground arith

-- The start of an escape with two more zeros.
escape_start :
    (high : Option ℕ) (s : Bytes)
    → unquote_from (plainly high) (92 ∷ 117 ∷ 48 ∷ 48 ∷ s) ≡ unquote_from (hex high 1 0) s
unfolding unquote_from char_read
escape_start high s =
    let o = unquote_from (hex high 1 0) s in
    prepend-nil (prepend [] (prepend [] (prepend [] o)))
    ∙ prepend-nil (prepend [] (prepend [] o))
    ∙ prepend-nil (prepend [] o)
    ∙ prepend-nil o

-- The escape with two hexadecimal digits behind two zeros.
pub unquote_from-unicode_escape :
    (high : Option ℕ) (c : ℕ) (t : Bytes)
    → c < 128
    → unquote_from (plainly high) (unicode_escape c ++ t)
      ≡ prepend (unpaired high ++ c ∷ []) (unquote_from (plainly none) t)
unfolding unicode_escape
unquote_from-unicode_escape high c t l =
    let whole : (0 * 16 + c / 16) * 16 + c % 16 ≡ c = omega arith in
    let last : char_read (hex high 0 (0 * 16 + c / 16)) (hex_letter (c % 16))
        ≡ goes (plainly none) (unpaired high ++ c ∷ []) =
      char_read-last_letter high (0 * 16 + c / 16) (c % 16) (omega arith)
      ∙ ap (code_unit high) whole
      ∙ code_unit-ascii high c l in
    escape_start high (hex_letter (c / 16) ∷ hex_letter (c % 16) ∷ t)
    ∙ unquote_from-goes (hex high 1 0) (hex high 0 (0 * 16 + c / 16)) (hex_letter (c / 16)) []
        (hex_letter (c % 16) ∷ t) (char_read-hex_letter high 0 0 (c / 16) (omega arith))
    ∙ prepend-nil (unquote_from (hex high 0 (0 * 16 + c / 16)) (hex_letter (c % 16) ∷ t))
    ∙ unquote_from-goes (hex high 0 (0 * 16 + c / 16)) (plainly none) (hex_letter (c % 16))
        (unpaired high ++ c ∷ []) t last

five_nils :
    (o : Option (Bytes × Bytes))
    → prepend [] (prepend [] (prepend [] (prepend [] (prepend [] o)))) ≡ o
five_nils none = refl
five_nils (some (text, rest)) = refl

-- The escapes of U+2028 and U+2029.
pub unquote_from-separator :
    (high : Option ℕ) (d : ℕ) (t : Bytes)
    → (d ≡ 168) ⊎ (d ≡ 169)
    → unquote_from (plainly high) (codes "\\u202" ++ (d - 168 + b'8') ∷ t)
      ≡ prepend (unpaired high ++ 226 ∷ 128 ∷ d ∷ []) (unquote_from (plainly none) t)
unfolding unquote_from char_read code_unit
unquote_from-separator none d t (inl e) = rw e (five_nils _)
unquote_from-separator none d t (inr e) = rw e (five_nils _)
unquote_from-separator (some h) d t (inl e) = rw e (five_nils _)
unquote_from-separator (some h) d t (inr e) = rw e (five_nils _)

-- The two ways to write a character that is not an escape of its own.
data Escaped (c : ℕ) : Type 0 where
  is_quote : c ≡ 34 → Escaped c
  is_backslash : c ≡ 92 → Escaped c
  is_bell : c ≡ 8 → Escaped c
  is_feed : c ≡ 12 → Escaped c
  is_line : c ≡ 10 → Escaped c
  is_return : c ≡ 13 → Escaped c
  is_tab : c ≡ 9 → Escaped c
  is_unicode : c < 128 → escape_byte c ≡ unicode_escape c → Escaped c
  is_plain : c ≢ 34 → c ≢ 92 → 32 ≤ c → escape_byte c ≡ c ∷ [] → Escaped c

escaped_lem : (c : ℕ) → Escaped c
unfolding escape_byte is_html
escaped_lem c = ground arith

-- A character that is read as such.
pub plain_byte :
    (c : ℕ) → c ≢ 34 → c ≢ 92 → 32 ≤ c → char_read (plainly none) c ≡ goes (plainly none) (c ∷ [])
unfolding char_read
plain_byte c q b l = ground arith

escape_byte-goes :
    (c : ℕ) (t : Bytes)
    → Escaped c
    → unquote_from (plainly none) (escape_byte c ++ t)
      ≡ prepend (c ∷ []) (unquote_from (plainly none) t)
unfolding escape_byte unquote_from char_read
escape_byte-goes c t (is_quote e) = rw e (prepend-nil _)
escape_byte-goes c t (is_backslash e) = rw e (prepend-nil _)
escape_byte-goes c t (is_bell e) = rw e (prepend-nil _)
escape_byte-goes c t (is_feed e) = rw e (prepend-nil _)
escape_byte-goes c t (is_line e) = rw e (prepend-nil _)
escape_byte-goes c t (is_return e) = rw e (prepend-nil _)
escape_byte-goes c t (is_tab e) = rw e (prepend-nil _)
escape_byte-goes c t (is_unicode l e) = rw e (unquote_from-unicode_escape none c t l)
escape_byte-goes c t (is_plain q b l e) =
    rw e (unquote_from-goes (plainly none) (plainly none) c (c ∷ []) t (plain_byte c q b l))

-- Either the text begins with a separator, or its first character is encoded by itself.
pub separator_cases :
    (c : ℕ) (s : Bytes)
    → (line_separator (c ∷ s) ≡ none)
      ⊎ ((d : ℕ) × (t : Bytes) × (c ≡ 226)
          × (s ≡ 128 ∷ d ∷ t)
          × ((d ≡ 168) ⊎ (d ≡ 169))
          × (line_separator (c ∷ s) ≡ some (d - 168 + b'8')))
unfolding line_separator
separator_cases c [] = inl refl
separator_cases c (b ∷ []) = inl refl
separator_cases c (b ∷ d ∷ t) =
    elim (Bool-cases (eqb c 226 && (eqb b 128 && (eqb d 168 || eqb d 169)))) [
      | inl y ↦ inr (d, t, ground arith, ground arith, ground arith, rw y refl)
      | inr n ↦ inl (rw n refl)
    ]

abbrev pub without : ℕ → Bytes → Bytes
without zero s = s
without (suc n) [] = []
without (suc n) (c ∷ s) = without n s

some-prepend : (out text rest : Bytes) → prepend out (some (text, rest)) ≡ some (out ++ text, rest)
some-prepend out text rest = refl

-- The end of a literal.
pub closing : (rest : Bytes) → unquote_from (plainly none) (34 ∷ rest) ≡ some ([], rest)
unfolding unquote_from char_read
closing rest = refl

unquote_from-escape_from :
    (n : ℕ) (s rest : Bytes)
    → unquote_from (plainly none) (escape_from n s ++ 34 ∷ rest) ≡ some (without n s, rest)
unfolding escape_from
unquote_from-escape_from zero [] rest = closing rest
unquote_from-escape_from (suc n) [] rest = closing rest
unquote_from-escape_from (suc n) (c ∷ s) rest = unquote_from-escape_from n s rest
unquote_from-escape_from zero (c ∷ s) rest = elim (separator_cases c s) [
  | inl single ↦
      rw (single, escape_from)
        (ap (unquote_from (plainly none))
            (append_assoc (escape_byte c) (escape_from 0 s) (34 ∷ rest))
          ∙ escape_byte-goes c (escape_from 0 s ++ 34 ∷ rest) (escaped_lem c)
          ∙ ap (prepend (c ∷ [])) (unquote_from-escape_from 0 s rest))
  | inr (d, t, e, f, g, q) ↦
      rw (q, escape_from)
        (unquote_from-separator none d (escape_from 2 s ++ 34 ∷ rest) g
          ∙ ap (prepend (226 ∷ 128 ∷ d ∷ [])) (unquote_from-escape_from 2 s rest)
          ∙ rw (e, f) refl)
]

-- A decoded literal is the string that was encoded, whatever follows it.
pub unquote-encode_text : (s rest : Bytes) → unquote (escape_from 0 s ++ 34 ∷ rest) ≡ some (s, rest)
unfolding unquote
unquote-encode_text s rest = unquote_from-escape_from 0 s rest

-- A byte that a string literal holds as it is.
abbrev pub IsPlain : ℕ → Type 0
IsPlain c = (c ≢ 34) × (c ≢ 92) × (32 ≤ c)

pub unquote-plain :
    (text rest : Bytes)
    → All IsPlain text
    → unquote_from (plainly none) (text ++ 34 ∷ rest) ≡ some (text, rest)
unquote-plain [] rest h = closing rest
unquote-plain (c ∷ text) rest ((a, b, l), h) =
    unquote_from-goes (plainly none) (plainly none) c (c ∷ []) (text ++ 34 ∷ rest)
      (plain_byte c a b l)
    ∙ ap (prepend (c ∷ [])) (unquote-plain text rest h)
