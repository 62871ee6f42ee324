-- ===== src/Json/Compact/Strings.antt =====
-- The compaction of a raw message inside of string literals.
use xyllo.Base.{
  Bytes, codes, ◌++◌, ℕ, zero, suc, ◌+◌, ◌-◌, ◌≤◌, Option, none, some, [], ◌∷◌, ◌≡◌, ◌⊎◌, refl, sym,
  ap, subst, ◌∙◌, arith, inl, inr,
}
use xyllo.Json.Texts.{
  Mode, plainly, escape, hex, hex_digit, hex_read, escape_read, unpaired, broken, closes, char_read,
  unquote_from, unquote, prepend, escaped as unescaped,
}
use xyllo.Json.Encode.{outside, inside, place_after, compact_byte, compact_from, unicode_escape}
use xyllo.Json.Encode.Quoted.{
  unquote_from-goes, unquote_from-unicode_escape, unquote_from-separator, separator_cases, without,
}
use xyllo.Json.Compact.{compact_from-byte, compact_from-separator}
use xyllo.Json.Compact.Characters.{place_of, Kept, fails, ends, keeps, rewrites, char_read-Kept}

prepend-some :
    (out t rest : Bytes) (o : Option (Bytes × Bytes))
    → prepend out o ≡ some (t, rest)
    → (t' : Bytes) × (o ≡ some (t', rest)) × (out ++ t' ≡ t)
prepend-some out t rest none e = absurd cc
prepend-some out t rest (some (t', rest')) e = (t', cc, cc)

unquote_from-broken :
    (m : Mode) (c : ℕ) (s : Bytes) → char_read m c ≡ broken → unquote_from m (c ∷ s) ≡ none
unfolding unquote_from
unquote_from-broken m c s e = rw (e, unquote_from) refl

unquote_from-closes :
    (m : Mode) (c : ℕ) (s out : Bytes)
    → char_read m c ≡ closes out
    → unquote_from m (c ∷ s) ≡ some (out, s)
unfolding unquote_from
unquote_from-closes m c s out e = rw (e, unquote_from) refl

-- A literal that is read from `s` is read from what `s` is compacted to.
abbrev Reads : Mode → Bytes → Bytes → Type 0
Reads m s s' =
    (t rest : Bytes)
    → unquote_from m s ≡ some (t, rest)
    → unquote_from m s' ≡ some (t, compact_from 0 outside rest)

-- A literal that is read behind a character that was kept or rewritten.
goes-Reads :
    (m m' : Mode) (s s' s₁ s₁' out : Bytes)
    → unquote_from m s ≡ prepend out (unquote_from m' s₁)
    → unquote_from m s' ≡ prepend out (unquote_from m' s₁')
    → Reads m' s₁ s₁'
    → Reads m s s'
goes-Reads m m' s s' s₁ s₁' out e e' h t rest q =
    let (t', o, joined) = prepend-some out t rest (unquote_from m' s₁) (sym e ∙ q) in
    e' ∙ rw (h t' rest o, joined) refl

ended :
    (o o' : Option (Bytes × Bytes)) (out s t rest : Bytes)
    → o ≡ some (out, s)
    → o' ≡ some (out, compact_from 0 outside s)
    → o ≡ some (t, rest)
    → o' ≡ some (t, compact_from 0 outside rest)
ended o o' out s t rest e e' q = cc

never : {A : Type 0} (o : Option A) (a : A) {B : Type 0} → o ≡ none → o ≡ some a → B
never o a e q = absurd cc

byte-Reads :
    (m : Mode) (c : ℕ) (s : Bytes)
    → Kept m c
    → ((m' : Mode) → Reads m' s (compact_from 0 (place_of m') s))
    → Reads m (c ∷ s) (compact_byte (place_of m) c ++ compact_from 0 (place_after (place_of m) c) s)
byte-Reads m c s (fails e) h =
    λ t rest q. never (unquote_from m (c ∷ s)) (t, rest) (unquote_from-broken m c s e) q
byte-Reads m c s (ends out e kept place) h =
    rw (kept, place)
      (λ t rest.
        ended (unquote_from m (c ∷ s)) (unquote_from m (c ∷ compact_from 0 outside s)) out s t rest
          (unquote_from-closes m c s out e)
          (unquote_from-closes m c (compact_from 0 outside s) out e))
byte-Reads m c s (keeps m' out e kept place) h =
    rw (kept, place)
      (goes-Reads m m' (c ∷ s) (c ∷ compact_from 0 (place_of m') s) s
        (compact_from 0 (place_of m') s) out (unquote_from-goes m m' c out s e)
        (unquote_from-goes m m' c out (compact_from 0 (place_of m') s) e) (h m'))
byte-Reads m c s (rewrites high is l e written place) h =
    rw (is, written, place)
      (goes-Reads (plainly high) (plainly none) (c ∷ s)
        (unicode_escape c ++ compact_from 0 inside s) s (compact_from 0 inside s)
        (unpaired high ++ c ∷ [])
        (unquote_from-goes (plainly high) (plainly none) c (unpaired high ++ c ∷ []) s
          (ap (λ k. char_read k c) (sym is) ∙ e))
        (unquote_from-unicode_escape high c (compact_from 0 inside s) l) (h (plainly none)))

-- Bytes from 128 on stand in a literal only as themselves.
high_byte :
    (m : Mode) (c : ℕ)
    → 128 ≤ c
    → (char_read m c ≡ broken) ⊎ ((high : Option ℕ) × (m ≡ plainly high))
unfolding char_read escape_read unescaped hex_read hex_digit
high_byte (plainly high) c l = inr (high, refl)
high_byte (escape high) c l = inl (ground arith)
high_byte (hex high zero acc) c l = inl (ground arith)
high_byte (hex high (suc left) acc) c l = inl (ground arith)

three_prepends :
    (high : Option ℕ) (d : ℕ) (o : Option (Bytes × Bytes))
    → prepend (unpaired high ++ 226 ∷ []) (prepend (128 ∷ []) (prepend (d ∷ []) o))
      ≡ prepend (unpaired high ++ 226 ∷ 128 ∷ d ∷ []) o
three_prepends none d none = refl
three_prepends none d (some (t, rest)) = refl
three_prepends (some h) d none = refl
three_prepends (some h) d (some (t, rest)) = refl

three_bytes :
    (high : Option ℕ) (d : ℕ) (t : Bytes)
    → (d ≡ 168) ⊎ (d ≡ 169)
    → unquote_from (plainly high) (226 ∷ 128 ∷ d ∷ t)
      ≡ prepend (unpaired high ++ 226 ∷ 128 ∷ d ∷ []) (unquote_from (plainly none) t)
unfolding unquote_from char_read
three_bytes high d t (inl e) = rw e (three_prepends high 168 (unquote_from (plainly none) t))
three_bytes high d t (inr e) = rw e (three_prepends high 169 (unquote_from (plainly none) t))

separator-Reads :
    (m : Mode) (c d : ℕ) (s t s' : Bytes)
    → c ≡ 226
    → s ≡ 128 ∷ d ∷ t
    → (d ≡ 168) ⊎ (d ≡ 169)
    → Reads (plainly none) t s'
    → Reads m (c ∷ s) (codes "\\u202" ++ (d - 168 + b'8') ∷ s')
separator-Reads m c d s t s' e f g h = elim (high_byte m c (omega arith)) [
  | inl b ↦
      λ text rest q. never (unquote_from m (c ∷ s)) (text, rest) (unquote_from-broken m c s b) q
  | inr (high, is) ↦
      rw (is, e, f)
        (goes-Reads (plainly high) (plainly none) (226 ∷ 128 ∷ d ∷ t)
          (codes "\\u202" ++ (d - 168 + b'8') ∷ s') t s' (unpaired high ++ 226 ∷ 128 ∷ d ∷ [])
          (three_bytes high d t g) (unquote_from-separator high d s' g) h)
]

-- A literal is read from its compaction, and then comes the compaction of what follows it.
compact_from-Reads :
    (n : ℕ) (m : Mode) (s : Bytes) → Reads m (without n s) (compact_from n (place_of m) s)
unfolding compact_from unquote_from
compact_from-Reads zero m [] = λ t rest q. absurd cc
compact_from-Reads (suc n) m [] = λ t rest q. absurd cc
compact_from-Reads (suc n) m (c ∷ s) = compact_from-Reads n m s
compact_from-Reads zero m (c ∷ s) = elim (separator_cases c s) [
  | inl e ↦
      rw (compact_from-byte (place_of m) c s e)
        (byte-Reads m c s (char_read-Kept m c) (λ m'. compact_from-Reads 0 m' s))
  | inr (d, t, e, f, g, q) ↦
      let rest : Reads (plainly none) t (compact_from 2 inside s) =
        subst (λ x. Reads (plainly none) x (compact_from 2 inside s)) (ap (without 2) f)
          (compact_from-Reads 2 (plainly none) s) in
      rw (compact_from-separator (place_of m) c s (d - 168 + b'8') q)
        (separator-Reads m c d s t (compact_from 2 inside s) e f g rest)
]

pub unquote-compact :
    (s t rest : Bytes)
    → unquote s ≡ some (t, rest)
    → unquote (compact_from 0 inside s) ≡ some (t, compact_from 0 outside rest)
unfolding unquote
unquote-compact s t rest = compact_from-Reads 0 (plainly none) s t rest
