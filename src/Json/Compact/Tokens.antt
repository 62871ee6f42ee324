-- ===== src/Json/Compact/Tokens.antt =====
-- The compaction of a raw message at what stands between its values.
use xyllo.Base.{
  Bytes, codes, true, false, ℕ, eqb, none, some, [], ◌∷◌, ◌≡◌, ◌≢◌, ◌⊎◌, refl, sym, ap, ◌∙◌, arith,
  inl, inr,
}
use xyllo.Json.Numbers.{is_space, skip_space, expect}
use xyllo.Json.Parse.{member_key, Behind, more, done, wrong, behind, behind_of, closed_at_once}
use xyllo.Json.Steps.Keys.{member_key_parts, parts-member_key}
use xyllo.Json.Encode.{outside, inside, compact_from}
use xyllo.Json.Compact.{
  compact_from-quote, compact_from-head, compact_from-skip_space, skip_space-compact_from,
  skip_space-cases,
}
use xyllo.Json.Kept.{IsKept}
use xyllo.Json.Compact.Strings.{unquote-compact}
use xyllo.Json.Compact.Literals.{compact_from-kept, expect-compact, Stops, stop-IsKept, skipped}

-- An empty array or object.
closed_some :
    (close : ℕ) (s rest : Bytes)
    → IsKept close
    → closed_at_once close s ≡ some rest
    → closed_at_once close (compact_from 0 outside s) ≡ some (compact_from 0 outside rest)
unfolding closed_at_once
closed_some close s rest k e =
    ap (expect (close ∷ [])) (skip_space-compact_from s ∙ sym (compact_from-skip_space s))
    ∙ expect-compact (close ∷ []) (skip_space s) rest (k, tt) e

expect-other : (close c : ℕ) (s : Bytes) → eqb close c ≡ false → expect (close ∷ []) (c ∷ s) ≡ none
unfolding expect
expect-other close c s n = rw n refl

expect-differs :
    (close c : ℕ) (s : Bytes) → expect (close ∷ []) (c ∷ s) ≡ none → eqb close c ≡ false
unfolding expect
expect-differs close c s e = ground arith

other_byte :
    (close c d : ℕ) → eqb close c ≡ false → close ≢ 92 → (d ≡ c) ⊎ (d ≡ 92) → eqb close d ≡ false
other_byte close c d n k h = ground arith

closed_none :
    (close : ℕ) (s : Bytes)
    → close ≢ 92
    → closed_at_once close s ≡ none
    → closed_at_once close (compact_from 0 outside s) ≡ none
unfolding closed_at_once compact_from expect
closed_none close s k e =
    ap (expect (close ∷ [])) (skip_space-compact_from s) ∙ elim (skip_space-cases s) [
      | inl h ↦ ap (expect (close ∷ [])) (skipped s [] h)
      | inr (c, t, h, sp) ↦
          let (d, u, head, either) = compact_from-head c t sp in
          ap (expect (close ∷ [])) (skipped s (c ∷ t) h ∙ head)
          ∙ expect-other close d u (
              other_byte close c d (expect-differs close c t (ap (expect (close ∷ [])) (sym h) ∙ e))
                k either)
    ]

pub closed_at_once-array :
    (s rest : Bytes)
    → closed_at_once b']' s ≡ some rest
    → closed_at_once b']' (compact_from 0 outside s) ≡ some (compact_from 0 outside rest)
closed_at_once-array s rest e = closed_some b']' s rest (stop-IsKept b']' (inr (inl refl))) e

pub closed_at_once-object :
    (s rest : Bytes)
    → closed_at_once b'}' s ≡ some rest
    → closed_at_once b'}' (compact_from 0 outside s) ≡ some (compact_from 0 outside rest)
closed_at_once-object s rest e = closed_some b'}' s rest (stop-IsKept b'}' (inr (inr refl))) e

pub open_array :
    (s : Bytes)
    → closed_at_once b']' s ≡ none
    → closed_at_once b']' (compact_from 0 outside s) ≡ none
open_array s e = closed_none b']' s (omega arith) e

pub open_object :
    (s : Bytes)
    → closed_at_once b'}' s ≡ none
    → closed_at_once b'}' (compact_from 0 outside s) ≡ none
open_object s e = closed_none b'}' s (omega arith) e

-- What follows an element.
abbrev behind_compact : Behind → Behind
behind_compact (more t) = more (compact_from 0 outside t)
behind_compact (done t) = done (compact_from 0 outside t)
behind_compact wrong = wrong

behind_of_cases :
    (close : ℕ) (s : Bytes) (x : Behind)
    → behind_of close s ≡ x
    → x ≢ wrong
    → (c : ℕ) × (t : Bytes) × (s ≡ c ∷ t)
      × (((c ≡ b',') × (x ≡ more t)) ⊎ ((eqb c b',' ≡ false) × (c ≡ close) × (x ≡ done t)))
unfolding behind_of
behind_of_cases close [] x e n = absurd (n (sym e))
behind_of_cases close (c ∷ t) x e n = (c, t, refl, ground arith)

behind_of-comma : (close : ℕ) (t : Bytes) → behind_of close (b',' ∷ t) ≡ more t
unfolding behind_of
behind_of-comma close t = refl

behind_of-close :
    (close : ℕ) (t : Bytes) → eqb close b',' ≡ false → behind_of close (close ∷ t) ≡ done t
unfolding behind_of
behind_of-close close t n = let same : eqb close close ≡ true = ground arith in rw (n, same) refl

closing_byte : (c close : ℕ) → c ≡ close → (close ≡ b']') ⊎ (close ≡ b'}') → (c ≡ b']') ⊎ (c ≡ b'}')
closing_byte c close e (inl h) = inl (e ∙ h)
closing_byte c close e (inr h) = inr (e ∙ h)

behind-compact :
    (close : ℕ) (s : Bytes) (x : Behind)
    → (close ≡ b']') ⊎ (close ≡ b'}')
    → behind close s ≡ x
    → x ≢ wrong
    → (behind close (compact_from 0 outside s) ≡ behind_compact x) × Stops s
unfolding behind Stops
behind-compact close s x k e n =
    let (c, t, head, cases) = behind_of_cases close (skip_space s) x e n in
    let skipped' = skip_space-compact_from s ∙ skipped s (c ∷ t) head in
    elim cases [
      | inl (comma, same) ↦ (
        rw same (
            ap (behind_of close) (
              skipped'
              ∙ compact_from-kept c t (stop-IsKept c (inl comma))
              ∙ ap (λ y. y ∷ compact_from 0 outside t) comma)
            ∙ behind_of-comma close (compact_from 0 outside t)),
        inr (c, t, head, inl comma),
      )
      | inr (m, closes, same) ↦ (
        rw same (
            ap (behind_of close) (
              skipped'
              ∙ compact_from-kept c t (stop-IsKept c (inr (closing_byte c close closes k)))
              ∙ ap (λ y. y ∷ compact_from 0 outside t) closes)
            ∙ behind_of-close close (compact_from 0 outside t)
                (ap (λ y. eqb y b',') (sym closes) ∙ m)),
        inr (c, t, head, inr (closing_byte c close closes k)),
      )
    ]

more_right : (t : Bytes) → more t ≢ wrong
more_right t e = absurd cc

done_right : (t : Bytes) → done t ≢ wrong
done_right t e = absurd cc

pub behind-more :
    (close : ℕ) (s t : Bytes)
    → (close ≡ b']') ⊎ (close ≡ b'}')
    → behind close s ≡ more t
    → (behind close (compact_from 0 outside s) ≡ more (compact_from 0 outside t)) × Stops s
behind-more close s t k e = behind-compact close s (more t) k e (more_right t)

pub behind-done :
    (close : ℕ) (s t : Bytes)
    → (close ≡ b']') ⊎ (close ≡ b'}')
    → behind close s ≡ done t
    → (behind close (compact_from 0 outside s) ≡ done (compact_from 0 outside t)) × Stops s
behind-done close s t k e = behind-compact close s (done t) k e (done_right t)

-- A member's key.
expect_byte : (c : ℕ) (s rest : Bytes) → expect (c ∷ []) s ≡ some rest → s ≡ c ∷ rest
unfolding expect
expect_byte c [] rest e = absurd cc
expect_byte c (d ∷ s) rest e = ground arith

quote_expected : (s : Bytes) → expect (34 ∷ []) (34 ∷ s) ≡ some s
unfolding expect
quote_expected s = refl

pub member_key-compact :
    (s key rest : Bytes)
    → member_key s ≡ some (key, rest)
    → member_key (compact_from 0 outside s) ≡ some (key, compact_from 0 outside rest)
unfolding is_space
member_key-compact s key rest e =
    let (s₁, s₂, opening, name, colon) = member_key_parts s key rest e in
    let quote_at =
      skip_space-compact_from s
      ∙ skipped s (34 ∷ s₁) (expect_byte 34 (skip_space s) s₁ opening)
      ∙ compact_from-quote s₁ in
    parts-member_key (compact_from 0 outside s) (compact_from 0 inside s₁) key
      (compact_from 0 outside s₂) (compact_from 0 outside rest)
      (ap (expect (34 ∷ [])) quote_at ∙ quote_expected (compact_from 0 inside s₁))
      (unquote-compact s₁ key s₂ name)
      (ap (expect (codes ":")) (skip_space-compact_from s₂ ∙ sym (compact_from-skip_space s₂))
        ∙ expect-compact (codes ":") (skip_space s₂) rest ((omega arith, omega arith, refl), tt)
            colon)
