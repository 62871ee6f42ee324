-- ===== src/Config/Durations/Batchers.antt =====
-- What UnmarshalYAML makes of the batcher's section.
use xyllo.Base.{
  Bytes, All, ◌∷◌, ℕ, ◌*◌, ◌==◌, ==_iff, ◌^◌, ◌<◌, ◌≤◌, ℤ, pos, pos_part, neg_part, Option, none,
  some, [], ◌≡◌, ◌≢◌, ◌⊎◌, inl, inr, refl, ◌∙◌, arith, Bool-cases, subst, false, ◌≤ℤ◌,
}
use xyllo.Xlerr.{Error}
use xyllo.Config.{BatcherConfig, Config}
use xyllo.Config.Durations.{
  Plain, unmarshalled, unmarshal_yaml, with_interval, parse_duration, unit_of, is_numeric,
}
use xyllo.Config.Load.{validate}
use xyllo.Config.Load.Validation.{validate_iff}
use xyllo.Config.Durations.Reading.{parse_duration-fits, parse_duration-decimal, at_most}
use xyllo.Json.Encode.{decimal_on}
use xyllo.Json.Encode.Decimal.{decimal_on-start}

-- The interval is the old one where the section has none, and else what its text says, in the range
-- of an int64.
abbrev pub Interval : Bytes → ℤ → ℤ → Type 0
Interval text old new =
    ((text ≡ []) × (new ≡ old))
    ⊎ ((text ≢ [])
        × (parse_duration text ≡ some new)
        × (pos_part new < 2 ^ 63)
        × (neg_part new ≤ 2 ^ 63))

same_section : (a c : BatcherConfig) → unmarshalled a ≡ unmarshalled c → a ≡ c
same_section a c e = cc

parsed-Interval :
    (time_error : Bytes → Error) (text : Bytes) (b b' : BatcherConfig) (o : Option ℤ)
    → text ≢ []
    → parse_duration text ≡ o
    → with_interval time_error text b o ≡ unmarshalled b'
    → (b'.max_size ≡ b.max_size) × Interval text b.flush_interval b'.flush_interval
unfolding with_interval
parsed-Interval time_error text b b' none n e h = absurd cc
parsed-Interval time_error text b b' (some d) n e h =
    subst (λ c. (c.max_size ≡ b.max_size) × Interval text b.flush_interval c.flush_interval)
      (same_section (record b { flush_interval = d }) b' h)
      (let (low, high) = parse_duration-fits text d e in (refl, inr (n, e, low, high)))

not_empty : (text : Bytes) → (text == []) ≡ false → text ≢ []
not_empty text n = ground (arith, ==_iff text [])

too_small : (i : ℤ) → i ≡ pos 0 → pos 1 ≤ℤ i → ⊥
too_small i e l = ground arith

-- When UnmarshalYAML returns no error, the batcher's size is the decoded one, zero where the section
-- has none; and its interval is the old one where the section has none, and else the duration that
-- its text says, in the range of an int64.
pub unmarshal_yaml-Interval :
    (time_error : Bytes → Error) (p : Plain) (b b' : BatcherConfig)
    → unmarshal_yaml time_error (inl p) b ≡ unmarshalled b'
    → (b'.max_size ≡ p.max_size) × Interval p.flush_interval b.flush_interval b'.flush_interval
unfolding unmarshal_yaml
unmarshal_yaml-Interval time_error p b b' h = elim (Bool-cases (p.flush_interval == [])) [
  | inl y ↦
      subst
        (λ c.
          (c.max_size ≡ p.max_size) × Interval p.flush_interval b.flush_interval c.flush_interval)
        (same_section (record b { max_size = p.max_size }) b' (rw y at h))
        (refl, inl ((==_iff p.flush_interval []).0 y, refl))
  | inr n ↦
      parsed-Interval time_error p.flush_interval (record b { max_size = p.max_size }) b'
        (parse_duration p.flush_interval) (not_empty p.flush_interval n) refl (rw n at h)
]

-- A section without a max_size makes the whole configuration invalid: the default is overwritten by
-- zero, which validate refuses.
pub unmarshal_yaml-missing_size :
    (time_error : Bytes → Error) (p : Plain) (cfg : Config) (b' : BatcherConfig)
    → p.max_size ≡ pos 0
    → unmarshal_yaml time_error (inl p) cfg.batcher ≡ unmarshalled b'
    → validate (record cfg { batcher = b' }) ≢ none
unmarshal_yaml-missing_size time_error p cfg b' z h v =
    let (size, interval) = unmarshal_yaml-Interval time_error p cfg.batcher b' h in
    let sized = ((validate_iff (record cfg { batcher = b' })).0 v).sizes.max_size in
    too_small b'.max_size (size ∙ z) sized

empty_not : (t : Bytes) (c : ℕ) (s : Bytes) → t ≡ c ∷ s → (t == []) ≡ false
unfolding ◌==◌
empty_not t c s e = rw e refl

decimal_on-full :
    (n : ℕ) (u : Bytes) (unit : ℕ)
    → n ≤ n * unit
    → n * unit < 2 ^ 63
    → (decimal_on 20 n u == []) ≡ false
decimal_on-full n u unit k l =
    let (c, s, e, low, high) = decimal_on-start n u (omega arith) in
    empty_not (decimal_on 20 n u) c s e

-- An interval that is written as a decimal number and a unit is read as that many of the unit.
pub unmarshal_yaml-decimal :
    (time_error : Bytes → Error) (size : ℤ) (n unit : ℕ) (u : Bytes) (b : BatcherConfig)
    → All (λ c. is_numeric c ≡ false) u
    → u ≢ []
    → unit_of u ≡ some unit
    → 1 ≤ unit
    → n * unit < 2 ^ 63
    → unmarshal_yaml time_error
        (inl (record { max_size = size; flush_interval = decimal_on 20 n u }))
        b
      ≡ unmarshalled (record { max_size = size; flush_interval = pos (n * unit) })
unfolding unmarshal_yaml with_interval
unmarshal_yaml-decimal time_error size n unit u b names full known k l =
    let full' = decimal_on-full n u unit (at_most n unit k) l in
    rw (full', parse_duration-decimal n u unit names full known k l) refl
