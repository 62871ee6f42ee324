-- ===== src/Json/Steps/Keys.antt =====
-- The readings that a member key's reading is made of.
use xyllo.Base.{Bytes, codes, Option, some, [], ◌∷◌, ◌≡◌, refl, ap, ◌∙◌}
use xyllo.Json.Numbers.{skip_space, expect}
use xyllo.Json.Texts.{unquote}
use xyllo.Json.Parse.{member_key}
use xyllo.Json.Steps.{bind-some, bind-is}

same_key :
    (key' s₃ key rest : Bytes)
    → ◌≡◌ {A = Option (Bytes × Bytes)} (some (key', s₃)) (some (key, rest))
    → (key' ≡ key) × (s₃ ≡ rest)
same_key key' s₃ key rest e = (cc, cc)

pub member_key_parts :
    (s key rest : Bytes)
    → member_key s ≡ some (key, rest)
    → (s₁ : Bytes) × (s₂ : Bytes) × (expect (34 ∷ []) (skip_space s) ≡ some s₁)
      × (unquote s₁ ≡ some (key, s₂))
      × (expect (codes ":") (skip_space s₂) ≡ some rest)
unfolding member_key
member_key_parts s key rest e =
    let (s₁, opening, e₁) = bind-some (expect (34 ∷ []) (skip_space s)) _ (key, rest) e in
    let ((key', s₂), name, e₂) = bind-some (unquote s₁) _ (key, rest) e₁ in
    let (s₃, colon, e₃) = bind-some (expect (codes ":") (skip_space s₂)) _ (key, rest) e₂ in
    let (same, all) = same_key key' s₃ key rest e₃ in
    (s₁, s₂, opening, name ∙ ap (λ k. some (k, s₂)) same, colon ∙ ap some all)

pub parts-member_key :
    (s s₁ key s₂ rest : Bytes)
    → expect (34 ∷ []) (skip_space s) ≡ some s₁
    → unquote s₁ ≡ some (key, s₂)
    → expect (codes ":") (skip_space s₂) ≡ some rest
    → member_key s ≡ some (key, rest)
unfolding member_key
parts-member_key s s₁ key s₂ rest opening name colon =
    bind-is (expect (34 ∷ []) (skip_space s)) _ s₁ _ opening (
      bind-is (unquote s₁) _ (key, s₂) _ name
        (bind-is (expect (codes ":") (skip_space s₂)) _ rest _ colon refl))
