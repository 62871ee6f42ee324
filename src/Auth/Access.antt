-- ===== src/Auth/Access.antt =====
-- Who gets in.
use xyllo.Base.{
  Bytes, codes, ◌==◌, ==_iff, true, false, Option, none, some, [], ◌∷◌, ◌++◌, ◌≡◌, ◌≢◌, ◌↔◌, inl,
  inr, refl, arith, Bool-cases, ap, ◌∙◌,
}
use xyllo.Config.{AuthConfig}
use xyllo.Auth.{
  validate_api_key, has_prefix, trim_prefix, bearer, Bearer, token, refused, extract_bearer,
  JwtLibrary, next, parse_decoded, check_issuer, validate_jwt, check_bearer, authorize,
}

validate_api_key_iff :
    (cfg : AuthConfig) (key : Bytes)
    → (validate_api_key cfg key ≡ none) ↔ ((key ≢ []) × (key ≡ cfg.api_key))
unfolding validate_api_key
validate_api_key_iff cfg key = ground (arith, ==_iff key [], ==_iff cfg.api_key key)

prefix_split : (s p : Bytes) → has_prefix s p ≡ true → s ≡ p ++ trim_prefix s p
unfolding has_prefix trim_prefix
prefix_split s [] e = refl
prefix_split [] (p ∷ prefix) e = cc
prefix_split (c ∷ s) (p ∷ prefix) e = ground (arith, prefix_split s prefix)

trim_prefix-append : (p s : Bytes) → (has_prefix (p ++ s) p ≡ true) × (trim_prefix (p ++ s) p ≡ s)
unfolding has_prefix trim_prefix
trim_prefix-append [] s = (refl, refl)
trim_prefix-append (c ∷ p) s = ground (arith, trim_prefix-append p s)

-- The header is the word Bearer, a space and the token, exactly when a token is extracted.
extract_bearer_iff :
    (header text : Bytes) → (extract_bearer header ≡ token text) ↔ (header ≡ bearer ++ text)
unfolding extract_bearer
extract_bearer_iff header text = (
  λ e. elim (Bool-cases (has_prefix header bearer)) [
    | inl there ↦
        let rest : trim_prefix header bearer ≡ text = ground arith in
        prefix_split header bearer there ∙ ap (◌++◌ bearer) rest
    | inr missing ↦ absurd (ground arith)
  ],
  λ e. rw e refl,
)

module _ (jwt : JwtLibrary) (cfg : AuthConfig) where
  open jwt use {Token, decode, is_hmac, verifies, is_map, issuer}

  -- A token that is worth trusting: it is signed with a method of the HMAC family and with the
  -- configured secret, its time claims hold, and where an issuer is configured it is the token's.
  pub record IsTrusted (text : Bytes) : Type 0 where
    pub token : Token
    pub decoded : decode text ≡ some token
    pub hmac : is_hmac token ≡ true
    pub signed : verifies cfg.jwt_secret token ≡ true
    pub issued : cfg.jwt_issuer ≢ [] → (is_map token ≡ true) × (issuer token ≡ cfg.jwt_issuer)

  check_issuer_iff :
      (t : Token)
      → (check_issuer jwt cfg (some t) ≡ none)
        ↔ (cfg.jwt_issuer ≢ [] → (is_map t ≡ true) × (issuer t ≡ cfg.jwt_issuer))
  unfolding check_issuer
  check_issuer_iff t = ground (arith, ==_iff cfg.jwt_issuer [], ==_iff (issuer t) cfg.jwt_issuer)

  check_issuer-none : check_issuer jwt cfg none ≢ none
  unfolding check_issuer
  check_issuer-none e = cc

  parsed_token-IsTrusted :
      (text : Bytes) (o : Option Token)
      → decode text ≡ o
      → check_issuer jwt cfg (parse_decoded jwt cfg o) ≡ none
      → IsTrusted text
  unfolding parse_decoded
  parsed_token-IsTrusted text none d e = absurd (check_issuer-none e)
  parsed_token-IsTrusted text (some t) d e = elim (Bool-cases (is_hmac t)) [
    | inr other ↦ absurd (ground (arith, check_issuer-none))
    | inl hmac ↦ elim (Bool-cases (verifies cfg.jwt_secret t)) [
      | inr forged ↦ absurd (ground (arith, check_issuer-none))
      | inl signed ↦ record {
        token = t;
        decoded = d;
        hmac = hmac;
        signed = signed;
        issued = (check_issuer_iff t).0 (ground arith);
      }
    ]
  ]

  validate_jwt_iff :
      (text : Bytes) → (validate_jwt jwt cfg text ≡ none) ↔ ((text ≢ []) × IsTrusted text)
  unfolding validate_jwt
  validate_jwt_iff text = (
    λ e. elim (Bool-cases (text == [])) [
      | inl empty ↦ absurd (ground arith)
      | inr named ↦ (
        λ q. ground (arith, ==_iff text []),
        parsed_token-IsTrusted text (decode text) refl (ground arith),
      )
    ],
    λ v.
        let named = v.0 in
        let trusted = v.1 in
        let issued = (check_issuer_iff trusted.token).1 trusted.issued in
        rw (trusted.decoded, trusted.hmac, trusted.signed, issued) (ground (arith, ==_iff text [])),
  )

  -- What lets a request in.
  pub data Admitted (header : Bytes → Bytes) : Type 0 where
    open_door : cfg.auth_mode ≡ codes "none" → Admitted header
    with_key :
        cfg.auth_mode ≡ codes "apikey"
        → header (codes "X-API-Key") ≢ []
        → header (codes "X-API-Key") ≡ cfg.api_key
        → Admitted header
    with_token :
        (text : Bytes)
        → cfg.auth_mode ≡ codes "jwt"
        → header (codes "Authorization") ≡ bearer ++ text
        → text ≢ []
        → IsTrusted text
        → Admitted header

module _ (jwt : JwtLibrary) (cfg : AuthConfig) (header : Bytes → Bytes) where
  check_bearer_sound :
      (b : Bearer)
      → check_bearer jwt cfg b ≡ next
      → (text : Bytes) × (b ≡ token text) × (validate_jwt jwt cfg text ≡ none)
  unfolding check_bearer
  check_bearer_sound (refused err) e = absurd (ground arith)
  check_bearer_sound (token text) e = (text, refl, ground arith)

  authorize_sound : authorize jwt cfg header ≡ next → Admitted jwt cfg header
  unfolding authorize
  authorize_sound e = elim (Bool-cases (cfg.auth_mode == codes "none")) [
    | inl n ↦ open_door ((==_iff _ _).0 n)
    | inr not_none ↦ elim (Bool-cases (cfg.auth_mode == codes "apikey")) [
      | inl k ↦
          let (given, same) =
            (validate_api_key_iff cfg (header (codes "X-API-Key"))).0 (ground arith) in
          with_key ((==_iff _ _).0 k) given same
      | inr not_key ↦ elim (Bool-cases (cfg.auth_mode == codes "jwt")) [
        | inl j ↦
            let (text, there, good) =
              check_bearer_sound (extract_bearer (header (codes "Authorization"))) (ground arith) in
            let (named, trusted) = (validate_jwt_iff jwt cfg text).0 good in
            with_token text ((==_iff _ _).0 j) ((extract_bearer_iff _ text).0 there) named trusted
        | inr unknown ↦ absurd (ground arith)
      ]
    ]
  ]

  mode_tests :
      (mode : Bytes)
      → (mode ≡ codes "none" → (mode == codes "none") ≡ true)
        × (mode ≡ codes "apikey"
            → ((mode == codes "none") ≡ false) × ((mode == codes "apikey") ≡ true))
        × (mode ≡ codes "jwt"
            → ((mode == codes "none") ≡ false)
              × ((mode == codes "apikey") ≡ false)
              × ((mode == codes "jwt") ≡ true))
  unfolding ◌==◌
  mode_tests mode = (λ e. rw e refl, λ e. rw e (refl, refl), λ e. rw e (refl, refl, refl))

  authorize_complete : Admitted jwt cfg header → authorize jwt cfg header ≡ next
  unfolding authorize
  authorize_complete (open_door m) = let here = (mode_tests cfg.auth_mode).0 m in ground arith
  authorize_complete (with_key m given same) =
      let good = (validate_api_key_iff cfg (header (codes "X-API-Key"))).1 (given, same) in
      let here = (mode_tests cfg.auth_mode).1 m in ground arith
  authorize_complete (with_token text m there named trusted) =
      let good = (validate_jwt_iff jwt cfg text).1 (named, trusted) in
      let found = (extract_bearer_iff _ text).1 there in
      let here = (mode_tests cfg.auth_mode).2 m in rw (here.0, here.1, here.2, found) (ground arith)

-- A request gets past the authentication exactly when the mode is "none"; or the mode is "apikey"
-- and its X-API-Key header is the configured key and not empty; or the mode is "jwt" and its
-- Authorization header is the word Bearer, a space and a non-empty token that the JWT library
-- decodes, whose method is of the HMAC family, which verifies under the configured secret, and
-- whose issuer is the configured one, if one is configured. An unknown mode lets nobody in.
pub authorize_iff :
    (jwt : JwtLibrary) (cfg : AuthConfig) (header : Bytes → Bytes)
    → (authorize jwt cfg header ≡ next) ↔ Admitted jwt cfg header
authorize_iff jwt cfg header = (authorize_sound jwt cfg header, authorize_complete jwt cfg header)
