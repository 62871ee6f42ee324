-- ===== src/Auth.antt =====
-- internal/auth/auth.go. The JWT library is a parameter: what it makes of a token, and a check that
-- stands for its verification. A request is its headers, as `c.Get` reads them: the empty string
-- where a header is missing.
pub mod Access
mod Tests
use xyllo.Base.{
  Bytes, codes, ◌==◌, Bool, true, false, not, ◌&&◌, Option, none, some, List, [], ◌∷◌, ℕ, eqb,
  if◌then◌else◌,
}
use xyllo.Config.{AuthConfig}
use xyllo.Xlerr.{Error, plain}

abbrev pub missing_credentials : Error
missing_credentials = plain (codes "auth: missing credentials")

abbrev pub invalid_api_key : Error
invalid_api_key = plain (codes "auth: invalid API key")

abbrev pub invalid_jwt : Error
invalid_jwt = plain (codes "auth: invalid or expired JWT")

abbrev pub unknown_mode : Error
unknown_mode = plain (codes "auth: unknown mode")

-- crypto/subtle: 1 exactly when the slices have the same length and contents.
constant_time_compare : Bytes → Bytes → ℕ
constant_time_compare x y = if x == y then 1 else 0

-- `none` is the nil error.
unfoldable pub validate_api_key : AuthConfig → Bytes → Option Error
unfolding constant_time_compare
validate_api_key cfg key =
    if key == []
    then some missing_credentials
    else if not (eqb (constant_time_compare cfg.api_key key) 1)
    then some invalid_api_key
    else none

unfoldable pub has_prefix : Bytes → Bytes → Bool
has_prefix s [] = true
has_prefix [] (p ∷ prefix) = false
has_prefix (c ∷ s) (p ∷ prefix) = eqb c p && has_prefix s prefix

unfoldable pub trim_prefix : Bytes → Bytes → Bytes
trim_prefix s [] = s
trim_prefix [] (p ∷ prefix) = []
trim_prefix (c ∷ s) (p ∷ prefix) = trim_prefix s prefix

abbrev pub bearer : Bytes
bearer = codes "Bearer "

pub data Bearer : Type 0 where
  token : Bytes → Bearer
  refused : Error → Bearer

unfoldable pub extract_bearer : Bytes → Bearer
unfolding has_prefix trim_prefix
extract_bearer header =
    if not (has_prefix header bearer)
    then refused missing_credentials
    else token (trim_prefix header bearer)

-- What the JWT library does with a token: `decode` reads it, without trust; `verifies key` says
-- whether the signature fits the key and the time claims hold, an expiry among them; `is_hmac` is
-- the type of the token's signing method, and `issuer` its claim `iss`, the empty string where the
-- claim is missing or no string. `is_map` says that the claims are MapClaims.
pub record JwtLibrary : Type 1 where
  pub Token : Type 0
  pub decode : Bytes → Option Token
  pub is_hmac : Token → Bool
  pub verifies : Bytes → Token → Bool
  pub is_map : Token → Bool
  pub issuer : Token → Bytes

pub data Decision : Type 0 where
  next : Decision
  unauthorized : Error → Decision

abbrev decide_by : Option Error → Decision
decide_by none = next
decide_by (some err) = unauthorized err

module _ (jwt : JwtLibrary) where
  open jwt use {Token, decode, is_hmac, verifies, is_map, issuer}

  -- The key that the callback of `jwt.Parse` returns for a token.
  key_for : AuthConfig → Token → Option Bytes
  key_for cfg t = if not (is_hmac t) then none else some cfg.jwt_secret

  verified : Token → Option Bytes → Option Token
  verified t none = none
  verified t (some key) = if verifies key t then some t else none

  -- `jwt.Parse` with the callback: the token if it is valid, and `none` for an error.
  parse_decoded : AuthConfig → Option Token → Option Token
  unfolding key_for verified
  parse_decoded cfg none = none
  parse_decoded cfg (some t) = verified t (key_for cfg t)

  check_issuer : AuthConfig → Option Token → Option Error
  check_issuer cfg none = some invalid_jwt
  check_issuer cfg (some t) =
      if cfg.jwt_issuer == []
      then none
      else if not (is_map t)
      then some invalid_jwt
      else if not (issuer t == cfg.jwt_issuer)
      then some invalid_jwt
      else none

  unfoldable pub validate_jwt : AuthConfig → Bytes → Option Error
  unfolding parse_decoded check_issuer
  validate_jwt cfg text =
      if text == []
      then some missing_credentials
      else check_issuer cfg (parse_decoded cfg (decode text))

  check_bearer : AuthConfig → Bearer → Decision
  unfolding validate_jwt
  check_bearer cfg (refused err) = unauthorized err
  check_bearer cfg (token text) = decide_by (validate_jwt cfg text)

  -- The handler that `Middleware` returns.
  unfoldable pub authorize : AuthConfig → (Bytes → Bytes) → Decision
  unfolding check_bearer validate_api_key extract_bearer
  authorize cfg header =
      if cfg.auth_mode == codes "none"
      then next
      else if cfg.auth_mode == codes "apikey"
      then decide_by (validate_api_key cfg (header (codes "X-API-Key")))
      else if cfg.auth_mode == codes "jwt"
      then check_bearer cfg (extract_bearer (header (codes "Authorization")))
      else unauthorized unknown_mode
