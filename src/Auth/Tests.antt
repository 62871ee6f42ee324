-- ===== src/Auth/Tests.antt =====
-- Requests with a key and with tokens, against a library that knows one token.
use xyllo.Base.{Bytes, codes, ◌==◌, true, false, none, some, [], ◌≡◌, ◌↔◌, refl, if◌then◌else◌}
use xyllo.Config.{AuthConfig}
use xyllo.Auth.{JwtLibrary, next, unauthorized, authorize, missing_credentials, invalid_jwt}
use xyllo.Auth.Access.{Admitted, authorize_iff}

-- Its tokens are their texts; "good" is signed with the secret "s3" and issued by "xyllo".
abbrev library : JwtLibrary
library = record {
  Token = Bytes;
  decode = λ text. if text == codes "garbage" then none else some text;
  is_hmac = λ t. true;
  verifies = λ key t. if t == codes "good" then key == codes "s3" else false;
  is_map = λ t. true;
  issuer = λ t. codes "xyllo";
}

abbrev by_token : AuthConfig
by_token = record {
  auth_mode = codes "jwt";
  api_key = [];
  jwt_secret = codes "s3";
  jwt_issuer = codes "xyllo";
}

abbrev sends : Bytes → Bytes → Bytes
sends value name = if name == codes "Authorization" then value else []

decisions :
    (authorize library by_token (sends (codes "Bearer good")) ≡ next)
    × (authorize library by_token (sends (codes "Bearer bad")) ≡ unauthorized invalid_jwt)
    × (authorize library by_token (sends (codes "Bearer garbage")) ≡ unauthorized invalid_jwt)
    × (authorize library by_token (sends (codes "Basic good")) ≡ unauthorized missing_credentials)
unfolding authorize ◌==◌
decisions = (refl, refl, refl, refl)

authorize_iff_example :
    (authorize library by_token (sends (codes "Bearer good")) ≡ next)
    ↔ Admitted library by_token (sends (codes "Bearer good"))
authorize_iff_example = authorize_iff library by_token (sends (codes "Bearer good"))
