-- ===== src/Session.antt =====
-- The signed session cookie of internal/auth/auth.go. The signature (HMAC-SHA256 in base64), base64
-- and JSON are arguments, the record Codec. Times are Unix seconds.
pub mod Cookie
use safe_road.Base.{
  ℕ, ◌+◌, Bool, true, false, not, Option, none, some, List, [], ◌∷◌, ◌++◌, ltb, if◌then◌else◌, Text,
  text_eq,
}
use safe_road.Strings.{split}

pub record SessionClaims : Type 0 where
  pub username : Text
  pub expires_at : ℕ

-- `sign_token` is `SignToken` of data and a secret, and `encode` and `decode` are those of
-- base64.RawURLEncoding.
pub record Codec : Type 0 where
  pub sign_token : Text → Text → Text
  pub encode : Text → Text
  pub decode : Text → Option Text
  pub marshal : SessionClaims → Text
  pub unmarshal : Text → Option SessionClaims

pub data Session : Type 0 where
  user : Text → Session
  invalid_token : Session
  expired_token : Session

unfoldable pub verify_token : Codec → Text → Text → Text → Bool
verify_token k data_of signature secret = text_eq signature (k.sign_token data_of secret)

unfoldable pub generate_session_cookie_value : Codec → Text → ℕ → Text → ℕ → Text
generate_session_cookie_value k username duration secret now =
    let claims : SessionClaims = record { username = username; expires_at = now + duration } in
    let payload = k.encode (k.marshal claims) in payload ++ b'.' ∷ k.sign_token payload secret

abbrev pub session_of : ℕ → Option SessionClaims → Session
session_of now none = invalid_token
session_of now (some claims) =
    if ltb claims.expires_at now then expired_token else user claims.username

abbrev pub claims_of : Codec → Option Text → Option SessionClaims
claims_of k none = none
claims_of k (some bytes) = k.unmarshal bytes

unfoldable pub verify_parts : Codec → Text → ℕ → List Text → Session
verify_parts k secret now (payload ∷ signature ∷ []) =
    if verify_token k payload signature secret
    then session_of now (claims_of k (k.decode payload))
    else invalid_token
verify_parts k secret now parts = invalid_token

unfoldable pub verify_session_cookie_value : Codec → Text → Text → ℕ → Session
verify_session_cookie_value k cookie secret now = verify_parts k secret now (split cookie b'.')
