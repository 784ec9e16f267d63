-- ===== src/Session/Cookie.antt =====
-- The round trip and the authenticity of the session cookie of internal/auth/auth.go.
use safe_road.Base.{
  ℕ, ◌+◌, ◌≡◌, refl, arith, ◌∙◌, ap, sym, false, Option, none, some, List, [], ◌∷◌, ◌++◌, ltb,
  if◌then◌else◌, ◌==◌, Text, text_eq, text_eq_refl, text_eq_sound, inl, inr, Bool-cases,
}
use safe_road.Strings.{contains_rune, split, join, cons_first}
use safe_road.Strings.Split.{join-split}
use safe_road.Session.{
  SessionClaims, Codec, Session, user, invalid_token, expired_token, verify_token,
  generate_session_cookie_value, session_of, claims_of, verify_parts, verify_session_cookie_value,
}

-- What the code relies on: what is encoded decodes, and neither base64 nor a signature in base64 has
-- a dot.
pub record IsCodec (k : Codec) : Type 0 where
  pub decode-encode : (t : Text) → k.decode (k.encode t) ≡ some t
  pub unmarshal-marshal : (c : SessionClaims) → k.unmarshal (k.marshal c) ≡ some c
  pub plain_encode : (t : Text) → contains_rune (k.encode t) b'.' ≡ false
  pub plain_sign : (t secret : Text) → contains_rune (k.sign_token t secret) b'.' ≡ false

split_plain : (s : Text) (sep : ℕ) → contains_rune s sep ≡ false → split s sep ≡ s ∷ []
unfolding split contains_rune
split_plain [] sep h = refl
split_plain (c ∷ s) sep h =
    let k : ((c == sep) ≡ false) × (contains_rune s sep ≡ false) = ground (arith, h) in
    rw k.0 (ap (cons_first c) (split_plain s sep k.1))

split_two :
    (s t : Text) (sep : ℕ)
    → contains_rune s sep ≡ false
    → contains_rune t sep ≡ false
    → split (s ++ sep ∷ t) sep ≡ s ∷ t ∷ []
unfolding split contains_rune
split_two [] t sep h k = rw (split_plain t sep k) (ground arith)
split_two (c ∷ s) t sep h k =
    let j : ((c == sep) ≡ false) × (contains_rune s sep ≡ false) = ground (arith, h) in
    rw j.0 (ap (cons_first c) (split_two s t sep j.1 k))

-- A cookie that was generated for a user is taken for that user's until its time is over, and for
-- an expired one afterwards.
pub verify-generate :
    (k : Codec) (username secret : Text) (duration now later : ℕ)
    → IsCodec k
    → verify_session_cookie_value k
        (generate_session_cookie_value k username duration secret now)
        secret
        later
      ≡ (if ltb (now + duration) later then expired_token else user username)
unfolding verify_session_cookie_value generate_session_cookie_value verify_parts verify_token
verify-generate k username secret duration now later c =
    let claims : SessionClaims = record { username = username; expires_at = now + duration } in
    let payload = k.encode (k.marshal claims) in
    let signature = k.sign_token payload secret in
    let parts =
      split_two payload signature b'.' (c.plain_encode (k.marshal claims))
        (c.plain_sign payload secret) in
    ap (verify_parts k secret later) parts
    ∙ rw (text_eq_refl signature)
        (rw (c.decode-encode (k.marshal claims)) (rw (c.unmarshal-marshal claims) refl))

abbrev name_or : Text → Session → Text
name_or other (user u) = u
name_or other s = other

from_claims :
    (now : ℕ) (o : Option SessionClaims) {u : Text}
    → session_of now o ≡ user u
    → (claims : SessionClaims) × (o ≡ some claims)
      × (claims.username ≡ u)
      × (ltb claims.expires_at now ≡ false)
from_claims now none e = absurd cc
from_claims now (some claims) {u} e = elim (Bool-cases (ltb claims.expires_at now)) [
  | inl h ↦ let late : session_of now (some claims) ≡ expired_token = rw h refl in absurd cc
  | inr h ↦
      let named : session_of now (some claims) ≡ user claims.username = rw h refl in
      (claims, refl, ap (name_or u) (sym named ∙ e), h)
]

-- What stands in a cookie of two parts that is taken for a user's.
abbrev IsSigned : Codec → Text → Text → Text → ℕ → Text → Type 0
IsSigned k payload signature secret now u =
    (signature ≡ k.sign_token payload secret)
    × ((claims : SessionClaims) × (claims_of k (k.decode payload) ≡ some claims)
        × (claims.username ≡ u)
        × (ltb claims.expires_at now ≡ false))

signed :
    (k : Codec) (payload signature secret : Text) (now : ℕ) {u : Text}
    → verify_parts k secret now (payload ∷ signature ∷ []) ≡ user u
    → IsSigned k payload signature secret now u
unfolding verify_parts verify_token
signed k payload signature secret now {u} e =
    elim (Bool-cases (text_eq signature (k.sign_token payload secret))) [
      | inr h ↦
          let refused : verify_parts k secret now (payload ∷ signature ∷ []) ≡ invalid_token =
            rw h refl in
          absurd cc
      | inl h ↦
          let taken : verify_parts k secret now (payload ∷ signature ∷ [])
              ≡ session_of now (claims_of k (k.decode payload)) =
            rw h refl in
          (
            text_eq_sound signature (k.sign_token payload secret) h,
            from_claims now (claims_of k (k.decode payload)) (sym taken ∙ e),
          )
    ]

from_parts :
    (k : Codec) (secret : Text) (now : ℕ) (parts : List Text) {u : Text}
    → verify_parts k secret now parts ≡ user u
    → (payload : Text) × (claims : SessionClaims) × (join parts b'.'
        ≡ payload ++ b'.' ∷ k.sign_token payload secret)
      × (claims_of k (k.decode payload) ≡ some claims)
      × (claims.username ≡ u)
      × (ltb claims.expires_at now ≡ false)
unfolding verify_parts join
from_parts k secret now [] e = absurd cc
from_parts k secret now (a ∷ []) e = absurd cc
from_parts k secret now (a ∷ b ∷ c ∷ rest) e = absurd cc
from_parts k secret now (payload ∷ signature ∷ []) e =
    let (same, inside) = signed k payload signature secret now e in
    let (claims, held, name, time) = inside in
    (payload, claims, ap (λ t. payload ++ b'.' ∷ t) same, held, name, time)

-- Only a cookie whose second part is the signature of the first under the secret is taken for a
-- user's, and then the first part holds that user's claims and its time is not over.
pub verify_session_cookie_value_sound :
    (k : Codec) (cookie secret : Text) (now : ℕ) {u : Text}
    → verify_session_cookie_value k cookie secret now ≡ user u
    → (payload : Text) × (claims : SessionClaims) × (cookie
        ≡ payload ++ b'.' ∷ k.sign_token payload secret)
      × (claims_of k (k.decode payload) ≡ some claims)
      × (claims.username ≡ u)
      × (ltb claims.expires_at now ≡ false)
unfolding verify_session_cookie_value
verify_session_cookie_value_sound k cookie secret now e =
    let (payload, claims, same, held, name, time) = from_parts k secret now (split cookie b'.') e in
    (payload, claims, sym (join-split cookie b'.') ∙ same, held, name, time)
