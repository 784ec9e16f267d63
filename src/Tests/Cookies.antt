-- ===== src/Tests/Cookies.antt =====
-- internal/auth and internal/tlsinspect: a cookie in plain text, and a certificate.
use safe_road.Base.{
  ℕ, suc, ◌+◌, ◌-◌, map, ap, ap₂, ◌≡◌, ◌↔◌, ◌⊎◌, refl, arith, Bool, true, false, Option, some, none,
  List, [], ◌∷◌, ◌++◌, ltb, if◌then◌else◌, Text, codes,
}
use safe_road.Strings.{contains_rune}
use safe_road.Session.{
  SessionClaims, Codec, user, expired_token, claims_of, generate_session_cookie_value,
  verify_session_cookie_value,
}
use safe_road.Session.Cookie.{IsCodec, verify-generate, verify_session_cookie_value_sound}

-- Everything stands for the name `a`, which is good until second 70.
abbrev codec : Codec
codec = record {
  sign_token = λ t secret. codes "sig";
  encode = λ t. codes "a";
  decode = λ t. some t;
  marshal = λ c. c.username;
  unmarshal = λ t. some (record { username = t; expires_at = 70 });
}

verify_session_cookie_value_sound_example :
    (payload : Text) × (claims : SessionClaims) × (codes "a.sig"
      ≡ payload ++ b'.' ∷ codec.sign_token payload (codes "s"))
    × (claims_of codec (codec.decode payload) ≡ some claims)
    × (claims.username ≡ codes "a")
    × (ltb claims.expires_at 60 ≡ false)
unfolding verify_session_cookie_value safe_road.Session.verify_parts safe_road.Strings.split
    safe_road.Session.verify_token safe_road.Base.text_eq
verify_session_cookie_value_sound_example =
    verify_session_cookie_value_sound codec (codes "a.sig") (codes "s") 60 refl

-- A code point moves up from the dot on, and claims are their time before their name.
abbrev shift : ℕ → ℕ
shift c = if ltb c b'.' then c else suc c

abbrev unshift : ℕ → ℕ
unshift c = if ltb c b'.' then c else c - 1

abbrev read_claims : Text → Option SessionClaims
read_claims [] = none
read_claims (e ∷ u) = some (record { username = u; expires_at = e })

abbrev shifting : Codec
shifting = record {
  sign_token = λ t secret. codes "sig";
  encode = map shift;
  decode = λ t. some (map unshift t);
  marshal = λ c. c.expires_at ∷ c.username;
  unmarshal = read_claims;
}

unshift-shift : (t : Text) → map unshift (map shift t) ≡ t
unshift-shift [] = refl
unshift-shift (c ∷ t) = ap₂ ◌∷◌ (one c) (unshift-shift t)
  where
    one : (c : ℕ) → unshift (shift c) ≡ c
    one c = ground arith

shift_plain : (t : Text) → contains_rune (map shift t) b'.' ≡ false
unfolding contains_rune
shift_plain [] = refl
shift_plain (c ∷ t) = ground (arith, shift_plain t)

shifting-IsCodec : IsCodec shifting
unfolding contains_rune
shifting-IsCodec = record {
  decode-encode = λ t. ap some (unshift-shift t);
  unmarshal-marshal = λ c. refl;
  plain_encode = shift_plain;
  plain_sign = λ t secret. refl;
}

verify-generate_example :
    verify_session_cookie_value shifting
      (generate_session_cookie_value shifting (codes "a.b") 60 (codes "s") 10)
      (codes "s")
      71
    ≡ expired_token
verify-generate_example =
    verify-generate shifting (codes "a.b") (codes "s") 60 10 71 shifting-IsCodec
