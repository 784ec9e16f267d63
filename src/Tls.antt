-- ===== src/Tls.antt =====
-- The scoring of a certificate in internal/tlsinspect/inspect.go: `scoreResult`, `certMatchesDomain`,
-- `matchHostname` and the choice of a public address. Times are nanoseconds, an age
-- below 0 counts as 0, addresses are IPv4, their four bytes, and the handshake is an argument.
pub mod Names
pub mod Score
use safe_road.Base.{
  ℕ, zero, suc, ◌+◌, ◌-◌, ◌/◌, Bool, true, false, not, ◌&&◌, ◌||◌, Option, none, some, List, [],
  ◌∷◌, ◌++◌, min, ltb, leb, ◌==◌, if◌then◌else◌, Text, text_eq, codes, any,
}
use safe_road.Strings.{has_prefix, has_suffix, count_rune, trim_suffix_rune}
use safe_road.Domain.{Platform, to_lower}

-- `issuer` and `subject` are the printed names, `common_name` is the subject's.
pub record Certificate : Type 0 where
  pub issuer : Text
  pub subject : Text
  pub common_name : Text
  pub dns_names : List Text
  pub not_before : ℕ
  pub not_after : ℕ

pub record TlsResult : Type 0 where
  pub has_tls : Bool
  pub valid : Bool
  pub self_signed : Bool
  pub expired : Bool
  pub san_match : Bool
  pub cert_age_days : ℕ
  pub is_wildcard : Bool
  pub score : ℕ
  pub reasons : List Text

abbrev drop_first : Text → Text
drop_first [] = []
drop_first (c ∷ s) = s

unfoldable pub match_hostname : Text → Text → Bool
match_hostname pattern host =
    if text_eq pattern host
    then true
    else if not (has_prefix pattern (codes "*."))
    then false
    else let suffix = drop_first pattern in
      has_suffix host suffix && count_rune host b'.' == count_rune suffix b'.'

unfoldable pub cert_matches_domain : Platform → Certificate → Text → Bool
cert_matches_domain platform cert domain =
    let d = to_lower platform (trim_suffix_rune domain b'.') in
    any (λ san. match_hostname (to_lower platform san) d) cert.dns_names
    || match_hostname (to_lower platform cert.common_name) d

abbrev pub day : ℕ
day = 86_400_000_000_000

unfoldable pub has_wildcard : Certificate → Bool
has_wildcard cert =
    any (λ n. has_prefix n (codes "*.")) cert.dns_names || has_prefix cert.common_name (codes "*.")

-- A test of the code with the points and the reason that it adds.
pub record Signal : Type 0 where
  pub holds : Bool
  pub points : ℕ
  pub reason : Text

unfoldable pub total_points : List Signal → ℕ
total_points [] = 0
total_points (s ∷ ss) = (if s.holds then s.points else 0) + total_points ss

unfoldable pub total_reasons : List Signal → List Text
total_reasons [] = []
total_reasons (s ∷ ss) = let rest = total_reasons ss in if s.holds then s.reason ∷ rest else rest

unfoldable pub signals : Platform → Text → Certificate → ℕ → List Signal
signals platform domain cert now =
    let expired = ltb cert.not_after now in
    record { holds = expired; points = 20; reason = codes "tls: certificate expired" }
    ∷ record {
      holds = text_eq cert.issuer cert.subject;
      points = 25;
      reason = codes "tls: self-signed certificate";
    }
    ∷ record {
      holds = ltb ((now - cert.not_before) / day) 7 && not expired;
      points = 15;
      reason = codes "tls: certificate issued < 7 days ago";
    }
    ∷ record {
      holds = not (cert_matches_domain platform cert domain);
      points = 30;
      reason = codes "tls: certificate name does not match domain";
    }
    ∷ []

unfoldable pub score_result : Platform → Text → Certificate → ℕ → TlsResult
score_result platform domain cert now =
    let expired = ltb cert.not_after now in
    let found = signals platform domain cert now in
    record {
      has_tls = true;
      valid = not expired;
      self_signed = text_eq cert.issuer cert.subject;
      expired = expired;
      san_match = cert_matches_domain platform cert domain;
      cert_age_days = (now - cert.not_before) / day;
      is_wildcard = has_wildcard cert;
      score = min 100 (total_points found);
      reasons = total_reasons found;
    }

pub record Ipv4 : Type 0 where
  pub a : ℕ
  pub b : ℕ
  pub c : ℕ
  pub d : ℕ

-- IsLoopback, IsPrivate, IsLinkLocalUnicast, IsLinkLocalMulticast and IsUnspecified, and the shared
-- addresses of carriers.
unfoldable pub is_public_ip : Ipv4 → Bool
is_public_ip ip =
    not (
      ip.a == 127
      || ip.a == 10
      || (ip.a == 172 && leb 16 ip.b && leb ip.b 31)
      || (ip.a == 192 && ip.b == 168)
      || (ip.a == 169 && ip.b == 254)
      || (ip.a == 224 && ip.b == 0 && ip.c == 0)
      || (ip.a == 0 && ip.b == 0 && ip.c == 0 && ip.d == 0))
    && not (ip.a == 100 && leb 64 ip.b && leb ip.b 127)

unfoldable pub first_public : List Ipv4 → Option Ipv4
first_public [] = none
first_public (ip ∷ ips) = if is_public_ip ip then some ip else first_public ips

-- A reply that stands for no finding.
abbrev pub no_tls : Bool → List Text → TlsResult
no_tls has_tls reasons = record {
  has_tls = has_tls;
  valid = false;
  self_signed = false;
  expired = false;
  san_match = false;
  cert_age_days = 0;
  is_wildcard = false;
  score = 0;
  reasons = reasons;
}

-- What dialling an address gives: no connection, no certificate, or the leaf certificate.
pub data Dialled : Type 0 where
  unreachable no_certificate : Dialled
  leaf : Certificate → Dialled

abbrev pub inspected : Platform → Text → ℕ → Dialled → TlsResult
inspected platform domain now unreachable = no_tls false []
inspected platform domain now no_certificate = no_tls true []
inspected platform domain now (leaf cert) = score_result platform domain cert now

-- `ips` is empty where the look-up fails; the second part is the address that is dialled.
unfoldable pub inspect :
    Platform → (Ipv4 → Text → Dialled) → Text → List Ipv4 → ℕ → TlsResult × Option Ipv4
inspect platform dial domain [] now = (no_tls false [], none)
inspect platform dial domain (ip ∷ ips) now = elim (first_public (ip ∷ ips)) [
  | none ↦ (no_tls false (codes "tls: blocked connection to private ip" ∷ []), none)
  | some address ↦ (inspected platform domain now (dial address domain), some address)
]
