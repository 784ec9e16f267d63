-- ===== src/Tls/Score.antt =====
-- What a certificate's score means, and which addresses are dialled: internal/tlsinspect/inspect.go.
use safe_road.Base.{
  ℕ, ◌+◌, ◌-◌, ◌/◌, ◌≤◌, ◌≡◌, ◌↔◌, arith, Bool, true, false, not, ◌&&◌, ◌||◌, Option, none, some,
  List, [], ◌∷◌, min, ltb, if◌then◌else◌, Text, text_eq, codes,
}
use safe_road.Domain.{Platform}
use safe_road.Tls.{
  Certificate, day, TlsResult, Ipv4, Dialled, cert_matches_domain, signals, total_points,
  total_reasons, score_result, is_public_ip, first_public, inspect, no_tls, inspected,
}

-- The four tests as Booleans.
abbrev points : Bool → Bool → Bool → Bool → ℕ
points e s y m =
    (if e then 20 else 0)
    + ((if s then 25 else 0) + ((if y && not e then 15 else 0) + ((if not m then 30 else 0) + 0)))

points-le : (e s y m : Bool) → points e s y m ≤ 75
points-le e s y m = ground arith

points-high :
    (e s y m : Bool) → (70 ≤ min 100 (points e s y m)) ↔ (((s && not m) && (e || y)) ≡ true)
points-high e s y m = ground arith

abbrev texts : Bool → Bool → Bool → Bool → Text → Text → Text → Text → List Text
texts e s y m a b c d =
    let r4 = if not m then d ∷ [] else [] in
    let r3 = if y && not e then c ∷ r4 else r4 in
    let r2 = if s then b ∷ r3 else r3 in if e then a ∷ r2 else r2

points-texts :
    (e s y m : Bool) (a b c d : Text)
    → (min 100 (points e s y m) ≡ 0) ↔ (texts e s y m a b c d ≡ [])
points-texts e s y m a b c d = ground arith

-- A certificate's score is at most 75, so that the cap at 100 never matters; it is 0 exactly where no
-- reason is given; and it is 70 or more exactly for a self-signed certificate of another name that
-- is expired or younger than seven days.
pub score_result-score :
    (platform : Platform) (domain : Text) (cert : Certificate) (now : ℕ)
    → let r = score_result platform domain cert now in
      (r.score ≤ 75)
      × ((r.score ≡ 0) ↔ (r.reasons ≡ []))
      × ((70 ≤ r.score)
          ↔ (((r.self_signed && not r.san_match) && (r.expired || ltb r.cert_age_days 7)) ≡ true))
unfolding score_result signals total_points total_reasons
score_result-score platform domain cert now =
    let e = ltb cert.not_after now in
    let s = text_eq cert.issuer cert.subject in
    let y = ltb ((now - cert.not_before) / day) 7 in
    let m = cert_matches_domain platform cert domain in
    (omega (arith, points-le e s y m), points-texts e s y m _ _ _ _, points-high e s y m)

first_public_sound :
    (ips : List Ipv4) {ip : Ipv4} → first_public ips ≡ some ip → is_public_ip ip ≡ true
unfolding first_public
first_public_sound [] e = cc
first_public_sound (i ∷ ips) {ip} e = ground (arith, e, first_public_sound ips {ip = ip})

-- Only a public address is dialled: whatever the look-up gives, the address that `Inspect` connects
-- to, if there is one, is none of the loopback, private, link-local, unspecified or shared ones.
pub inspect-is_public_ip :
    (platform : Platform) (dial : Ipv4 → Text → Dialled) (domain : Text) (ips : List Ipv4) (now : ℕ)
    {ip : Ipv4}
    → (inspect platform dial domain ips now).1 ≡ some ip
    → is_public_ip ip ≡ true
unfolding inspect
inspect-is_public_ip platform dial domain [] now e = absurd cc
inspect-is_public_ip platform dial domain (i ∷ ips) now {ip} e =
    first_public_sound (i ∷ ips) (dialled (first_public (i ∷ ips)) e)
  where
    dialled :
        (o : Option Ipv4)
        → (elim o as (λ x. TlsResult × Option Ipv4) [
          | none ↦ (no_tls false (codes "tls: blocked connection to private ip" ∷ []), none)
          | some address ↦ (inspected platform domain now (dial address domain), some address)
        ]).1
          ≡ some ip
        → o ≡ some ip
    dialled none e = absurd cc
    dialled (some a) e = e
