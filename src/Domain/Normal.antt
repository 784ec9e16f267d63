-- ===== src/Domain/Normal.antt =====
-- What `NormalizeDomain` of internal/analysis/analysis.go accepts, and when it changes nothing.
use safe_road.Base.{
  ℕ, ◌≡◌, refl, arith, true, false, [], ◌∷◌, Text, text_eq, codes, ◌==◌, Bool-cases, inl, inr,
  &&_iff,
}
use safe_road.Strings.{trim_space, contains, count_rune, trim_suffix_rune}
use safe_road.Domain.{
  Platform, Result, ok, err, is_domain_rune, all_runes, to_lower, host_of_url, drop_port,
  check_runes, non_empty, normalize_domain, ◌>>=◌,
}

-- A text of permitted code points, in lower case, with no space at its ends, and not empty.
pub record IsPlain (platform : Platform) (s : Text) : Type 0 where
  pub non_empty : text_eq s [] ≡ false
  pub permitted : all_runes is_domain_rune s ≡ true
  pub lower_case : to_lower platform s ≡ s
  pub trimmed : trim_space s ≡ s

-- What a successful normalising promises.
pub record IsAccepted (d : Text) : Type 0 where
  pub non_empty : text_eq d [] ≡ false
  pub permitted : all_runes is_domain_rune d ≡ true

check_runes-ok : (s : Text) {d : Text} → check_runes s ≡ ok d → IsAccepted d
unfolding check_runes text_eq
check_runes-ok [] h = cc
check_runes-ok (c ∷ s) {d} h = elim (Bool-cases (all_runes is_domain_rune (c ∷ s))) [
  | inl good ↦
      let e : ok (c ∷ s) ≡ ok d = rw good at h in
      let same : c ∷ s ≡ d = cc e in rw (← same) (record { non_empty = refl; permitted = good })
  | inr bad ↦ cc (rw bad at h)
]

bind-ok :
    (m : Result Text) (f : Text → Result Text) {d : Text}
    → (m >>= f) ≡ ok d
    → (v : Text) × (m ≡ ok v) × (f v ≡ ok d)
bind-ok (ok v) f h = (v, refl, h)
bind-ok (err e) f h = cc

-- An accepted domain is not empty and has only permitted code points.
pub normalize_domain-IsAccepted :
    (platform : Platform) (input : Text) {d : Text}
    → normalize_domain platform input ≡ ok d
    → IsAccepted d
unfolding normalize_domain
normalize_domain-IsAccepted platform input h =
    let (v, p, q) = bind-ok (non_empty (trim_space (to_lower platform input))) _ h in
    let (w, r, t) = bind-ok (host_of_url platform v) _ q in check_runes-ok _ t

colon_free : (c : ℕ) → is_domain_rune c ≡ true → (c == b':') ≡ false
unfolding is_domain_rune
colon_free c h = ground arith

count-colon : (d : Text) → all_runes is_domain_rune d ≡ true → count_rune d b':' ≡ 0
unfolding all_runes count_rune
count-colon [] h = refl
count-colon (c ∷ d) h =
    let (p, q) = (&&_iff (is_domain_rune c) (all_runes is_domain_rune d)).0 h in
    rw (colon_free c p) (count-colon d q)

contains-colon : (d t : Text) → all_runes is_domain_rune d ≡ true → contains d (b':' ∷ t) ≡ false
unfolding all_runes contains
contains-colon [] t h = refl
contains-colon (c ∷ d) t h =
    let (p, q) = (&&_iff (is_domain_rune c) (all_runes is_domain_rune d)).0 h in
    rw (colon_free c p) (contains-colon d t q)

drop_port-permitted : (d : Text) → all_runes is_domain_rune d ≡ true → drop_port d ≡ d
unfolding drop_port
drop_port-permitted d h = rw (count-colon d h, drop_port)

host-permitted :
    (platform : Platform) (d : Text)
    → all_runes is_domain_rune d ≡ true
    → host_of_url platform d ≡ ok d
unfolding host_of_url
host-permitted platform d h = rw (contains-colon d (codes "//") h, host_of_url)

non_empty-lem : (d : Text) → text_eq d [] ≡ false → non_empty d ≡ ok d
unfolding text_eq
non_empty-lem [] h = cc
non_empty-lem (c ∷ d) h = refl

-- A plain text only loses a full stop at its end.
pub normalize_domain-IsPlain :
    (platform : Platform) (s : Text)
    → IsPlain platform s
    → normalize_domain platform s ≡ check_runes (trim_suffix_rune s b'.')
unfolding normalize_domain
normalize_domain-IsPlain platform s n =
    rw (n.lower_case, n.trimmed, non_empty-lem s n.non_empty)
      (rw (host-permitted platform s n.permitted, drop_port-permitted s n.permitted) refl)

pub check_runes-permitted :
    (d : Text) → text_eq d [] ≡ false → all_runes is_domain_rune d ≡ true → check_runes d ≡ ok d
unfolding check_runes text_eq
check_runes-permitted [] e h = cc
check_runes-permitted (c ∷ d) e h = rw h
