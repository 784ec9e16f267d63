-- ===== src/Feed/Tidy.antt =====
-- What a parse of internal/feed/parse.go hands on.
use safe_road.Base.{
  ℕ, Bool, true, false, ◌||◌, Option, none, some, List, [], ◌∷◌, ◌++◌, ◌≡◌, refl, arith, ap, Text,
  text_eq, any, length, Bool-cases, inl, inr, if◌then◌else◌, codes,
}
use safe_road.Strings.{contains_rune, trim_space, has_prefix, fields}
use safe_road.Domain.{Platform, Result, ok, err, normalize_domain}
use safe_road.Distance.Scripts.{backwards}
use safe_road.Feed.{
  Parsing, Line, new_parsing, add_skipped, add_invalid, add_domain, normalize_candidate,
  normalize_host, host_or, with_dot, add_candidate, take_field, strip_comment, scan_fields,
  close_line, parse_line, parse_text, first_domain, add_first, add_row,
}

-- No domain twice, and each with a full stop.
abbrev pub Distinct : List Text → Type 0
Distinct [] = Unit {0}
Distinct (d ∷ ds) = (any (text_eq d) ds ≡ false) × (contains_rune d b'.' ≡ true) × Distinct ds

-- The handler got what was seen, in order and once, and `valid` counts it.
pub record IsTidy (p : Parsing) : Type 0 where
  pub distinct : Distinct p.seen
  pub in_order : p.domains ≡ backwards p.seen
  pub counted : p.stats.valid ≡ length p.seen

add_domain-IsTidy :
    (p : Parsing) (d : Text) → contains_rune d b'.' ≡ true → IsTidy p → IsTidy (add_domain p d)
unfolding add_domain
add_domain-IsTidy p d dot h = elim (Bool-cases (any (text_eq d) p.seen)) [
  | inl old ↦ rw old (record { distinct = h.distinct; in_order = h.in_order; counted = h.counted })
  | inr fresh ↦ rw fresh (record {
    distinct = (fresh, dot, h.distinct);
    in_order = ap (λ ds. ds ++ d ∷ []) h.in_order;
    counted = omega (arith, h.counted);
  })
]

with_dot-dot : (r : Result Text) (d : Text) → with_dot r ≡ some d → contains_rune d b'.' ≡ true
with_dot-dot (err e) d h = cc
with_dot-dot (ok c) d h = ground (arith, h)

normalize_host-dot :
    (platform : Platform) (o : Option Text) (d : Text)
    → normalize_host platform o ≡ some d
    → contains_rune d b'.' ≡ true
normalize_host-dot platform none d h = cc
normalize_host-dot platform (some host) d h = with_dot-dot (normalize_domain platform host) d h

normalize_candidate-dot :
    (platform : Platform) (value d : Text)
    → normalize_candidate platform value ≡ some d
    → contains_rune d b'.' ≡ true
unfolding normalize_candidate
normalize_candidate-dot platform value d h =
    ground (arith, h, normalize_host-dot platform (host_or platform (trim_space value)) d)

add_candidate-IsTidy :
    (platform : Platform) (value : Text) (l : Line)
    → IsTidy l.parsing
    → IsTidy (add_candidate (normalize_candidate platform value) l).parsing
unfolding add_candidate
add_candidate-IsTidy platform value l h =
    go (normalize_candidate platform value) (λ d e. normalize_candidate-dot platform value d e)
  where
    go :
        (o : Option Text)
        → ((d : Text) → o ≡ some d → contains_rune d b'.' ≡ true)
        → IsTidy (add_candidate o l).parsing
    go none dots = h
    go (some d) dots = add_domain-IsTidy l.parsing d (dots d refl) h

take_field-IsTidy :
    (platform : Platform) (f : Text) (l : Line)
    → IsTidy l.parsing
    → IsTidy (take_field platform f l).parsing
take_field-IsTidy platform [] l h = h
take_field-IsTidy platform (c ∷ s) l h = add_candidate-IsTidy platform (c ∷ s) l h

scan_fields-IsTidy :
    (platform : Platform) (fs : List Text) (l : Line)
    → IsTidy l.parsing
    → IsTidy (scan_fields platform fs l).parsing
unfolding scan_fields has_prefix
scan_fields-IsTidy platform [] l h = h
scan_fields-IsTidy platform (f ∷ fs) l h = elim (Bool-cases (has_prefix f (codes "#"))) [
  | inl e ↦ rw e h
  | inr e ↦ rw e (
      scan_fields-IsTidy platform fs (take_field platform (strip_comment (trim_space f)) l)
        (take_field-IsTidy platform (strip_comment (trim_space f)) l h))
]

add_skipped-IsTidy : (p : Parsing) → IsTidy p → IsTidy (add_skipped p)
add_skipped-IsTidy p h = record {
  distinct = h.distinct;
  in_order = h.in_order;
  counted = h.counted;
}

pub add_invalid-IsTidy : (n : ℕ) (p : Parsing) → IsTidy p → IsTidy (add_invalid n p)
add_invalid-IsTidy n p h = record {
  distinct = h.distinct;
  in_order = h.in_order;
  counted = h.counted;
}

if-IsTidy : (b : Bool) (x y : Parsing) → IsTidy x → IsTidy y → IsTidy (if b then x else y)
if-IsTidy true x y hx hy = hx
if-IsTidy false x y hx hy = hy

close_line-IsTidy : (l : Line) → IsTidy l.parsing → IsTidy (close_line l)
unfolding close_line
close_line-IsTidy l h = if-IsTidy _ _ _ (add_skipped-IsTidy l.parsing h) (
    if-IsTidy _ _ _ (add_invalid-IsTidy l.invalid l.parsing h)
      (if-IsTidy _ _ _ (add_invalid-IsTidy 1 l.parsing h) h))

parse_line-IsTidy :
    (platform : Platform) (p : Parsing) (raw : Text) → IsTidy p → IsTidy (parse_line platform p raw)
unfolding parse_line
parse_line-IsTidy platform p raw h =
    let line = trim_space raw in
    let start : Line = record { parsed_any = false; had_valid = false; invalid = 0; parsing = p } in
    if-IsTidy (text_eq line [] || has_prefix line (codes "#")) (add_skipped p)
      (close_line (scan_fields platform (fields line) start)) (add_skipped-IsTidy p h)
      (close_line-IsTidy (scan_fields platform (fields line) start)
        (scan_fields-IsTidy platform (fields line) start h))

-- A text feed keeps what is handed on tidy: the domains are distinct, in the order in which they were
-- seen, each with a full stop, and `valid` counts them.
pub parse_text-IsTidy :
    (platform : Platform) (ls : List Text) (p : Parsing)
    → IsTidy p
    → IsTidy (parse_text platform ls p)
unfolding parse_text
parse_text-IsTidy platform [] p h = h
parse_text-IsTidy platform (l ∷ ls) p h =
    parse_text-IsTidy platform ls (parse_line platform p l) (parse_line-IsTidy platform p l h)

first_domain-dot :
    (platform : Platform) (fs : List Text) (d : Text)
    → first_domain platform fs ≡ some d
    → contains_rune d b'.' ≡ true
unfolding first_domain
first_domain-dot platform [] d h = cc
first_domain-dot platform (f ∷ fs) d h = ground (
  arith,
  h,
  first_domain-dot platform fs d,
  normalize_candidate-dot platform (strip_comment (trim_space f)) d,
)

pub add_row-IsTidy :
    (platform : Platform) (p : Parsing) (fs : List Text) → IsTidy p → IsTidy (add_row platform p fs)
unfolding add_row
add_row-IsTidy platform p [] h = add_skipped-IsTidy p h
add_row-IsTidy platform p (f ∷ fs) h =
    go (first_domain platform (f ∷ fs)) (first_domain-dot platform (f ∷ fs))
  where
    go :
        (o : Option Text)
        → ((d : Text) → o ≡ some d → contains_rune d b'.' ≡ true)
        → IsTidy (add_first p o)
    go none dots = add_invalid-IsTidy 1 p h
    go (some d) dots = add_domain-IsTidy p d (dots d refl) h

pub new_parsing-IsTidy : IsTidy new_parsing
new_parsing-IsTidy = record { distinct = tt; in_order = refl; counted = refl }
