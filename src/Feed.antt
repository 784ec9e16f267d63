-- ===== src/Feed.antt =====
-- The parser of threat feeds, internal/feed/parse.go, run by `Parse`, whose handler keeps the domains
-- and never fails. The lines of the scanner, the rows that encoding/csv reads and the bytes that are
-- peeked at are arguments.
pub mod Tidy
pub mod Endless
use safe_road.Base.{
  ℕ, zero, suc, ◌+◌, ◌*◌, Bool, true, false, not, ◌&&◌, ◌||◌, Option, none, some, List, [], ◌∷◌,
  ◌++◌, ltb, leb, ◌==◌, if◌then◌else◌, Text, text_eq, codes, any,
}
use safe_road.Strings.{trim_space, has_prefix, contains, contains_rune, cut, split, fields}
use safe_road.Domain.{Platform, Result, ok, err, normalize_domain}

pub record ParseStats : Type 0 where
  pub valid : ℕ
  pub invalid : ℕ
  pub duplicates : ℕ
  pub skipped : ℕ

-- The keys of `seen`, newest first, and what the handler has got.
pub record Parsing : Type 0 where
  pub stats : ParseStats
  pub seen : List Text
  pub domains : List Text

abbrev pub new_parsing : Parsing
new_parsing = record {
  stats = record { valid = 0; invalid = 0; duplicates = 0; skipped = 0 };
  seen = [];
  domains = [];
}

abbrev pub add_skipped : Parsing → Parsing
add_skipped p = record p { stats = record (p.stats) { skipped = p.stats.skipped + 1 } }

abbrev pub add_invalid : ℕ → Parsing → Parsing
add_invalid n p = record p { stats = record (p.stats) { invalid = p.stats.invalid + n } }

unfoldable pub add_domain : Parsing → Text → Parsing
add_domain p d =
    if any (text_eq d) p.seen
    then record p { stats = record (p.stats) { duplicates = p.stats.duplicates + 1 } }
    else record {
      stats = record (p.stats) { valid = p.stats.valid + 1 };
      seen = d ∷ p.seen;
      domains = p.domains ++ d ∷ [];
    }

unfoldable pub strip_comment : Text → Text
strip_comment value = elim (cut value b'#') [
  | none ↦ value
  | some (before, rest) ↦ trim_space before
]

abbrev pub host_or : Platform → Text → Option Text
host_or platform value =
    if contains value (codes "://")
    then elim (platform.hostname value) [
      | none ↦ none
      | some [] ↦ none
      | some (c ∷ h) ↦ some (c ∷ h)
    ]
    else some value

abbrev pub with_dot : Result Text → Option Text
with_dot (err e) = none
with_dot (ok d) = if contains_rune d b'.' then some d else none

abbrev pub normalize_host : Platform → Option Text → Option Text
normalize_host platform none = none
normalize_host platform (some host) = with_dot (normalize_domain platform host)

unfoldable pub normalize_candidate : Platform → Text → Option Text
normalize_candidate platform value =
    let value = trim_space value in
    if text_eq value [] then none else normalize_host platform (host_or platform value)

-- The variables of the loop over the fields of a line.
pub record Line : Type 0 where
  pub parsed_any : Bool
  pub had_valid : Bool
  pub invalid : ℕ
  pub parsing : Parsing

unfoldable pub add_candidate : Option Text → Line → Line
unfolding add_domain
add_candidate none l = record l { parsed_any = true; invalid = l.invalid + 1 }
add_candidate (some d) l = record l {
  parsed_any = true;
  had_valid = true;
  parsing = add_domain l.parsing d;
}

abbrev pub take_field : Platform → Text → Line → Line
take_field platform [] l = l
take_field platform (c ∷ s) l = add_candidate (normalize_candidate platform (c ∷ s)) l

unfoldable pub scan_fields : Platform → List Text → Line → Line
scan_fields platform [] l = l
scan_fields platform (f ∷ fs) l = elim (has_prefix f (codes "#")) [
  | true ↦ l
  | false ↦ scan_fields platform fs (take_field platform (strip_comment (trim_space f)) l)
]

unfoldable pub close_line : Line → Parsing
close_line l =
    if not l.parsed_any
    then add_skipped l.parsing
    else if l.had_valid
    then add_invalid l.invalid l.parsing
    else if ltb 0 l.invalid
    then add_invalid 1 l.parsing
    else l.parsing

unfoldable pub parse_line : Platform → Parsing → Text → Parsing
unfolding scan_fields close_line
parse_line platform p raw =
    let line = trim_space raw in
    if text_eq line [] || has_prefix line (codes "#")
    then add_skipped p
    else close_line (
        scan_fields platform (fields line)
          (record { parsed_any = false; had_valid = false; invalid = 0; parsing = p }))

-- The lines that the scanner gives before its end or its error.
unfoldable pub parse_text : Platform → List Text → Parsing → Parsing
unfolding parse_line
parse_text platform [] p = p
parse_text platform (l ∷ ls) p = parse_text platform ls (parse_line platform p l)

unfoldable pub first_domain : Platform → List Text → Option Text
first_domain platform [] = none
first_domain platform (f ∷ fs) =
    let later = first_domain platform fs in
    let field = strip_comment (trim_space f) in
    if text_eq field []
    then later
    else elim (normalize_candidate platform field) [ none ↦ later | some d ↦ some d ]

-- What a call of `cr.Read` gives.
pub data Read : Type 0 where
  row : List Text → Read
  failed eof : Read

abbrev pub add_first : Parsing → Option Text → Parsing
add_first p none = add_invalid 1 p
add_first p (some d) = add_domain p d

unfoldable pub add_row : Platform → Parsing → List Text → Parsing
unfolding first_domain
add_row platform p [] = add_skipped p
add_row platform p (f ∷ fs) = add_first p (first_domain platform (f ∷ fs))

-- The loop from its call number `i` on; the fuel bounds the number of calls, and `none` is that it
-- ran out before the end of the stream.
unfoldable pub parse_csv : ℕ → Platform → (ℕ → Read) → ℕ → Parsing → Option Parsing
parse_csv zero platform reads i p = none
parse_csv (suc fuel) platform reads i p = elim (reads i) [
  | eof ↦ some p
  | failed ↦ parse_csv fuel platform reads (i + 1) (add_invalid 1 p)
  | row fs ↦ parse_csv fuel platform reads (i + 1) (add_row platform p fs)
]

unfoldable pub first_line_has_comma : List Text → Bool
first_line_has_comma [] = false
first_line_has_comma (l ∷ ls) =
    let later = first_line_has_comma ls in
    let line = trim_space l in
    if text_eq line [] || has_prefix line (codes "#") then later else contains_rune line b','

unfoldable pub is_probably_csv : Text → Bool
unfolding first_line_has_comma
is_probably_csv [] = false
is_probably_csv (c ∷ s) = first_line_has_comma (split (c ∷ s) 10)
