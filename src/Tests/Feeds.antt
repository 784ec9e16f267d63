-- ===== src/Tests/Feeds.antt =====
-- internal/feed: a text feed and the reads of a CSV feed.
use safe_road.Base.{ℕ, zero, suc, none, List, [], ◌∷◌, ◌≡◌, refl, Text, codes, text_eq}
use safe_road.Feed.{
  Parsing, new_parsing, parse_text, Read, row, failed, eof, parse_csv, is_probably_csv,
}
use safe_road.Feed.Tidy.{IsTidy, parse_text-IsTidy, new_parsing-IsTidy}
use safe_road.Feed.Endless.{parse_csv_endless}
use safe_road.Tests.{ascii}

abbrev hosts : List Text
hosts =
    codes "# hosts"
    ∷ codes "0.0.0.0 Evil.com # note"
    ∷ codes "evil.com b@d"
    ∷ codes "localhost"
    ∷ []

parse_text-IsTidy_example : IsTidy (parse_text ascii hosts new_parsing)
parse_text-IsTidy_example = parse_text-IsTidy ascii hosts new_parsing new_parsing-IsTidy

hosts_parsed : parse_text ascii hosts new_parsing ≡ record {
  stats = record { valid = 2; invalid = 2; duplicates = 1; skipped = 1 };
  seen = codes "evil.com" ∷ codes "0.0.0.0" ∷ [];
  domains = codes "0.0.0.0" ∷ codes "evil.com" ∷ [];
}
unfolding parse_text text_eq safe_road.Strings.trim_space safe_road.Strings.has_prefix
    safe_road.Strings.fields safe_road.Feed.strip_comment safe_road.Strings.cut
    safe_road.Feed.add_candidate safe_road.Feed.normalize_candidate safe_road.Strings.contains
    safe_road.Domain.normalize_domain safe_road.Domain.to_lower safe_road.Domain.host_of_url
    safe_road.Domain.check_runes safe_road.Strings.trim_suffix_rune safe_road.Domain.drop_port
    safe_road.Strings.count_rune safe_road.Strings.contains_rune
hosts_parsed = refl

abbrev three_reads : ℕ → Read
three_reads zero = row (codes "id" ∷ codes "bad.vn" ∷ [])
three_reads (suc zero) = failed
three_reads (suc (suc n)) = eof

parse_csv_endless_example : parse_csv 1000 ascii (λ n. failed) 0 new_parsing ≡ none
parse_csv_endless_example = parse_csv_endless ascii (λ n. failed) 1000 new_parsing (λ j. refl)
