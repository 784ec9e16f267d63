-- ===== src/Tests/Names.antt =====
-- internal/analysis: names that are normalised, and their roots.
use safe_road.Base.{◌≡◌, refl, codes, text_eq}
use safe_road.Domain.{
  Platform, ok, err, invalid_characters, empty_domain, normalize_domain, get_root_domain,
  get_main_label, to_lower, is_vietnam_government_root,
}
use safe_road.Strings.{trim_space}
use safe_road.Domain.Normal.{IsPlain}
use safe_road.Tests.{ascii}

mixed_case :
    normalize_domain ascii (codes " Mail.Example.COM:8080 ") ≡ ok (codes "mail.example.com")
unfolding normalize_domain trim_space to_lower safe_road.Domain.host_of_url
    safe_road.Strings.contains safe_road.Domain.check_runes safe_road.Strings.trim_suffix_rune
    safe_road.Domain.drop_port safe_road.Strings.count_rune safe_road.Strings.cut
mixed_case = refl

refused_names :
    (normalize_domain ascii (codes "a b.com") ≡ err invalid_characters)
    × (normalize_domain ascii (codes " . ") ≡ err empty_domain)
unfolding normalize_domain trim_space to_lower safe_road.Domain.host_of_url
    safe_road.Strings.contains safe_road.Domain.check_runes safe_road.Strings.trim_suffix_rune
    safe_road.Domain.drop_port safe_road.Strings.count_rune
refused_names = (refl, refl)

roots :
    (get_root_domain ascii (codes "a.b.example.com.vn") ≡ codes "example.com.vn")
    × (get_root_domain ascii (codes "a.b.example.com") ≡ codes "example.com")
    × (get_root_domain ascii (codes "a.com.info") ≡ codes "com.info")
    × (get_main_label ascii (codes "sub.google.com.vn") ≡ codes "google")
unfolding get_root_domain safe_road.Strings.split to_lower trim_space text_eq
    safe_road.Strings.byte_len get_main_label
roots = (refl, refl, refl, refl)

evil-IsPlain : IsPlain ascii (codes "evil.example")
unfolding text_eq safe_road.Domain.all_runes safe_road.Domain.is_domain_rune to_lower trim_space
evil-IsPlain = record { non_empty = refl; permitted = refl; lower_case = refl; trimmed = refl }
