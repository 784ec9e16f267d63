-- ===== src/Tests/Writes.antt =====
-- internal/risk and internal/store: what an administrator writes, and two clients of two groups.
use safe_road.Base.{Bool, true, false, some, none, [], ◌∷◌, ◌≡◌, refl, inr, Text, codes, text_eq}
use safe_road.Strings.{trim_space}
use safe_road.Domain.{to_lower}
use safe_road.Whitelist.{new_whitelist, lines, load_from_file, parse_lines}
use safe_road.Whitelist.Agrees.{covered}
use safe_road.Overrides.{allow, block, Store, parse_action, has_group, upsert_group_override}
use safe_road.Verdict.{is_malicious}
use safe_road.Service.Policy.{
  Service, ClientInfo, group_for, override_for, policy, analyze_with_options,
}
use safe_road.Service.Policy.Order.{policy_feed}
use safe_road.Service.Policy.Strict.{IsStricter, policy-IsStricter}
use safe_road.Service.Policy.Written.{
  reading, listing, policy-upsert_group_override, policy-load_from_file,
}
use safe_road.Tests.{ascii}
use safe_road.Tests.Decisions.{
  db, service, fresh, laptop, quiet, redis, shop_normal, vtv_normal, careful, careful-IsStricter,
  evil_normal, evil_listed, evil_uncached, evil_matches,
}
use safe_road.Tests.Lists.{small, small-HasBits, open_db, ranked}

pay_plain : trim_space (to_lower ascii (codes "pay.shop.vn")) ≡ codes "pay.shop.vn"
unfolding trim_space to_lower
pay_plain = refl

pay_full : text_eq (codes "pay.shop.vn") [] ≡ false
unfolding text_eq
pay_full = refl

block_action : parse_action (codes "block") ≡ some block
unfolding parse_action text_eq
block_action = refl

laptop_known : has_group (group_for (reading service db) laptop).id db.groups ≡ true
unfolding group_for safe_road.Overrides.get_group_for_client
    safe_road.Overrides.get_effective_override safe_road.Overrides.search_overrides
    safe_road.Overrides.find_row safe_road.Strings.suffixes safe_road.Strings.split
    safe_road.Strings.trim_space safe_road.Domain.to_lower safe_road.Base.lookup text_eq
    safe_road.Overrides.first_range safe_road.Overrides.get_group_by_name
    safe_road.Overrides.get_group safe_road.Overrides.find_group
laptop_known = refl

policy-upsert_group_override_example :
    let g = (group_for (reading service db) laptop).id in
    let written =
      upsert_group_override true ascii db g (codes "pay.shop.vn") (codes "block") (codes "fraud") in
    let p = policy (reading service written.0) quiet fresh (codes "pay.shop.vn") laptop in
    let r =
      analyze_with_options
        (reading service written.0)
        quiet
        fresh
        (codes "pay.shop.vn")
        laptop
        true
        false in
    (written.1 ≡ true)
    × (p.1.policy ≡ block)
    × (p.0.cache ≡ redis)
    × (is_malicious p.1.result.verdict ≡ true)
    × (r.1.result ≡ p.1.result)
    × (r.0 ≡ p.0)
policy-upsert_group_override_example =
    policy-upsert_group_override true service quiet fresh laptop (codes "pay.shop.vn") db
      (codes "block") (codes "fraud") block true false shop_normal pay_plain pay_full refl
      block_action laptop_known

vtv_free : override_for service (group_for service laptop).id (codes "vtv.vn") ≡ none
unfolding override_for group_for safe_road.Overrides.get_group_for_client
    safe_road.Overrides.get_effective_override safe_road.Overrides.search_overrides
    safe_road.Overrides.find_row safe_road.Strings.suffixes safe_road.Strings.split
    safe_road.Strings.trim_space safe_road.Domain.to_lower safe_road.Base.lookup text_eq
    safe_road.Overrides.first_range safe_road.Overrides.get_group_by_name
    safe_road.Overrides.get_group safe_road.Overrides.find_group
vtv_free = refl

vtv_covered : covered (parse_lines ascii ranked) (codes "vtv.vn") ≡ true
unfolding parse_lines covered text_eq trim_space safe_road.Strings.has_prefix
    safe_road.Domain.normalize_domain to_lower safe_road.Strings.split safe_road.Domain.host_of_url
    safe_road.Strings.contains safe_road.Domain.check_runes safe_road.Strings.trim_suffix_rune
    safe_road.Domain.drop_port safe_road.Strings.count_rune safe_road.Strings.has_suffix
vtv_covered = refl

policy-load_from_file_example :
    let after =
      listing service
        (load_from_file ascii small (new_whitelist (some open_db)) (codes "f") (lines ranked)).0 in
    let p = policy after quiet fresh (codes "vtv.vn") laptop in
    let r = analyze_with_options after quiet fresh (codes "vtv.vn") laptop true true in
    (p.1.policy ≡ allow)
    × (p.0.cache ≡ redis)
    × (is_malicious p.1.result.verdict ≡ false)
    × (r.1.result ≡ p.1.result)
    × (r.0 ≡ p.0)
unfolding new_whitelist
policy-load_from_file_example =
    policy-load_from_file service quiet fresh laptop (codes "vtv.vn") small
      (new_whitelist (some open_db)) b'f' [] ranked true true small-HasBits (inr (refl, refl, refl))
      vtv_normal vtv_free vtv_covered

abbrev family : Service
family =
    reading service (record db { groups = careful ∷ db.groups; client_ids = (codes "kid", 2) ∷ [] })

abbrev kid : ClientInfo
kid = record laptop { client_id = codes "kid" }

family-IsStricter : IsStricter (group_for family laptop) (group_for family kid)
unfolding group_for safe_road.Overrides.get_group_for_client
    safe_road.Overrides.get_effective_override safe_road.Overrides.search_overrides
    safe_road.Overrides.find_row safe_road.Strings.suffixes safe_road.Strings.split
    safe_road.Strings.trim_space safe_road.Domain.to_lower safe_road.Base.lookup text_eq
    safe_road.Overrides.first_range safe_road.Overrides.get_group_by_name
    safe_road.Overrides.get_group safe_road.Overrides.find_group
family-IsStricter = careful-IsStricter

family_same :
    override_for family (group_for family kid).id (codes "a.evil.vn")
    ≡ override_for family (group_for family laptop).id (codes "a.evil.vn")
unfolding override_for group_for safe_road.Overrides.get_group_for_client
    safe_road.Overrides.get_effective_override safe_road.Overrides.search_overrides
    safe_road.Overrides.find_row safe_road.Strings.suffixes safe_road.Strings.split
    safe_road.Strings.trim_space safe_road.Domain.to_lower safe_road.Base.lookup text_eq
    safe_road.Overrides.first_range safe_road.Overrides.get_group_by_name
    safe_road.Overrides.get_group safe_road.Overrides.find_group
family_same = refl

family_free : override_for family (group_for family laptop).id (codes "a.evil.vn") ≡ none
unfolding override_for group_for safe_road.Overrides.get_group_for_client
    safe_road.Overrides.get_effective_override safe_road.Overrides.search_overrides
    safe_road.Overrides.find_row safe_road.Strings.suffixes safe_road.Strings.split
    safe_road.Strings.trim_space safe_road.Domain.to_lower safe_road.Base.lookup text_eq
    safe_road.Overrides.first_range safe_road.Overrides.get_group_by_name
    safe_road.Overrides.get_group safe_road.Overrides.find_group
family_free = refl

family_strict : (group_for family laptop).strict_malware ≡ true
unfolding group_for safe_road.Overrides.get_group_for_client
    safe_road.Overrides.get_effective_override safe_road.Overrides.search_overrides
    safe_road.Overrides.find_row safe_road.Strings.suffixes safe_road.Strings.split
    safe_road.Strings.trim_space safe_road.Domain.to_lower safe_road.Base.lookup text_eq
    safe_road.Overrides.first_range safe_road.Overrides.get_group_by_name
    safe_road.Overrides.get_group safe_road.Overrides.find_group
family_strict = refl

policy-IsStricter_example : (policy family quiet fresh (codes "a.evil.vn") kid).1.policy ≡ block
policy-IsStricter_example =
    policy-IsStricter family quiet fresh laptop kid (codes "a.evil.vn") evil_normal
      family-IsStricter family_same
      (policy_feed family quiet fresh laptop (codes "a.evil.vn") evil_normal family_free evil_listed
        evil_normal evil_uncached evil_matches family_strict)
