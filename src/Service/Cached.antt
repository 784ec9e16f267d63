-- ===== src/Service/Cached.antt =====
-- The cache of assessments of internal/risk/service.go.
use safe_road.Base.{
  Bool, true, false, none, some, [], ◌≡◌, refl, arith, Text, text_eq, text_eq_refl, insert,
  lookup-insert_self,
}
use safe_road.Domain.{Platform, ok, normalize_domain}
use safe_road.Verdict.{AnalysisResult}
use safe_road.Osint.{Report}
use safe_road.Service.{
  Cache, CacheEntry, Outside, Settings, LookupMode, works, analysis_algorithm_revision,
  current_feed_revision, is_current, cached_result, write_entry, ttl_for, apply_osint, judge,
  assess_fresh, assess_cached, assess,
}

abbrev entry_of : Settings → Text → AnalysisResult → CacheEntry
entry_of s revision r = record {
  result = r;
  feed_revision = revision;
  analysis_revision = analysis_algorithm_revision;
  ttl = ttl_for s r.verdict;
}

written :
    (s : Settings) (c : Cache) (revision d : Text) (r : AnalysisResult)
    → works c ≡ true
    → write_entry s c revision d r
      ≡ record c { entries = insert d (entry_of s revision r) c.entries }
unfolding write_entry
written s c revision d r on = rw on

entry-is_current :
    (s : Settings) (revision : Text) (r : AnalysisResult)
    → text_eq r.domain [] ≡ false
    → is_current revision (entry_of s revision r) ≡ true
unfolding is_current
entry-is_current s revision r full =
    rw (full, text_eq_refl analysis_algorithm_revision, text_eq_refl revision) (ground arith)

entry-stale :
    (s : Settings) (revision later : Text) (r : AnalysisResult)
    → text_eq later [] ≡ false
    → text_eq revision later ≡ false
    → is_current later (entry_of s revision r) ≡ false
unfolding is_current
entry-stale s revision later r full other = rw (full, other) (ground arith)

-- What is written is found again at the same feed revision.
cached_result-write_entry :
    (s : Settings) (c : Cache) (revision d : Text) (r : AnalysisResult)
    → works c ≡ true
    → text_eq r.domain [] ≡ false
    → cached_result (write_entry s c revision d r) revision d ≡ some r
unfolding cached_result
cached_result-write_entry s c revision d r on full =
    rw (written s c revision d r on)
      (rw on (rw lookup-insert_self (rw (entry-is_current s revision r full))))

-- With a Redis that answers and a configured revision key, an assessment that was written under
-- one revision of the threat feed is not served under another one that is not empty.
pub cached_result-new_revision :
    (s : Settings) (c : Cache) (revision later d : Text) (r : AnalysisResult)
    → works c ≡ true
    → text_eq s.feed_revision_key [] ≡ false
    → text_eq later [] ≡ false
    → text_eq revision later ≡ false
    → let c' = record (write_entry s c revision d r) { revision = later } in
      cached_result c' (current_feed_revision s c') d ≡ none
unfolding cached_result current_feed_revision
cached_result-new_revision s c revision later d r on key full other =
    rw (written s c revision d r on)
      (rw (on, key) (rw lookup-insert_self (rw (entry-stale s revision later r full other))))

apply_osint_off :
    (s : Settings) (c : Cache) (d : Text) (r : AnalysisResult) (report : Report) (revision : Text)
    → s.osint ≡ false
    → apply_osint s c d r report revision ≡ (c, r)
unfolding apply_osint
apply_osint_off s c d r report revision off = rw off

revision-write_entry :
    (s : Settings) (c : Cache) (revision d : Text) (r : AnalysisResult)
    → current_feed_revision s (write_entry s c revision d r) ≡ current_feed_revision s c
unfolding current_feed_revision write_entry
revision-write_entry s c revision d r = ground arith

module _ (platform : Platform) (analyzer : Text → AnalysisResult) (out : Outside)
    (s : Settings) where
  assess_fresh_off :
      (c : Cache) (d : Text) (mode : LookupMode) (force : Bool)
      → s.osint ≡ false
      → let a = assess_fresh platform analyzer out s c d mode force in
        (a.result ≡ judge platform analyzer out s c d)
        × (a.cache
            ≡ write_entry s c (current_feed_revision s c) d (judge platform analyzer out s c d))
        × (a.cache_hit ≡ false)
  unfolding assess_fresh
  assess_fresh_off c d mode force off = rw (apply_osint_off s c d _ _ _ off) (refl, refl, refl)

  first_lem :
      (c : Cache) (d : Text) (mode : LookupMode) (force : Bool)
      → normalize_domain platform d ≡ ok d
      → cached_result c (current_feed_revision s c) d ≡ none
      → assess platform analyzer out s c d mode force
        ≡ assess_fresh platform analyzer out s c d mode force
  unfolding assess
  first_lem c d mode force n miss = rw (n, assess) (rw miss)

  second_hit :
      (c : Cache) (d : Text) (r : AnalysisResult) (mode : LookupMode) (force : Bool)
      → s.osint ≡ false
      → normalize_domain platform d ≡ ok d
      → cached_result c (current_feed_revision s c) d ≡ some r
      → let a = assess platform analyzer out s c d mode force in
        (a.cache_hit ≡ true) × (a.result ≡ r)
  unfolding assess assess_cached
  second_hit c d r mode force off n hit =
      rw (n, assess) (rw hit (rw (apply_osint_off s c d r _ _ off) (refl, refl)))

  -- Without OSINT and with a Redis that answers, a domain in normal form of which the cache has no
  -- current entry, and whose fresh result names a domain, is assessed afresh once: the second
  -- assessment in a row is served from the cache, with the result of the first.
  pub assess_twice :
      (c : Cache) (d : Text) (mode : LookupMode) (force : Bool)
      → s.osint ≡ false
      → works c ≡ true
      → normalize_domain platform d ≡ ok d
      → cached_result c (current_feed_revision s c) d ≡ none
      → text_eq (judge platform analyzer out s c d).domain [] ≡ false
      → let first = assess platform analyzer out s c d mode force in
        let second = assess platform analyzer out s first.cache d mode force in
        (first.cache_hit ≡ false) × (second.cache_hit ≡ true) × (second.result ≡ first.result)
  assess_twice c d mode force off on n miss full =
      let r = judge platform analyzer out s c d in
      let revision = current_feed_revision s c in
      let (r1, c1, h1) = assess_fresh_off c d mode force off in
      let hit = cached_result-write_entry s c revision d r on full in
      rw (first_lem c d mode force n miss) (
        h1,
        rw c1
            (second_hit (write_entry s c revision d r) d r mode force off n
              (rw revision-write_entry hit)).0,
        rw c1 (
            rw r1
              (second_hit (write_entry s c revision d r) d r mode force off n
                (rw revision-write_entry hit)).1),
      )
