-- ===== src/Telemetry/Queries.antt =====
-- The queries of internal/store/sqlite.go over the telemetry log, and the retention of the log.
use safe_road.Base.{
  ℕ, suc, ◌+◌, ◌-◌, ◌*◌, ◌≤◌, ◌≡◌, refl, arith, Bool, true, false, not, ◌&&◌, ◌||◌, some, none,
  List, [], ◌∷◌, map, ltb, leb, ◌==◌, if◌then◌else◌, Text, text_eq, text_eq_refl, text_eq_iff,
  Assoc, all, filter, take, inl, inr, Bool-cases, ap, ◌∙◌, sym, text_eq_sound, zero,
}
use safe_road.Verdict.{Verdict, safe, suspicious, malicious, invalid, is_malicious, is_suspicious}
use safe_road.Telemetry.{
  LogRow, Telemetry, day, cleanup, is_since, is_safe, count_if, stats_of, query_stats, bump,
  bump_row, has_key, domain_counts, insert_count, by_count, or_default, query_suspicious_domains,
}

one_verdict :
    (v : Verdict)
    → (if is_safe v then 1 else 0)
        + (if is_suspicious v then 1 else 0)
        + (if is_malicious v then 1 else 0)
      ≤ 1
one_verdict safe = omega arith
one_verdict suspicious = omega arith
one_verdict malicious = omega arith
one_verdict invalid = omega arith

-- The counts of the three verdicts add up to at most the total, what is missing being the rows of
-- invalid domains, and so do the cache hits.
pub stats_of-total :
    (rs : List LogRow)
    → let s = stats_of rs in
      (s.safe_count + s.suspicious_count + s.malicious_count ≤ s.total) × (s.cache_hits ≤ s.total)
unfolding stats_of count_if
stats_of-total [] = (omega arith, omega arith)
stats_of-total (r ∷ rs) =
    let (sum, hits) = stats_of-total rs in
    (omega (arith, sum, one_verdict r.entry.result.verdict), ground (arith, hits))

filter-filter :
    (p q : LogRow → Bool) (rs : List LogRow)
    → ((r : LogRow) → p r ≡ true → q r ≡ true)
    → filter p (filter q rs) ≡ filter p rs
unfolding filter
filter-filter p q [] h = refl
filter-filter p q (r ∷ rs) h = ground (arith, h r, filter-filter p q rs h)

-- Retention is not seen by statistics that start after its cutoff.
pub query_stats-cleanup :
    (t : Telemetry) (retention_days now since : ℕ)
    → now - retention_days * day ≤ since
    → query_stats (cleanup retention_days t now) since ≡ query_stats t since
unfolding query_stats cleanup
query_stats-cleanup t retention_days now since h =
    let same =
      filter-filter (is_since since) (λ r. not (ltb r.analyzed_at (now - retention_days * day)))
        t.rows (λ (r : LogRow) (k : leb since r.analyzed_at ≡ true). ground (arith, h, k)) in
    elim (Bool-cases t.answers) [
      | inr off ↦ rw (off, cleanup) refl
      | inl on ↦ rw (on, cleanup) (ap (λ rs. some (stats_of rs)) same)
    ]

-- How many of the rows are of the domain.
unfoldable pub occurrences : Text → List LogRow → ℕ
occurrences d [] = 0
occurrences d (r ∷ rs) = (if text_eq r.entry.result.domain d then 1 else 0) + occurrences d rs

abbrev pub is_counted : List LogRow → Text × ℕ → Bool
is_counted rs (d, n) = occurrences d rs == n

text_eq_comm : (s t : Text) → text_eq s t ≡ text_eq t s
text_eq_comm s t = ground (arith, text_eq_iff s t, text_eq_iff t s)

has_key-bump_row :
    (d k : Text) (counts : Assoc ℕ) → has_key d (map (bump_row k) counts) ≡ has_key d counts
has_key-bump_row d k [] = refl
has_key-bump_row d k ((j, n) ∷ counts) = ground (arith, has_key-bump_row d k counts)

has_key-bump :
    (d k : Text) (counts : Assoc ℕ) → has_key d (bump k counts) ≡ text_eq k d || has_key d counts
has_key-bump d k counts = elim (Bool-cases (has_key k counts)) [
  | inr h ↦ rw h refl
  | inl h ↦ elim (Bool-cases (text_eq k d)) [
    | inr n ↦ rw h (rw n (has_key-bump_row d k counts))
    | inl e ↦ rw h (
        rw e (
          has_key-bump_row d k counts ∙ ap (λ x. has_key x counts) (sym (text_eq_sound k d e)) ∙ h))
  ]
]

has_key-occurrences :
    (d : Text) (rs : List LogRow) → has_key d (domain_counts rs) ≡ ltb 0 (occurrences d rs)
unfolding domain_counts occurrences
has_key-occurrences d [] = refl
has_key-occurrences d (r ∷ rs) =
    has_key-bump d r.entry.result.domain (domain_counts rs)
    ∙ ground (arith, has_key-occurrences d rs)

counted-bump_row :
    (r : LogRow) (rs : List LogRow) (counts : Assoc ℕ)
    → all (is_counted rs) counts ≡ true
    → all (is_counted (r ∷ rs)) (map (bump_row r.entry.result.domain) counts) ≡ true
unfolding occurrences
counted-bump_row r rs [] h = refl
counted-bump_row r rs ((k, n) ∷ counts) h =
    ground (arith, h, text_eq_comm k r.entry.result.domain, counted-bump_row r rs counts)

counted_other :
    (r : LogRow) (rs : List LogRow) (counts : Assoc ℕ)
    → has_key r.entry.result.domain counts ≡ false
    → all (is_counted rs) counts ≡ true
    → all (is_counted (r ∷ rs)) counts ≡ true
unfolding occurrences
counted_other r rs [] n h = refl
counted_other r rs ((k, m) ∷ counts) n h =
    ground (arith, h, n, text_eq_comm k r.entry.result.domain, counted_other r rs counts)

counted-domain_counts : (rs : List LogRow) → all (is_counted rs) (domain_counts rs) ≡ true
unfolding domain_counts occurrences
counted-domain_counts [] = refl
counted-domain_counts (r ∷ rs) =
    let d = r.entry.result.domain in
    let ih = counted-domain_counts rs in
    elim (Bool-cases (has_key d (domain_counts rs))) [
      | inl h ↦ rw h (counted-bump_row r rs (domain_counts rs) ih)
      | inr h ↦ rw h (
          ground (
            arith,
            text_eq_refl d,
            h,
            has_key-occurrences d rs,
            counted_other r rs (domain_counts rs) h ih,
          ))
    ]

module _ (p : Text × ℕ → Bool) where
  all-take : (n : ℕ) (rows : Assoc ℕ) → all p rows ≡ true → all p (take n rows) ≡ true
  all-take zero rows h = refl
  all-take (suc n) [] h = refl
  all-take (suc n) (row ∷ rows) h = ground (arith, h, all-take n rows)

  all-insert_count :
      (row : Text × ℕ) (rows : Assoc ℕ)
      → p row ≡ true
      → all p rows ≡ true
      → all p (insert_count row rows) ≡ true
  unfolding insert_count
  all-insert_count row [] k h = ground (arith, k)
  all-insert_count row (r ∷ rows) k h = ground (arith, k, h, all-insert_count row rows k)

  all-by_count : (rows : Assoc ℕ) → all p rows ≡ true → all p (by_count rows) ≡ true
  unfolding by_count
  all-by_count [] h = refl
  all-by_count (row ∷ rows) h =
      let k : (p row ≡ true) × (all p rows ≡ true) = ground (arith, h) in
      all-insert_count row (by_count rows) k.0 (all-by_count rows k.1)

  all-filter_and :
      (q : Text × ℕ → Bool) (rows : Assoc ℕ)
      → all p rows ≡ true
      → all (λ row. p row && q row) (filter q rows) ≡ true
  unfolding filter
  all-filter_and q [] h = refl
  all-filter_and q (row ∷ rows) h = ground (arith, h, all-filter_and q rows)

  all_returned :
      (b : Bool) (found rows : Assoc ℕ)
      → (if b then some found else none) ≡ some rows
      → all p found ≡ true
      → all p rows ≡ true
  all_returned b found rows e h = ground (arith, e, h)

-- The suspicious rows that are not older than a time.
unfoldable pub suspicious_since : Telemetry → ℕ → List LogRow
suspicious_since t since =
    filter (λ r. is_suspicious r.entry.result.verdict && is_since since r) t.rows

-- Each domain that the query returns stands with the number of its suspicious rows that are not
-- older than the given time, which is at least the least number asked for, or 3 where that is 0.
pub query_suspicious_domains_sound :
    (t : Telemetry) (since min_occurrences limit : ℕ) {rows : Assoc ℕ}
    → query_suspicious_domains t since min_occurrences limit ≡ some rows
    → all
        (λ (d, n).
          occurrences d (suspicious_since t since) == n && leb (or_default min_occurrences 3) n)
        rows
      ≡ true
unfolding query_suspicious_domains suspicious_since
query_suspicious_domains_sound t since min_occurrences limit {rows} e =
    let rs = suspicious_since t since in
    let least = or_default min_occurrences 3 in
    let kept =
      all-filter_and (is_counted rs) (λ row. leb least row.1) (domain_counts rs)
        (counted-domain_counts rs) in
    let good : Text × ℕ → Bool = λ (d, n). occurrences d rs == n && leb least n in
    all_returned good t.answers _ rows e
      (all-take good (or_default limit 50) _ (all-by_count good _ kept))
