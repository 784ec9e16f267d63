-- ===== src/Whitelist/Agrees.antt =====
-- The answers of internal/risk/whitelist.go depend only on the domains that were loaded: the Bloom
-- filter saves queries and never changes an answer, and the map and the database agree.
use safe_road.Base.{
  ℕ, ◌<◌, Bool, true, false, not, ◌&&◌, ◌||◌, none, some, List, [], ◌∷◌, ◌≡◌, refl, arith, Text,
  text_eq, text_eq_iff, text_eq_sound, length, any, any_ext, any-any, any-&&, any-false, Bool-cases,
  inl, inr, ap, ◌∙◌, sym,
}
use safe_road.Strings.{split, suffixes, has_suffix}
use safe_road.Strings.Split.{suffixes-has_suffix}
use safe_road.Bloom.{BloomFilter, new_bloom_filter, add, test}
use safe_road.Bloom.Membership.{
  IsFilter, new_bloom_filter-IsFilter, add-IsFilter, test-add_self, test-add_keeps,
}
use safe_road.Whitelist.{
  Db, member, Sizes, Whitelist, enabled_db, add_all, bloom_of, load_from_db, allows_candidate,
  is_allowed,
}

-- The domain or one of its parents, up to the top label, is in the list, and is not empty.
unfoldable pub covered : List Text → Text → Bool
covered ds d = any (λ p. not (text_eq p []) && (text_eq d p || has_suffix d (b'.' ∷ p))) ds

-- The sizes are computed for at least one domain, and leave room for a bit.
abbrev pub HasBits : Sizes → Type 0
HasBits sizes = (n : ℕ) → 0 < sizes.bit_count n

add_all-IsFilter : (bf : BloomFilter) (ds : List Text) → IsFilter bf → IsFilter (add_all bf ds)
unfolding add_all
add_all-IsFilter bf [] w = w
add_all-IsFilter bf (d ∷ ds) w = add_all-IsFilter (add bf d) ds (add-IsFilter bf d w)

test-add_all_keeps :
    (bf : BloomFilter) (ds : List Text) (c : Text)
    → IsFilter bf
    → test bf c ≡ true
    → test (add_all bf ds) c ≡ true
unfolding add_all
test-add_all_keeps bf [] c w e = e
test-add_all_keeps bf (d ∷ ds) c w e =
    test-add_all_keeps (add bf d) ds c (add-IsFilter bf d w) (test-add_keeps bf c d w e)

-- Every domain that was added to a well-formed filter tests true.
pub test-add_all :
    (bf : BloomFilter) (ds : List Text) (c : Text)
    → IsFilter bf
    → member c ds ≡ true
    → test (add_all bf ds) c ≡ true
unfolding add_all
test-add_all bf [] c w e = cc
test-add_all bf (d ∷ ds) c w e = elim (Bool-cases (text_eq c d)) [
  | inl same ↦
      test-add_all_keeps (add bf d) ds c (add-IsFilter bf d w)
        (rw (text_eq_sound c d same) (test-add_self bf d w))
  | inr other ↦ test-add_all (add bf d) ds c (add-IsFilter bf d w) (rw other at e)
]

-- What the loop tests, over the list that it looks into.
abbrev pub candidate_in : List Text → Text → Bool
candidate_in ds c = not (text_eq c []) && member c ds

one_parent :
    (p : Text) (cs : List Text)
    → any (λ c. not (text_eq c []) && text_eq c p) cs
      ≡ not (text_eq p []) && any (λ c. text_eq c p) cs
one_parent p cs =
    any_ext _ (λ c. not (text_eq p []) && text_eq c p) cs
      (λ c. ground (arith, text_eq_iff c p, text_eq_iff c [], text_eq_iff p []))
    ∙ any-&& (not (text_eq p [])) (λ c. text_eq c p) cs

pub candidates-covered :
    (ds : List Text) (d : Text)
    → any (candidate_in ds) (suffixes (split d b'.') b'.') ≡ covered ds d
unfolding covered
candidates-covered ds d =
    let cs = suffixes (split d b'.') b'.' in
    any_ext (candidate_in ds) (λ c. any (λ p. not (text_eq c []) && text_eq c p) ds) cs
      (λ c. sym (any-&& (not (text_eq c [])) (text_eq c) ds))
    ∙ any-any (λ c p. not (text_eq c []) && text_eq c p) cs ds
    ∙ any_ext _ _ ds
        (λ p. one_parent p cs ∙ ap (λ b. not (text_eq p []) && b) (suffixes-has_suffix d p b'.'))

-- The state after the Bloom filter was built from the table.
pub record IsFresh (sizes : Sizes) (w : Whitelist) (db : Db) : Type 0 where
  pub has_db : w.db ≡ some db
  pub enabled : db.enabled ≡ true
  pub answers : db.answers ≡ true
  pub built : w.bloom ≡ bloom_of sizes db.domains

bloom_of-cases :
    (sizes : Sizes) (ds : List Text) (c : Text) (has_bits : HasBits sizes)
    → member c ds ≡ true
    → (bf : BloomFilter) × (bloom_of sizes ds ≡ some bf) × (test bf c ≡ true)
unfolding bloom_of
bloom_of-cases sizes [] c hb e = cc
bloom_of-cases sizes (d ∷ ds) c hb e =
    let n = length (d ∷ ds) in
    let bf = new_bloom_filter (sizes.bit_count n) (sizes.hash_count n) in
    (add_all bf (d ∷ ds), refl, test-add_all bf (d ∷ ds) c (new_bloom_filter-IsFilter _ _ (hb n)) e)

fresh_candidate :
    (sizes : Sizes) (w : Whitelist) (db : Db) (c : Text)
    → HasBits sizes
    → IsFresh sizes w db
    → allows_candidate w c ≡ candidate_in db.domains c
unfolding allows_candidate text_eq
fresh_candidate sizes w db [] hb f = refl
fresh_candidate sizes w db (a ∷ c) hb f = elim (Bool-cases (member (a ∷ c) db.domains)) [
  | inl there ↦
      let (bf, built, tested) = bloom_of-cases sizes db.domains (a ∷ c) hb there in
      ground (arith, f, f.built ∙ built, tested, there)
  | inr missing ↦ ground (arith, f, missing)
]

-- With a filter built from the table of an enabled database that answers, and of at least one bit,
-- a domain is allowed exactly if the table covers it: false positives of the filter are resolved
-- by the table, and it has no false negatives.
pub is_allowed-IsFresh :
    (sizes : Sizes) (w : Whitelist) (db : Db) (d : Text)
    → HasBits sizes
    → IsFresh sizes w db
    → is_allowed w d ≡ covered db.domains d
unfolding is_allowed
is_allowed-IsFresh sizes w db d hb f =
    any_ext (allows_candidate w) (candidate_in db.domains) (suffixes (split d b'.') b'.')
      (λ c. fresh_candidate sizes w db c hb f)
    ∙ candidates-covered db.domains d

-- A load from a database that answers leaves such a filter.
pub load_from_db-IsFresh :
    (sizes : Sizes) (w : Whitelist) (db : Db)
    → w.db ≡ some db
    → db.enabled ≡ true
    → db.answers ≡ true
    → IsFresh sizes (load_from_db sizes w).0 db
unfolding load_from_db
load_from_db-IsFresh sizes w db e on answers = record {
  has_db = ground (arith, e, on, answers);
  enabled = on;
  answers = answers;
  built = ground (arith, e, on, answers);
}

map_candidate :
    (w : Whitelist) (c : Text)
    → enabled_db w.db ≡ none
    → allows_candidate w c ≡ candidate_in w.allowed c
unfolding allows_candidate text_eq
map_candidate w [] e = refl
map_candidate w (a ∷ c) e = ground (arith, e)

pub is_allowed_map :
    (w : Whitelist) (d : Text) → enabled_db w.db ≡ none → is_allowed w d ≡ covered w.allowed d
unfolding is_allowed
is_allowed_map w d e =
    any_ext (allows_candidate w) (candidate_in w.allowed) (suffixes (split d b'.') b'.')
      (λ c. map_candidate w c e)
    ∙ candidates-covered w.allowed d

unloaded_candidate :
    (w : Whitelist) (db : Db) (c : Text)
    → w.db ≡ some db
    → db.enabled ≡ true
    → w.bloom ≡ none
    → allows_candidate w c ≡ false
unfolding allows_candidate
unloaded_candidate w db [] e on b = refl
unloaded_candidate w db (a ∷ c) e on b = ground (arith, e, on, b)

-- Over a database, without a filter, nothing is allowed, whatever the table holds.
pub is_allowed_unloaded :
    (w : Whitelist) (db : Db) (d : Text)
    → w.db ≡ some db
    → db.enabled ≡ true
    → w.bloom ≡ none
    → is_allowed w d ≡ false
unfolding is_allowed
is_allowed_unloaded w db d e on b =
    any_ext (allows_candidate w) (λ c. false) (suffixes (split d b'.') b'.')
      (λ c. unloaded_candidate w db c e on b)
    ∙ any-false (suffixes (split d b'.') b'.')
