-- ===== src/Whitelist/Loads.antt =====
-- Loading the whitelist of internal/risk/whitelist.go from a file.
use safe_road.Base.{
  ℕ, Bool, true, false, ◌||◌, Option, none, some, List, [], ◌∷◌, ◌≡◌, refl, arith, Text, text_eq,
  text_eq_sound, any, Bool-cases, ◌⊎◌, inl, inr, ◌∙◌,
}
use safe_road.Domain.{Platform}
use safe_road.Whitelist.{
  Db, member, insert_all, Sizes, Whitelist, enabled_db, new_whitelist, missing, lines, load_from_db,
  load_from_file, load_domains, parse_lines, is_allowed,
}
use safe_road.Whitelist.Agrees.{
  covered, HasBits, is_allowed-IsFresh, is_allowed_map, is_allowed_unloaded, load_from_db-IsFresh,
}

any-member :
    (f : Text → Bool) (d : Text) (table : List Text)
    → member d table ≡ true
    → f d ≡ true
    → any f table ≡ true
any-member f d [] h e = cc
any-member f d (t ∷ table) h e = elim (Bool-cases (text_eq d t)) [
  | inl same ↦ rw (← text_eq_sound d t same) (rw e)
  | inr other ↦ ground (arith, any-member f d table (rw other at h) e)
]

-- A test that no empty domain passes sees no difference between the rows and the given domains.
any-insert_all :
    (f : Text → Bool) (table ds : List Text)
    → f [] ≡ false
    → any f (insert_all table ds) ≡ any f table || any f ds
unfolding insert_all
any-insert_all f table [] h = ground arith
any-insert_all f table (d ∷ ds) h = elim (Bool-cases (text_eq d [])) [
  | inl empty ↦
      let e : d ≡ [] = text_eq_sound d [] empty in
      rw empty (any-insert_all f table ds h ∙ rw (e, h))
  | inr full ↦ rw full (elim (Bool-cases (member d table)) [
    | inl old ↦ rw old (
        any-insert_all f table ds h
        ∙ ground (arith, λ (e : f d ≡ true). any-member f d table old e))
    | inr new ↦ rw new (any-insert_all f (d ∷ table) ds h ∙ ground arith)
  ])
]

covered-insert_all : (ds : List Text) (d : Text) → covered (insert_all [] ds) d ≡ covered ds d
unfolding covered text_eq
covered-insert_all ds d = any-insert_all _ [] ds refl

-- A whitelist that can take in domains: it has no database, or one that works.
abbrev pub Works : Option Db → Type 0
Works none = Unit {0}
Works (some db) =
    (db.enabled ≡ false) ⊎ ((db.enabled ≡ true) × (db.answers ≡ true) × (db.writes ≡ true))

load_domains_map :
    (sizes : Sizes) (w : Whitelist) (ds : List Text)
    → enabled_db w.db ≡ none
    → load_domains sizes w ds ≡ (record w { allowed = ds }, true)
unfolding load_domains
load_domains_map sizes w ds e = ground (arith, e)

load_domains_db :
    (sizes : Sizes) (w : Whitelist) (ds : List Text) (db : Db)
    → w.db ≡ some db
    → db.enabled ≡ true
    → db.writes ≡ true
    → load_domains sizes w ds
      ≡ load_from_db sizes (record w { db = some (record db { domains = insert_all [] ds }) })
unfolding load_domains
load_domains_db sizes w ds db e on writes = ground (arith, e, on, writes)

load_domains-covers :
    (sizes : Sizes) (w : Whitelist) (ds : List Text) (d : Text) (o : Option Db)
    → w.db ≡ o
    → HasBits sizes
    → Works o
    → is_allowed (load_domains sizes w ds).0 d ≡ covered ds d
load_domains-covers sizes w ds d none e hb works =
    let off : enabled_db w.db ≡ none = rw e in
    rw (load_domains_map sizes w ds off) (is_allowed_map (record w { allowed = ds }) d off)
load_domains-covers sizes w ds d (some db) e hb (inl closed) =
    let off : enabled_db w.db ≡ none = rw e (rw closed) in
    rw (load_domains_map sizes w ds off) (is_allowed_map (record w { allowed = ds }) d off)
load_domains-covers sizes w ds d (some db) e hb (inr (on, answers, writes)) =
    let db' : Db = record db { domains = insert_all [] ds } in
    let w' : Whitelist = record w { db = some db' } in
    rw (load_domains_db sizes w ds db e on writes) (
      is_allowed-IsFresh sizes (load_from_db sizes w').0 db' d hb
        (load_from_db-IsFresh sizes w' db' refl on answers)
      ∙ covered-insert_all ds d)

-- After the lines of a file were read, a domain is allowed exactly if the domains of the lines
-- cover it, whether they went into the map, or by way of the table and a Bloom filter of at least
-- one bit into a database that works.
pub load_from_file-covers :
    (platform : Platform) (sizes : Sizes) (w : Whitelist) (c : ℕ) (path : Text) (ls : List Text)
    (d : Text)
    → HasBits sizes
    → Works w.db
    → is_allowed (load_from_file platform sizes w (c ∷ path) (lines ls)).0 d
      ≡ covered (parse_lines platform ls) d
unfolding load_from_file
load_from_file-covers platform sizes w c path ls d hb works =
    load_domains-covers sizes w (parse_lines platform ls) d w.db refl hb works

-- A new whitelist over an enabled database whose file is missing reports success and then allows
-- nothing, whatever domains the table holds.
pub load_from_file_missing :
    (platform : Platform) (sizes : Sizes) (db : Db) (c : ℕ) (path d : Text)
    → db.enabled ≡ true
    → let result = load_from_file platform sizes (new_whitelist (some db)) (c ∷ path) missing in
      (result.1 ≡ true) × (is_allowed result.0 d ≡ false)
unfolding load_from_file new_whitelist
load_from_file_missing platform sizes db c path d on =
    (refl, is_allowed_unloaded (new_whitelist (some db)) db d refl on refl)
