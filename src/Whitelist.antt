-- ===== src/Whitelist.antt =====
-- The whitelist of internal/risk/whitelist.go over the table `whitelist_domains` of
-- internal/store/sqlite.go. SQLite is the table, and whether it answers queries and takes writes.
pub mod Agrees
pub mod Loads
use safe_road.Base.{
  ℕ, zero, suc, ◌+◌, Bool, true, false, not, ◌&&◌, ◌||◌, Option, none, some, List, [], ◌∷◌, ◌++◌,
  ltb, leb, ◌==◌, if◌then◌else◌, Text, text_eq, codes, length, any, Bool-cases,
}
use safe_road.Strings.{trim_space, has_prefix, split, suffixes}
use safe_road.Domain.{Platform, Result, ok, err, normalize_domain}
use safe_road.Bloom.{BloomFilter, new_bloom_filter, add, test}

pub record Db : Type 0 where
  pub enabled : Bool
  pub answers : Bool
  pub writes : Bool
  pub domains : List Text

abbrev pub member : Text → List Text → Bool
member c = any (λ d. text_eq c d)

-- Whether a call succeeded; `failed` is the returned error.
pub data Outcome {ℓ} (A : Type ℓ) : Type ℓ where
  done : A → Outcome A
  failed : Outcome A

-- `INSERT OR IGNORE` for each domain that is not empty.
unfoldable pub insert_all : List Text → List Text → List Text
insert_all table [] = table
insert_all table (d ∷ ds) =
    insert_all (if text_eq d [] || member d table then table else d ∷ table) ds

-- The transaction deletes all rows and inserts the new ones, or changes nothing.
unfoldable pub update_whitelist : Db → List Text → Outcome Db
unfolding insert_all
update_whitelist db ds =
    if db.enabled
    then if db.writes then done (record db { domains = insert_all [] ds }) else failed
    else done db

unfoldable pub is_domain_whitelisted : Db → Text → Outcome Bool
is_domain_whitelisted db d =
    if db.enabled then if db.answers then done (member d db.domains) else failed else done false

unfoldable pub get_whitelist : Db → Outcome (List Text)
get_whitelist db = if db.enabled then if db.answers then done db.domains else failed else done []

-- `db` is `none` for a nil pointer.
pub record Whitelist : Type 0 where
  pub bloom : Option BloomFilter
  pub db : Option Db
  pub allowed : List Text

unfoldable pub new_whitelist : Option Db → Whitelist
new_whitelist db = record { bloom = none; db = db; allowed = [] }

abbrev pub enabled_db : Option Db → Option Db
enabled_db none = none
enabled_db (some db) = if db.enabled then some db else none

unfoldable pub add_all : BloomFilter → List Text → BloomFilter
add_all bf [] = bf
add_all bf (d ∷ ds) = add_all (add bf d) ds

-- The number of bits and of hashes that `NewBloomFilter(n, 0.01)` computes with logarithms.
pub record Sizes : Type 0 where
  pub bit_count : ℕ → ℕ
  pub hash_count : ℕ → ℕ

unfoldable pub bloom_of : Sizes → List Text → Option BloomFilter
unfolding add_all
bloom_of sizes [] = none
bloom_of sizes (d ∷ ds) =
    let n = length (d ∷ ds) in
    some (add_all (new_bloom_filter (sizes.bit_count n) (sizes.hash_count n)) (d ∷ ds))

-- A method with an `error` result returns the state that it leaves, and whether there was none.
abbrev pub load_rows : Sizes → Whitelist → Outcome (List Text) → Whitelist × Bool
load_rows sizes w failed = (w, false)
load_rows sizes w (done ds) = (record w { bloom = bloom_of sizes ds }, true)

unfoldable pub load_from_db : Sizes → Whitelist → Whitelist × Bool
unfolding get_whitelist bloom_of
load_from_db sizes w = elim (enabled_db w.db) [
  | none ↦ (w, true)
  | some db ↦ load_rows sizes w (get_whitelist db)
]

-- What opening and scanning the file gives; `broken` is a scanner error after some lines.
pub data File : Type 0 where
  missing refused broken : File
  lines : List Text → File

-- The field of a line that may hold a domain: the second of several, else the only one.
abbrev pub domain_field : List Text → Text
domain_field [] = []
domain_field (a ∷ []) = a
domain_field (a ∷ b ∷ rest) = b

abbrev keep_ok : Result Text → List Text → List Text
keep_ok (ok d) rest = if text_eq d [] then rest else d ∷ rest
keep_ok (err e) rest = rest

unfoldable pub parse_lines : Platform → List Text → List Text
parse_lines platform [] = []
parse_lines platform (l ∷ ls) =
    let line = trim_space l in
    let rest = parse_lines platform ls in
    if text_eq line [] || has_prefix line (codes "#")
    then rest
    else keep_ok (normalize_domain platform (domain_field (split line b','))) rest

-- The rest of `LoadFromFile` behind the import into the database.
abbrev pub reload : Sizes → Whitelist → Outcome Db → Whitelist × Bool
reload sizes w failed = (w, false)
reload sizes w (done db) = load_from_db sizes (record w { db = some db })

unfoldable pub load_domains : Sizes → Whitelist → List Text → Whitelist × Bool
unfolding load_from_db update_whitelist
load_domains sizes w ds = elim (enabled_db w.db) [
  | none ↦ (record w { allowed = ds }, true)
  | some db ↦ reload sizes w (update_whitelist db ds)
]

unfoldable pub load_from_file : Platform → Sizes → Whitelist → Text → File → Whitelist × Bool
unfolding load_domains parse_lines
load_from_file platform sizes w [] file = (w, true)
load_from_file platform sizes w (c ∷ path) missing = (w, true)
load_from_file platform sizes w (c ∷ path) refused = (w, false)
load_from_file platform sizes w (c ∷ path) broken = (w, false)
load_from_file platform sizes w (c ∷ path) (lines ls) =
    load_domains sizes w (parse_lines platform ls)

abbrev succeeded : Outcome Bool → Bool
succeeded (done b) = b
succeeded failed = false

-- The test of one candidate in the loop of `IsAllowed`.
unfoldable pub allows_candidate : Whitelist → Text → Bool
unfolding is_domain_whitelisted
allows_candidate w [] = false
allows_candidate w (c ∷ s) = elim (enabled_db w.db) [
  | none ↦ member (c ∷ s) w.allowed
  | some db ↦ elim w.bloom [
    | none ↦ false
    | some bf ↦ if test bf (c ∷ s) then succeeded (is_domain_whitelisted db (c ∷ s)) else false
  ]
]

unfoldable pub is_allowed : Whitelist → Text → Bool
unfolding allows_candidate
is_allowed w domain = any (allows_candidate w) (suffixes (split domain b'.') b'.')
