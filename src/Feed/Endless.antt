-- ===== src/Feed/Endless.antt =====
-- When the loop over encoding/csv in internal/feed/parse.go ends.
use safe_road.Base.{ℕ, zero, suc, ◌+◌, ◌≤◌, none, some, ◌≡◌, refl, arith, ap, ◌∙◌}
use safe_road.Domain.{Platform}
use safe_road.Feed.{Parsing, Read, row, failed, eof, parse_csv, add_row, add_invalid, new_parsing}
use safe_road.Feed.Tidy.{IsTidy, new_parsing-IsTidy, add_row-IsTidy, add_invalid-IsTidy}

after_read :
    (platform : Platform) (reads : ℕ → Read) (fuel i : ℕ) (p : Parsing) (r : Read)
    → reads i ≡ r
    → parse_csv (suc fuel) platform reads i p ≡ elim r [
      | eof ↦ some p
      | failed ↦ parse_csv fuel platform reads (i + 1) (add_invalid 1 p)
      | row fs ↦ parse_csv fuel platform reads (i + 1) (add_row platform p fs)
    ]
unfolding parse_csv
after_read platform reads fuel i p r e = rw (e, parse_csv) refl

csv_ends :
    (platform : Platform) (reads : ℕ → Read) (n i : ℕ) (p : Parsing)
    → reads (i + n) ≡ eof
    → IsTidy p
    → (q : Parsing) × (parse_csv (suc n) platform reads i p ≡ some q) × IsTidy q
csv_ends platform reads zero i p e h =
    (p, after_read platform reads zero i p eof (ap reads (omega arith) ∙ e), h)
csv_ends platform reads (suc n) i p e h =
    go (reads i) refl
      (λ p' h'. csv_ends platform reads n (i + 1) p' (ap reads (omega arith) ∙ e) h')
  where
    go :
        (r : Read)
        → reads i ≡ r
        → ((p' : Parsing)
            → IsTidy p'
            → (q : Parsing) × (parse_csv (suc n) platform reads (i + 1) p' ≡ some q) × IsTidy q)
        → (q : Parsing) × (parse_csv (suc (suc n)) platform reads i p ≡ some q) × IsTidy q
    go eof k rest = (p, after_read platform reads (suc n) i p eof k, h)
    go failed k rest =
        let (q, run, tidy) = rest (add_invalid 1 p) (add_invalid-IsTidy 1 p h) in
        (q, after_read platform reads (suc n) i p failed k ∙ run, tidy)
    go (row fs) k rest =
        let (q, run, tidy) = rest (add_row platform p fs) (add_row-IsTidy platform p fs h) in
        (q, after_read platform reads (suc n) i p (row fs) k ∙ run, tidy)

-- Where the stream of a CSV feed reaches its end after some calls of `Read`, whether the others give
-- rows or errors, the loop ends with one call more, and what it hands on is distinct, with full stops
-- and counted.
pub parse_csv_ends :
    (platform : Platform) (reads : ℕ → Read) (n : ℕ)
    → reads n ≡ eof
    → (q : Parsing) × (parse_csv (suc n) platform reads 0 new_parsing ≡ some q) × IsTidy q
parse_csv_ends platform reads n e =
    csv_ends platform reads n 0 new_parsing (ap reads (omega arith) ∙ e) new_parsing-IsTidy

endless :
    (platform : Platform) (reads : ℕ → Read) (fuel m i : ℕ) (p : Parsing)
    → m ≤ i
    → ((j : ℕ) → m ≤ j → reads j ≡ failed)
    → parse_csv fuel platform reads i p ≡ none
unfolding parse_csv
endless platform reads zero m i p h broken = refl
endless platform reads (suc fuel) m i p h broken =
    after_read platform reads fuel i p failed (broken i h)
    ∙ endless platform reads fuel m (i + 1) (add_invalid 1 p) (omega (arith, h)) broken

-- Where every call of `Read` gives an error, as on a connection that stays broken, the loop over a
-- CSV feed never ends: no number of rounds is enough.
pub parse_csv_endless :
    (platform : Platform) (reads : ℕ → Read) (fuel : ℕ) (p : Parsing)
    → ((j : ℕ) → reads j ≡ failed)
    → parse_csv fuel platform reads 0 p ≡ none
parse_csv_endless platform reads fuel p broken =
    endless platform reads fuel 0 0 p (omega arith) (λ j h. broken j)
