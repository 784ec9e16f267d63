-- ===== src/Bloom/Bits.antt =====
-- Setting and reading bits of the byte slice of internal/risk/bloom.go.
use Prim.Native.Nat.{bit_and, bit_or}
use safe_road.Base.{
  ℕ, zero, suc, ◌/◌, ◌%◌, ◌^◌, ◌<◌, Bool, true, not, ◌&&◌, ◌||◌, List, [], ◌∷◌, ◌≡◌, refl, arith,
  ltb, ◌==◌, ==_iff, if◌then◌else◌, Bool-cases, inl, inr, length, get_or, set, length-set, ap,
  ltb→lt, ◌∙◌,
}
use safe_road.Bloom.{set_bit, has_bit}

-- The test holds of every number below the bound.
for_all : (ℕ → Bool) → ℕ → Bool
for_all test zero = true
for_all test (suc bound) = for_all test bound && test bound

for_all_at :
    (test : ℕ → Bool) (bound : ℕ) {i : ℕ} → i < bound → for_all test bound ≡ true → test i ≡ true
unfolding for_all
for_all_at test zero {i} below h = absurd (omega (arith, below))
for_all_at test (suc bound) {i} below h = ground (arith, below, h, for_all_at test bound {i = i})

abbrev bit_of : ℕ → ℕ → Bool
bit_of b j = not (bit_and b (2 ^ j) == 0)

-- What a byte shows after a bit of it is set.
abbrev or_case : ℕ → ℕ → ℕ → Bool
or_case b i j =
    let shown = bit_of (bit_or b (2 ^ i)) j in if i == j || bit_of b j then shown else not shown

or_table : for_all (λ b. for_all (λ i. for_all (λ j. or_case b i j) 8) 8) 256 ≡ true
unfolding for_all
or_table = refl

byte_table : for_all (λ b. for_all (λ i. ltb (bit_or b (2 ^ i)) 256) 8) 256 ≡ true
unfolding for_all
byte_table = refl

or_case_lem : (b i j : ℕ) → b < 256 → i < 8 → j < 8 → or_case b i j ≡ true
or_case_lem b i j hb hi hj = for_all_at _ 8 hj (for_all_at _ 8 hi (for_all_at _ 256 hb or_table))

or_byte : (b i : ℕ) → b < 256 → i < 8 → bit_or b (2 ^ i) < 256
or_byte b i hb hi = ltb→lt _ _ (for_all_at _ 8 hi (for_all_at _ 256 hb byte_table))

abbrev pub AllBytes : List ℕ → Type 0
AllBytes [] = Unit {0}
AllBytes (b ∷ bs) = (b < 256) × AllBytes bs

pub get_or-byte : (bs : List ℕ) (i : ℕ) → AllBytes bs → get_or bs i 0 < 256
get_or-byte [] i h = omega arith
get_or-byte (b ∷ bs) zero h = h.0
get_or-byte (b ∷ bs) (suc i) h = get_or-byte bs i h.1

AllBytes-set : (bs : List ℕ) (i v : ℕ) → AllBytes bs → v < 256 → AllBytes (set bs i v)
AllBytes-set [] i v h k = tt
AllBytes-set (b ∷ bs) zero v h k = (k, h.1)
AllBytes-set (b ∷ bs) (suc i) v h k = (h.0, AllBytes-set bs i v h.1 k)

get_or-set :
    (bs : List ℕ) (i j v : ℕ)
    → i < length bs
    → get_or (set bs i v) j 0 ≡ (if i == j then v else get_or bs j 0)
get_or-set [] i j v h = absurd (omega arith)
get_or-set (b ∷ bs) zero zero v h = refl
get_or-set (b ∷ bs) zero (suc j) v h = ground arith
get_or-set (b ∷ bs) (suc i) zero v h = ground arith
get_or-set (b ∷ bs) (suc i) (suc j) v h = ground (arith, get_or-set bs i j v (omega arith))

or_bit :
    (b i j : ℕ)
    → b < 256
    → i < 8
    → j < 8
    → bit_of (bit_or b (2 ^ i)) j ≡ (if i == j then true else bit_of b j)
or_bit b i j hb hi hj = ground (arith, or_case_lem b i j hb hi hj)

pub set_bit-AllBytes : (bs : List ℕ) (i : ℕ) → AllBytes bs → AllBytes (set_bit bs i)
unfolding set_bit
set_bit-AllBytes bs i h =
    AllBytes-set bs (i / 8) _ h (or_byte _ (i % 8) (get_or-byte bs (i / 8) h) (omega arith))

pub length-set_bit : (bs : List ℕ) (i : ℕ) → length (set_bit bs i) ≡ length bs
unfolding set_bit
length-set_bit bs i = length-set bs (i / 8) _

-- Setting a bit inside the slice sets it and no other.
pub has_bit-set_bit :
    (bs : List ℕ) (i j : ℕ)
    → AllBytes bs
    → i / 8 < length bs
    → has_bit (set_bit bs i) j ≡ (if i == j then true else has_bit bs j)
unfolding set_bit has_bit
has_bit-set_bit bs i j h inside =
    rw (get_or-set bs (i / 8) (j / 8) (bit_or (get_or bs (i / 8) 0) (2 ^ (i % 8))) inside)
      (elim (Bool-cases (i / 8 == j / 8)) [
        | inl same ↦ rw same (
            or_bit (get_or bs (i / 8) 0) (i % 8) (j % 8) (get_or-byte bs (i / 8) h) (omega arith)
              (omega arith)
            ∙ ground (arith, ap (λ n. get_or bs n 0) ((==_iff (i / 8) (j / 8)).0 same)))
        | inr other ↦ rw other (ground arith)
      ])
