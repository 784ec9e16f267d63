-- ===== src/Bloom.antt =====
-- The Bloom filter of internal/risk/bloom.go, with the FNV-1a hash that it takes from the standard
-- library. A byte is a number below 256, a uint64 a number below 2 ^ 64. The logarithms of
-- `NewBloomFilter` are floats: the two sizes that it computes from them are arguments.
pub mod Bits
pub mod Membership
use Prim.Native.Nat.{bit_and, bit_or, bit_xor}
use safe_road.Base.{
  ℕ, zero, suc, ◌+◌, ◌-◌, ◌*◌, ◌/◌, ◌%◌, ◌^◌, Bool, true, false, not, ◌&&◌, ◌||◌, List, [], ◌∷◌,
  ◌++◌, ltb, leb, ◌==◌, if◌then◌else◌, Text, length, get_or, set, replicate,
}

abbrev u64 : ℕ → ℕ
u64 n = n % 2 ^ 64

abbrev u32 : ℕ → ℕ
u32 n = n % 2 ^ 32

pub record BloomFilter : Type 0 where
  pub m : ℕ
  pub k : ℕ
  pub bits : List ℕ

-- The UTF-8 bytes of a code point.
unfoldable pub utf8 : ℕ → List ℕ
utf8 c =
    if ltb c 0x80
    then c ∷ []
    else if ltb c 0x800
    then (0xC0 + c / 64) ∷ (0x80 + c % 64) ∷ []
    else if ltb c 0x10000
    then (0xE0 + c / 4096) ∷ (0x80 + c / 64 % 64) ∷ (0x80 + c % 64) ∷ []
    else (0xF0 + c / 262144) ∷ (0x80 + c / 4096 % 64) ∷ (0x80 + c / 64 % 64) ∷ (0x80 + c % 64) ∷ []

unfoldable pub bytes : Text → List ℕ
unfolding utf8
bytes [] = []
bytes (c ∷ s) = utf8 c ++ bytes s

-- fnv.New64a, Write, Sum64
unfoldable pub fnv1a : ℕ → List ℕ → ℕ
fnv1a sum [] = sum
fnv1a sum (b ∷ bs) = fnv1a (u64 (bit_xor sum b * 1_099_511_628_211)) bs

unfoldable pub hash : Text → ℕ × ℕ
unfolding bytes fnv1a
hash data' =
    let sum = fnv1a 14_695_981_039_346_656_037 (bytes data') in
    (sum % 2 ^ 32, sum / 2 ^ 32 % 2 ^ 32)

-- `m` is the number of bits that the logarithms give, and `k` the rounded number of hashes.
unfoldable pub new_bloom_filter : ℕ → ℕ → BloomFilter
new_bloom_filter m k =
    let aligned = if m % 8 == 0 then m else (m / 8 + 1) * 8 in
    record { m = aligned; k = if ltb k 1 then 1 else k; bits = replicate (aligned / 8) 0 }

-- `(uint64(h1) + i*uint64(h2)) % bf.m`
unfoldable pub bit_index : ℕ → ℕ × ℕ → ℕ → ℕ
bit_index m h i = u64 (h.0 + u64 (i * h.1)) % m

-- `bits[byteIdx] |= (1 << bitIdx)`
unfoldable pub set_bit : List ℕ → ℕ → List ℕ
set_bit bits idx = set bits (idx / 8) (bit_or (get_or bits (idx / 8) 0) (2 ^ (idx % 8)))

-- `(bits[byteIdx] & (1 << bitIdx)) != 0`
unfoldable pub has_bit : List ℕ → ℕ → Bool
has_bit bits idx = not (bit_and (get_or bits (idx / 8) 0) (2 ^ (idx % 8)) == 0)

-- The loops over `i`, from `i` on for `n` rounds.
unfoldable pub add_from : ℕ → ℕ × ℕ → ℕ → ℕ → List ℕ → List ℕ
add_from m h zero i bits = bits
add_from m h (suc n) i bits = add_from m h n (i + 1) (set_bit bits (bit_index m h i))

unfoldable pub test_from : ℕ → ℕ × ℕ → ℕ → ℕ → List ℕ → Bool
test_from m h zero i bits = true
test_from m h (suc n) i bits =
    if has_bit bits (bit_index m h i) then test_from m h n (i + 1) bits else false

unfoldable pub add : BloomFilter → Text → BloomFilter
add bf data' =
    if length bf.bits == 0
    then bf
    else record bf { bits = add_from bf.m (hash data') bf.k 0 bf.bits }

unfoldable pub test : BloomFilter → Text → Bool
test bf data' = if length bf.bits == 0 then false else test_from bf.m (hash data') bf.k 0 bf.bits
