-- ===== src/Bloom/Membership.antt =====
-- The Bloom filter of internal/risk/bloom.go never denies what was added to it.
use safe_road.Base.{
  ℕ, zero, suc, ◌+◌, ◌*◌, ◌/◌, ◌%◌, ◌^◌, ◌<◌, true, List, ◌≡◌, refl, arith, ◌==◌, if◌then◌else◌,
  length, replicate, length-replicate, Text,
}
use native.Mathlib.Nat.{mod-lt}
use safe_road.Bloom.{
  BloomFilter, new_bloom_filter, hash, bit_index, set_bit, has_bit, add_from, test_from, add, test,
}
use safe_road.Bloom.Bits.{AllBytes, set_bit-AllBytes, length-set_bit, has_bit-set_bit}

-- The bits fill whole bytes, and there is at least one.
pub record IsFilter (bf : BloomFilter) : Type 0 where
  pub aligned : bf.m ≡ 8 * length bf.bits
  pub nonempty : 0 < bf.m
  pub bytes : AllBytes bf.bits

zeros-AllBytes : (n : ℕ) → AllBytes (replicate n 0)
zeros-AllBytes zero = tt
zeros-AllBytes (suc n) = (omega arith, zeros-AllBytes n)

zeros-length : (n : ℕ) → length (replicate {A = ℕ} n 0) ≡ n
zeros-length n = length-replicate n 0

pub new_bloom_filter-IsFilter : (m k : ℕ) → 0 < m → IsFilter (new_bloom_filter m k)
unfolding new_bloom_filter
new_bloom_filter-IsFilter m k h = record {
  aligned = ground (arith, zeros-length (m / 8), zeros-length ((m / 8 + 1) * 8 / 8));
  nonempty = ground arith;
  bytes = zeros-AllBytes _;
}

-- A bit that an element sets lies inside the slice.
inside :
    (bf : BloomFilter) (h : ℕ × ℕ) (i : ℕ) → IsFilter bf → bit_index bf.m h i / 8 < length bf.bits
unfolding bit_index
inside bf h i w = grind (arith, w, mod-lt ((h.0 + i * h.1 % 2 ^ 64) % 2 ^ 64) w.nonempty)

module _ (bf : BloomFilter) (w : IsFilter bf) (h : ℕ × ℕ) where
  -- The slice between two rounds.
  pub record IsSlice (bits : List ℕ) : Type 0 where
    pub sized : length bits ≡ length bf.bits
    pub bytes : AllBytes bits

  set_bit-IsSlice :
      (bits : List ℕ) (i : ℕ) → IsSlice bits → IsSlice (set_bit bits (bit_index bf.m h i))
  set_bit-IsSlice bits i s = record {
    sized = omega (arith, length-set_bit bits (bit_index bf.m h i), s.sized);
    bytes = set_bit-AllBytes bits (bit_index bf.m h i) s.bytes;
  }

  has_bit-set_bit_index :
      (bits : List ℕ) (i j : ℕ)
      → IsSlice bits
      → has_bit (set_bit bits (bit_index bf.m h i)) j
        ≡ (if bit_index bf.m h i == j then true else has_bit bits j)
  has_bit-set_bit_index bits i j s =
      has_bit-set_bit bits (bit_index bf.m h i) j s.bytes (omega (arith, s.sized, inside bf h i w))

  pub add_from-IsSlice :
      (n i : ℕ) (bits : List ℕ) → IsSlice bits → IsSlice (add_from bf.m h n i bits)
  unfolding add_from
  add_from-IsSlice zero i bits s = s
  add_from-IsSlice (suc n) i bits s =
      add_from-IsSlice n (i + 1) (set_bit bits (bit_index bf.m h i)) (set_bit-IsSlice bits i s)

  -- No bit is cleared.
  add_from_keeps :
      (n i : ℕ) (bits : List ℕ) (j : ℕ)
      → IsSlice bits
      → has_bit bits j ≡ true
      → has_bit (add_from bf.m h n i bits) j ≡ true
  unfolding add_from
  add_from_keeps zero i bits j s e = e
  add_from_keeps (suc n) i bits j s e =
      add_from_keeps n (i + 1) (set_bit bits (bit_index bf.m h i)) j (set_bit-IsSlice bits i s)
        (ground (arith, has_bit-set_bit_index bits i j s))

  test_from-add_from :
      (n i : ℕ) (bits : List ℕ)
      → IsSlice bits
      → test_from bf.m h n i (add_from bf.m h n i bits) ≡ true
  unfolding test_from add_from
  test_from-add_from zero i bits s = refl
  test_from-add_from (suc n) i bits s =
      let set_one = set_bit bits (bit_index bf.m h i) in
      let kept =
        add_from_keeps n (i + 1) set_one (bit_index bf.m h i) (set_bit-IsSlice bits i s)
          (ground (arith, has_bit-set_bit_index bits i (bit_index bf.m h i) s)) in
      rw kept (test_from-add_from n (i + 1) set_one (set_bit-IsSlice bits i s))

  test_from_keeps :
      (n i : ℕ) (bits more : List ℕ)
      → ((j : ℕ) → has_bit bits j ≡ true → has_bit more j ≡ true)
      → test_from bf.m h n i bits ≡ true
      → test_from bf.m h n i more ≡ true
  unfolding test_from
  test_from_keeps zero i bits more keeps e = refl
  test_from_keeps (suc n) i bits more keeps e = ground (
    arith,
    keeps (bit_index bf.m h i),
    λ (p : test_from bf.m h n (i + 1) bits ≡ true). test_from_keeps n (i + 1) bits more keeps p,
  )

full-IsSlice : (bf : BloomFilter) (w : IsFilter bf) (h : ℕ × ℕ) → IsSlice bf w h bf.bits
full-IsSlice bf w h = record { sized = refl; bytes = w.bytes }

add-eq :
    (bf : BloomFilter) (data' : Text)
    → IsFilter bf
    → add bf data' ≡ record bf { bits = add_from bf.m (hash data') bf.k 0 bf.bits }
unfolding add
add-eq bf data' w = ground arith

test-eq :
    (bf : BloomFilter) (data' : Text)
    → IsFilter bf
    → test bf data' ≡ test_from bf.m (hash data') bf.k 0 bf.bits
unfolding test
test-eq bf data' w = ground arith

-- Adding keeps the shape of the filter.
pub add-IsFilter : (bf : BloomFilter) (data' : Text) → IsFilter bf → IsFilter (add bf data')
add-IsFilter bf data' w =
    let s = add_from-IsSlice bf w (hash data') bf.k 0 bf.bits (full-IsSlice bf w (hash data')) in
    rw (add-eq bf data' w)
      (record { aligned = omega (arith, w, s.sized); nonempty = w.nonempty; bytes = s.bytes })

-- What was added tests true.
pub test-add_self :
    (bf : BloomFilter) (data' : Text) → IsFilter bf → test (add bf data') data' ≡ true
test-add_self bf data' w = rw (test-eq (add bf data') data' (add-IsFilter bf data' w)) (
    rw (add-eq bf data' w)
      (test_from-add_from bf w (hash data') bf.k 0 bf.bits (full-IsSlice bf w (hash data'))))

-- What tests true does so after any other addition.
pub test-add_keeps :
    (bf : BloomFilter) (data' other : Text)
    → IsFilter bf
    → test bf data' ≡ true
    → test (add bf other) data' ≡ true
test-add_keeps bf data' other w e = rw (test-eq (add bf other) data' (add-IsFilter bf other w)) (
    rw (add-eq bf other w) (
      test_from_keeps bf w (hash data') bf.k 0 bf.bits _
        (λ j p.
          add_from_keeps bf w (hash other) bf.k 0 bf.bits j (full-IsSlice bf w (hash other)) p)
        (rw (test-eq bf data' w) at e)))
