-- ===== src/CuckooFilter/Indices.antt =====
-- The tag and the two indices of an item.
use u_psu.Common.{ℕ, zero, suc, ◌-◌, ◌/◌, ◌%◌, ◌^◌, ◌<◌, ◌≡◌, refl, ap, ◌∙◌, arith}
use Prim.Native.Nat.{bit_and, bit_xor, differ}
use native.Mathlib.Nat.{pow-suc, one-le-pow, pow-le-pow_right}
use u_psu.Common.Bits.{bit_and_step, bit_and-zero, bit_xor_step}
use u_psu.Common.Digits.{bit, bit-lt, bit-bit_xor, bit_ext, differ-lt_two}
use u_psu.CuckooTable.{CuckooFilterTable}
use u_psu.CuckooFilter.{hasher, tag_bit_limit, idx_bucket_limit, get_tag_and_index, get_alt_index}

-- `a & b` fits the digits of `b`.
bit_and-lt_pow_right : (w a b : ℕ) → b < 2 ^ w → bit_and a b < 2 ^ w
bit_and-lt_pow_right zero a b h =
    let none : b ≡ 0 = omega arith in rw (none, bit_and-zero a) (omega arith)
bit_and-lt_pow_right (suc w) a b h = omega (
  arith,
  bit_and_step a b,
  bit_and-lt_pow_right w (a / 2) (b / 2) (omega (arith, pow-suc 2 w)),
  pow-suc 2 w,
)

bit_xor-lt_pow : (w a b : ℕ) → a < 2 ^ w → b < 2 ^ w → bit_xor a b < 2 ^ w
bit_xor-lt_pow zero a b h g =
    let none : a ≡ 0 = omega arith in
    let none' : b ≡ 0 = omega arith in rw (none, none') (omega arith)
bit_xor-lt_pow (suc w) a b h g = omega (
  arith,
  bit_xor_step a b,
  bit_xor-lt_pow w (a / 2) (b / 2) (omega (arith, pow-suc 2 w)) (omega (arith, pow-suc 2 w)),
  differ-lt_two (a % 2) (b % 2) (omega arith) (omega arith),
  pow-suc 2 w,
)

differ-differ : (d e : ℕ) → d < 2 → e < 2 → differ (differ d e) e ≡ d
differ-differ zero zero h g = refl
differ-differ zero (suc zero) h g = refl
differ-differ zero (suc (suc e)) h g = absurd (omega arith)
differ-differ (suc zero) zero h g = refl
differ-differ (suc zero) (suc zero) h g = refl
differ-differ (suc zero) (suc (suc e)) h g = absurd (omega arith)
differ-differ (suc (suc d)) e h g = absurd (omega arith)

bit_xor-bit_xor : (w a b : ℕ) → a < 2 ^ w → b < 2 ^ w → bit_xor (bit_xor a b) b ≡ a
bit_xor-bit_xor w a b h g =
    bit_ext w (bit_xor (bit_xor a b) b) a
      (bit_xor-lt_pow w (bit_xor a b) b (bit_xor-lt_pow w a b h g) g) h
      (λ i lt.
        bit-bit_xor (bit_xor a b) b i
        ∙ ap (λ (d : ℕ). differ d (bit b i)) (bit-bit_xor a b i)
        ∙ differ-differ (bit a i) (bit b i) (bit-lt a i) (bit-lt b i))

-- The number of buckets is a power of two.
abbrev pub HasPowerOfTwo : CuckooFilterTable → Type 0
HasPowerOfTwo t = (w : ℕ) × (t.num_buckets ≡ 2 ^ w)

module _ (t : CuckooFilterTable) (power : HasPowerOfTwo t) where
  idx_bucket_limit-lt : (v : ℕ) → idx_bucket_limit t v < 2 ^ power.0
  unfolding idx_bucket_limit
  idx_bucket_limit-lt v =
      bit_and-lt_pow_right power.0 v (t.num_buckets - 1)
        (omega (arith, power.1, one-le-pow power.0 2))

  module _ (random_array : ℕ → ℕ) where
    pub get_alt_index-lt :
        (k x : ℕ) → k < t.num_buckets → get_alt_index random_array t k x < t.num_buckets
    unfolding get_alt_index
    get_alt_index-lt k x h =
        let mask = idx_bucket_limit-lt (hasher random_array x) in
        let fits =
          bit_xor-lt_pow power.0 k (idx_bucket_limit t (hasher random_array x))
            (omega (arith, power.1)) mask in
        omega (arith, power.1)

    pub get_alt_index_involutive :
        (k x : ℕ)
        → k < t.num_buckets
        → get_alt_index random_array t (get_alt_index random_array t k x) x ≡ k
    unfolding get_alt_index
    get_alt_index_involutive k x h =
        bit_xor-bit_xor power.0 k (idx_bucket_limit t (hasher random_array x))
          (omega (arith, power.1)) (idx_bucket_limit-lt (hasher random_array x))

    pub get_index-lt : (item : ℕ) → (get_tag_and_index random_array t item).1 < t.num_buckets
    unfolding get_tag_and_index
    get_index-lt item =
        omega (arith, power.1, idx_bucket_limit-lt (hasher random_array item / 2 ^ 32))

pub tag_bit_limit_bounds :
    (t : CuckooFilterTable) (v : ℕ)
    → 0 < t.bits_per_tag
    → (0 < tag_bit_limit t v) × (tag_bit_limit t v < 2 ^ t.bits_per_tag)
unfolding tag_bit_limit
tag_bit_limit_bounds t v pos =
    let small =
      bit_and-lt_pow_right t.bits_per_tag v (2 ^ t.bits_per_tag - 1)
        (omega (arith, one-le-pow t.bits_per_tag 2)) in
    let two = pow-le-pow_right {n = 2} (omega arith) {i = 1} {j = t.bits_per_tag} pos in
    ground arith
