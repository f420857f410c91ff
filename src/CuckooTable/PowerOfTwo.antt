-- ===== src/CuckooTable/PowerOfTwo.antt =====
-- next_power_of_2, and the size of a table.
use u_psu.Common.{
  ℕ, zero, suc, ◌+◌, ◌-◌, ◌*◌, ◌/◌, ◌%◌, ◌^◌, ◌≤◌, ◌<◌, ◌≡◌, refl, sym, ap, ◌∙◌, inl, inr, max,
  false, ltb, ◌==◌, arith, Bool-cases, ltb→lt, ltb→ge,
}
use native.Mathlib.Nat.{pow-suc, div-le_self, pow-le-pow_right, one-le-pow}
use u_psu.Common.Digits.{bit, bit-lt, bit-bit_or, bit-div, bit-ones, bit_ext, bit_or-lt_pow}
use u_psu.CuckooTable.{smear, smear_all, next_of, next_power_of_2, bucket_count, tags_per_bucket}

-- The highest digit.
top_digit : (w n : ℕ) → 0 < n → n < 2 ^ w → (t : ℕ) × (t < w) × (2 ^ t ≤ n) × (n < 2 ^ suc t)
top_digit zero n pos h = absurd (omega arith)
top_digit (suc w) n pos h = elim (Bool-cases (ltb n (2 ^ w))) [
  | inr ge ↦ (w, omega arith, ltb→ge n (2 ^ w) ge, h)
  | inl lt ↦
      let (t, below, low, high) = top_digit w n pos (ltb→lt n (2 ^ w) lt) in
      (t, omega arith, low, high)
]

bit_top : (t n : ℕ) → 2 ^ t ≤ n → n < 2 ^ suc t → bit n t ≡ 1
bit_top zero n low high = omega arith
bit_top (suc t) n low high =
    bit_top t (n / 2) (omega (arith, pow-suc 2 t)) (omega (arith, pow-suc 2 (suc t), pow-suc 2 t))

-- The `m` digits from the highest one down are 1.
record IsSmeared (t m v : ℕ) : Type 0 where
  ones : (i : ℕ) → i ≤ t → t < i + m → bit v i ≡ 1
  bound : v < 2 ^ suc t

smear-IsSmeared : (t m v : ℕ) → IsSmeared t m v → IsSmeared t (m + m) (smear v m)
smear-IsSmeared t m v h = record {
  ones = λ i le lt. bit-bit_or v (v / 2 ^ m) i ∙ elim (Bool-cases (ltb t (i + m))) [
    | inl near ↦ omega (arith, h.ones i le (ltb→lt t (i + m) near), bit-lt (v / 2 ^ m) i)
    | inr far ↦
        let ge = ltb→ge t (i + m) far in
        omega (arith, bit-div v m i, h.ones (m + i) (omega arith) (omega arith), bit-lt v i)
  ];
  bound =
      bit_or-lt_pow (suc t) v (v / 2 ^ m) h.bound (omega (arith, h.bound, div-le_self v (2 ^ m)));
}

IsSmeared-ones : (t v : ℕ) → t < 64 → IsSmeared t 64 v → v ≡ 2 ^ suc t - 1
IsSmeared-ones t v lt h =
    bit_ext (suc t) v (2 ^ suc t - 1) h.bound (omega (arith, one-le-pow (suc t) 2))
      (λ i le. h.ones i (omega arith) (omega arith) ∙ sym (bit-ones (suc t) i le))

next_of_lem :
    (v : ℕ)
    → 0 < v
    → v < 2 ^ 63
    → (k : ℕ) × (next_of (smear_all v) ≡ 2 ^ k) × (k < 64) × (v + 1 ≤ 2 ^ k) × (2 ^ k < 2 * (v + 1))
next_of_lem v pos h =
    let (t, below, low, high) = top_digit 63 v pos h in
    let s0 : IsSmeared t 1 v = record {
      ones = λ i le lt. let same : i ≡ t = omega arith in ap (bit v) same ∙ bit_top t v low high;
      bound = high;
    } in
    let s1 = smear-IsSmeared t 1 v s0 in
    let s2 = smear-IsSmeared t 2 (smear v 1) s1 in
    let s4 = smear-IsSmeared t 4 (smear (smear v 1) 2) s2 in
    let s8 = smear-IsSmeared t 8 (smear (smear (smear v 1) 2) 4) s4 in
    let s16 = smear-IsSmeared t 16 (smear (smear (smear (smear v 1) 2) 4) 8) s8 in
    let s32 = smear-IsSmeared t 32 (smear (smear (smear (smear (smear v 1) 2) 4) 8) 16) s16 in
    let full : smear_all v ≡ 2 ^ suc t - 1 = IsSmeared-ones t (smear_all v) (omega arith) s32 in
    let wide = pow-le-pow_right {n = 2} (omega arith) {i = suc t} {j = 63} (omega arith) in
    let next : (2 ^ suc t - 1 + 1) % 2 ^ 64 ≡ 2 ^ suc t = omega (arith, one-le-pow (suc t) 2) in
    let some_left : (2 ^ suc t == 0) ≡ false = ground (arith, one-le-pow (suc t) 2) in
    (suc t, rw (full, next, some_left) refl, omega arith, omega arith, omega (arith, pow-suc 2 t))

-- For 1 to 2^63, the least power of two that is not less.
pub next_power_of_2_lem :
    (v : ℕ)
    → 0 < v
    → v ≤ 2 ^ 63
    → (k : ℕ) × (next_power_of_2 v ≡ 2 ^ k) × (k < 64) × (v ≤ 2 ^ k) × (2 ^ k < 2 * v)
unfolding next_power_of_2
next_power_of_2_lem zero pos h = elim pos [ ]
next_power_of_2_lem (suc zero) pos h = (0, refl, omega arith, omega arith, omega arith)
next_power_of_2_lem (suc (suc n)) pos h =
    let (k, e, below, low, high) = next_of_lem (suc n) (omega arith) (omega arith) in
    let before : (suc (suc n) + 2 ^ 64 - 1) % 2 ^ 64 ≡ suc n = omega arith in
    (k, ap (λ (v : ℕ). next_of (smear_all v)) before ∙ e, below, omega arith, omega arith)

pub bucket_count_lem :
    (n : ℕ)
    → n < 2 ^ 50
    → (k : ℕ) × (bucket_count n ≡ 2 ^ k)
      × (k < 64)
      × (n * 100 ≤ 96 * (bucket_count n * tags_per_bucket))
unfolding bucket_count
bucket_count_lem n h =
    let v : ℕ = max 1 (n / tags_per_bucket) in
    let (k, e, below, low, high) = next_power_of_2_lem v (omega arith) (omega arith) in
    let p : ℕ = 2 ^ k in
    let power : 2 ^ suc k ≡ p * 2 = pow-suc 2 k in
    elim (Bool-cases (ltb (96 * (p * tags_per_bucket)) (n * 100))) [
      | inl full ↦
          let narrow : k < 63 = elim (Bool-cases (ltb k 63)) [
            | inl lt ↦ ltb→lt k 63 lt
            | inr ge ↦
                let wide =
                  pow-le-pow_right {n = 2} (omega arith) {i = 63} {j = k} (ltb→ge k 63 ge) in
                absurd (omega arith)
          ] in
          (suc k, rw (e, full) (sym power), omega arith, rw (e, full) (omega arith))
      | inr fits ↦
          let le = ltb→ge (96 * (p * tags_per_bucket)) (n * 100) fits in
          (k, rw (e, fits) refl, below, rw (e, fits) le)
    ]
