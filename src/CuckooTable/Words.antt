-- ===== src/CuckooTable/Words.antt =====
-- The digits of the packed words that a read takes and that a write changes.
use u_psu.Common.{
  ℕ, ◌+◌, ◌-◌, ◌*◌, ◌/◌, ◌%◌, ◌^◌, ◌≤◌, ◌<◌, ◌≡◌, sym, ap, ◌∙◌, inl, inr, List, ltb, get_or, arith,
  Bool-cases, ltb→lt, ltb→ge,
}
use Prim.Native.Nat.{bit_and, bit_or}
use native.Mathlib.Nat.{pow-le-pow_right}
use u_psu.Common.Digits.{
  bit, bit-lt, bit-bit_and, bit-bit_or, bit-mul_low, bit-mul_high, bit-mod_low, bit-lt_pow,
  bit-ones, bit-complement, bit_or-lt_pow, bit_and-lt_pow,
}
use u_psu.CuckooTable.{not64, shl64, low_mask, TagIndexInfo}

pub pow-lt_pow64 : (k : ℕ) → k < 64 → 2 ^ k < 2 ^ 64
pow-lt_pow64 k h =
    let le = pow-le-pow_right {n = 2} (omega arith) {i = k} {j = 63} (omega arith) in omega arith

shl64-lt : (x k : ℕ) → shl64 x k < 2 ^ 64
shl64-lt x k = omega arith

-- `x << k` in 64 bits.
pub bit-shl64_low : (x k p : ℕ) → p < 64 → p < k → bit (shl64 x k) p ≡ 0
bit-shl64_low x k p h g = bit-mod_low (x * 2 ^ k) 64 p h ∙ bit-mul_low x k p g

pub bit-shl64_high : (x k p : ℕ) → k + p < 64 → bit (shl64 x k) (k + p) ≡ bit x p
bit-shl64_high x k p h = bit-mod_low (x * 2 ^ k) 64 (k + p) h ∙ bit-mul_high x k p

low_mask-lt : (k : ℕ) → low_mask k < 2 ^ 64
low_mask-lt k = omega arith

pub bit-low_mask : (k p : ℕ) → p < 64 → p < k → bit (low_mask k) p ≡ 1
bit-low_mask k p h g = omega (
  arith,
  bit-complement (shl64 (2 ^ 64 - 1) k) 64 p (shl64-lt (2 ^ 64 - 1) k) h,
  bit-shl64_low (2 ^ 64 - 1) k p h g,
)

pub bit-low_mask_zero : (k p : ℕ) → k ≤ p → bit (low_mask k) p ≡ 0
bit-low_mask_zero k p h = elim (Bool-cases (ltb p 64)) [
  | inr big ↦ bit-lt_pow (low_mask k) 64 p (low_mask-lt k) (ltb→ge p 64 big)
  | inl small ↦
      let lt = ltb→lt p 64 small in
      let at : k + (p - k) ≡ p = omega arith in
      let one : bit (shl64 (2 ^ 64 - 1) k) p ≡ 1 =
        ap (bit (shl64 (2 ^ 64 - 1) k)) (sym at)
        ∙ bit-shl64_high (2 ^ 64 - 1) k (p - k) (omega arith)
        ∙ bit-ones 64 (p - k) (omega arith) in
      omega (arith, bit-complement (shl64 (2 ^ 64 - 1) k) 64 p (shl64-lt (2 ^ 64 - 1) k) lt)
]

-- The field of a word that a mask keeps.
pub bit_field : (x k p : ℕ) → p < 32 → p < k → bit (bit_and x (low_mask k) % 2 ^ 32) p ≡ bit x p
bit_field x k p h g =
    bit-mod_low (bit_and x (low_mask k)) 32 p h
    ∙ bit-bit_and x (low_mask k) p
    ∙ omega (arith, bit-low_mask k p (omega arith) g, bit-lt x p)

pub bit_field_zero : (x k p : ℕ) → k ≤ p → bit (bit_and x (low_mask k) % 2 ^ 32) p ≡ 0
bit_field_zero x k p h = elim (Bool-cases (ltb p 32)) [
  | inr big ↦ bit-lt_pow (bit_and x (low_mask k) % 2 ^ 32) 32 p (omega arith) (ltb→ge p 32 big)
  | inl small ↦
      bit-mod_low (bit_and x (low_mask k)) 32 p (ltb→lt p 32 small)
      ∙ bit-bit_and x (low_mask k) p
      ∙ omega (arith, bit-low_mask_zero k p h)
]

-- A word with the digits of `v` where `m` has a 1.
abbrev pub put : ℕ → ℕ → ℕ → ℕ
put w m v = bit_or (bit_and w (not64 m)) v

pub bit-put_one : (w m v p : ℕ) → m < 2 ^ 64 → p < 64 → bit m p ≡ 1 → bit (put w m v) p ≡ bit v p
bit-put_one w m v p h g e =
    bit-bit_or (bit_and w (not64 m)) v p
    ∙ omega (arith, bit-bit_and w (not64 m) p, bit-complement m 64 p h g)

pub bit-put_zero :
    (w m v p : ℕ) → m < 2 ^ 64 → p < 64 → bit m p ≡ 0 → bit v p ≡ 0 → bit (put w m v) p ≡ bit w p
bit-put_zero w m v p h g e z =
    bit-bit_or (bit_and w (not64 m)) v p
    ∙ omega (arith, bit-bit_and w (not64 m) p, bit-complement m 64 p h g, bit-lt w p)

pub put-lt : (w m v : ℕ) → w < 2 ^ 64 → v < 2 ^ 64 → put w m v < 2 ^ 64
put-lt w m v h g = bit_or-lt_pow 64 (bit_and w (not64 m)) v (bit_and-lt_pow 64 w (not64 m) h) g

-- Digit `j` of the whole vector.
abbrev pub table_bit : List ℕ → ℕ → ℕ
table_bit table j = bit (get_or table (j / 64) 0) (j % 64)

-- A place of `b` digits from `s` on, in one word or in two.
abbrev pub place : ℕ → ℕ → TagIndexInfo
place b s = record {
  tag_start_idx = s / 64;
  tag_start_offset = s % 64;
  bits_first_word = b;
  bits_second_word = 0;
}

abbrev pub split_place : ℕ → ℕ → TagIndexInfo
split_place b s = record {
  tag_start_idx = s / 64;
  tag_start_offset = s % 64;
  bits_first_word = 64 - s % 64;
  bits_second_word = b - (64 - s % 64);
}
