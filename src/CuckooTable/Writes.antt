-- ===== src/CuckooTable/Writes.antt =====
-- The digits of the vector behind a write.
use u_psu.Common.{
  ℕ, ◌+◌, ◌-◌, ◌*◌, ◌/◌, ◌^◌, ◌≤◌, ◌<◌, ◌≡◌, sym, ap, ◌∙◌, ◌⊎◌, inl, inr, false, List, ◌==◌,
  if◌then◌else◌, get_or, modify, arith, length, Bool-cases, get_or-modify_self, get_or-modify_ne,
  ==→eq, ==_refl,
}
use native.Mathlib.Nat.{mod-eq_of_lt, one-le-pow, div-le_self}
use u_psu.Common.Digits.{bit, bit-div, bit-lt_pow, bit-ones}
use u_psu.CuckooTable.{shl64}
use u_psu.CuckooTable.Words.{
  pow-lt_pow64, bit-shl64_low, bit-shl64_high, put, bit-put_one, bit-put_zero,
}

module _ (b tag : ℕ) (pos : 0 < b) (narrow : b < 32) (fits : tag < 2 ^ b) where
  -- `tag_ones`, and the mask and the digits for each of the two words.
  abbrev pub ones : ℕ
  ones = shl64 1 b - 1

  abbrev pub mask1 : ℕ → ℕ
  mask1 off = shl64 ones off

  abbrev pub mask2 : ℕ → ℕ
  mask2 f = ones / 2 ^ f

  ones-eq : ones ≡ 2 ^ b - 1
  ones-eq =
      let small = pow-lt_pow64 b (omega arith) in
      let same : 1 * 2 ^ b ≡ 2 ^ b = omega arith in
      rw same (ap (λ (t : ℕ). t - 1) (mod-eq_of_lt small))

  bit-ones_in : (i : ℕ) → i < b → bit ones i ≡ 1
  bit-ones_in i h = ap (λ (t : ℕ). bit t i) ones-eq ∙ bit-ones b i h

  bit-ones_out : (i : ℕ) → b ≤ i → bit ones i ≡ 0
  bit-ones_out i h =
      ap (λ (t : ℕ). bit t i) ones-eq ∙ bit-lt_pow (2 ^ b - 1) b i (omega (arith, one-le-pow b 2)) h

  -- Inside and outside the place within the first word.
  pub put1-inside :
      (w off i : ℕ)
      → i < b
      → off + i < 64
      → bit (put w (mask1 off) (shl64 tag off)) (off + i) ≡ bit tag i
  put1-inside w off i h g =
      bit-put_one w (mask1 off) (shl64 tag off) (off + i) (omega arith) g
        (bit-shl64_high ones off i g ∙ bit-ones_in i h)
      ∙ bit-shl64_high tag off i g

  pub put1-outside :
      (w off p : ℕ)
      → p < 64
      → (p < off) ⊎ (off + b ≤ p)
      → bit (put w (mask1 off) (shl64 tag off)) p ≡ bit w p
  put1-outside w off p h (inl lt) =
      bit-put_zero w (mask1 off) (shl64 tag off) p (omega arith) h (bit-shl64_low ones off p h lt)
        (bit-shl64_low tag off p h lt)
  put1-outside w off p h (inr ge) =
      let at : off + (p - off) ≡ p = omega arith in
      bit-put_zero w (mask1 off) (shl64 tag off) p (omega arith) h
        (ap (bit (mask1 off)) (sym at)
          ∙ bit-shl64_high ones off (p - off) (omega arith)
          ∙ bit-ones_out (p - off) (omega arith))
        (ap (bit (shl64 tag off)) (sym at)
          ∙ bit-shl64_high tag off (p - off) (omega arith)
          ∙ bit-lt_pow tag b (p - off) fits (omega arith))

  pub mask2-lt : (f : ℕ) → mask2 f < 2 ^ 64
  mask2-lt f = omega (arith, div-le_self ones (2 ^ f))

  pub tag2-lt : (f : ℕ) → tag / 2 ^ f < 2 ^ 64
  tag2-lt f = omega (arith, div-le_self tag (2 ^ f), pow-lt_pow64 b)

  pub put2-inside :
      (w f i : ℕ) → f + i < b → bit (put w (mask2 f) (tag / 2 ^ f)) i ≡ bit tag (f + i)
  put2-inside w f i h =
      bit-put_one w (mask2 f) (tag / 2 ^ f) i (mask2-lt f) (omega arith)
        (bit-div ones f i ∙ bit-ones_in (f + i) h)
      ∙ bit-div tag f i

  pub put2-outside :
      (w f i : ℕ) → i < 64 → b ≤ f + i → bit (put w (mask2 f) (tag / 2 ^ f)) i ≡ bit w i
  put2-outside w f i g h =
      bit-put_zero w (mask2 f) (tag / 2 ^ f) i (mask2-lt f) g
        (bit-div ones f i ∙ bit-ones_out (f + i) h)
        (bit-div tag f i ∙ bit-lt_pow tag b (f + i) fits h)

-- A change of one word, at any index.
pub get_or-modify_lem :
    (table : List ℕ) (i k : ℕ) (f : ℕ → ℕ)
    → i < length table
    → get_or (modify table i f) k 0 ≡ (if k == i then f (get_or table k 0) else get_or table k 0)
get_or-modify_lem table i k f h = elim (Bool-cases (k == i)) [
  | inl t ↦ let e = ==→eq k i t in rw (t, e) (get_or-modify_self table i f 0 h)
  | inr n ↦ rw n (get_or-modify_ne table i k f 0 (λ e. differ-keys e n))
]
  where
    differ-keys : i ≡ k → (k == i) ≡ false → ⊥
    differ-keys e n = cc (n, ap (λ (t : ℕ). k == t) e, ==_refl k)
