-- ===== src/CuckooTable/Fields.antt =====
-- The digits of the vector that a read takes and that a write changes.
use u_psu.Common.{
  ℕ, ◌+◌, ◌-◌, ◌*◌, ◌/◌, ◌%◌, ◌^◌, ◌≤◌, ◌<◌, ◌≡◌, refl, sym, ap, ◌∙◌, inl, inr, false, List, ltb,
  ◌==◌, get_or, arith, Bool-cases, ltb→lt, ltb→ge,
}
use Prim.Native.Nat.{bit_and, bit_or}
use u_psu.Common.Digits.{
  bit, bit-lt, bit-bit_and, bit-bit_or, bit-mul_low, bit-mul_high, bit-div, bit-mod_low, bit-lt_pow,
  lt-pow_of_bit, bit_or-lt_pow, bit_and-lt_pow,
}
use u_psu.CuckooTable.{low_mask, read_word}
use u_psu.CuckooTable.Words.{
  bit-low_mask, bit-low_mask_zero, bit_field, bit_field_zero, table_bit, place, split_place,
}

-- The digit `i` behind digit `s` of the vector, by its word.
same_word : (s i : ℕ) → s % 64 + i < 64 → ((s + i) / 64 ≡ s / 64) × ((s + i) % 64 ≡ s % 64 + i)
same_word s i h = (omega arith, omega arith)

next_word :
    (s i : ℕ)
    → 64 ≤ s % 64 + i
    → i < 64
    → ((s + i) / 64 ≡ s / 64 + 1) × ((s + i) % 64 ≡ i - (64 - s % 64))
next_word s i h g = (omega arith, omega arith)

module _ (table : List ℕ) (b s : ℕ) (pos : 0 < b) (narrow : b < 32) where
  -- The part of a read from the first word, of `f` digits.
  abbrev first_part : ℕ → ℕ
  first_part f = bit_and (get_or table (s / 64) 0 / 2 ^ (s % 64)) (low_mask f) % 2 ^ 32

  abbrev second_part : ℕ → ℕ
  second_part g = bit_and (get_or table (s / 64 + 1) 0 % 2 ^ 32) (low_mask g % 2 ^ 32)

  bit-first_part :
      (f i : ℕ) → i < 32 → i < f → s % 64 + i < 64 → bit (first_part f) i ≡ table_bit table (s + i)
  bit-first_part f i h g k =
      let (word, at) = same_word s i k in
      bit_field (get_or table (s / 64) 0 / 2 ^ (s % 64)) f i h g
      ∙ bit-div (get_or table (s / 64) 0) (s % 64) i
      ∙ rw (word, at) refl

  pub bit-read_place :
      (i : ℕ)
      → s % 64 + b ≤ 64
      → i < b
      → bit (read_word table (place b s)) i ≡ table_bit table (s + i)
  unfolding read_word
  bit-read_place i fits h = bit-first_part b i (omega arith) h (omega arith)

  bit-second_part :
      (g i : ℕ) → i < g → g < 32 → bit (second_part g) i ≡ bit (get_or table (s / 64 + 1) 0) i
  bit-second_part g i h k =
      bit-bit_and (get_or table (s / 64 + 1) 0 % 2 ^ 32) (low_mask g % 2 ^ 32) i
      ∙ omega (
        arith,
        bit-mod_low (get_or table (s / 64 + 1) 0) 32 i (omega arith),
        bit-mod_low (low_mask g) 32 i (omega arith),
        bit-low_mask g i (omega arith) h,
        bit-lt (get_or table (s / 64 + 1) 0) i,
      )

  bit-second_part_zero : (g i : ℕ) → g ≤ i → bit (second_part g) i ≡ 0
  bit-second_part_zero g i h = elim (Bool-cases (ltb i 32)) [
    | inr big ↦
        bit-lt_pow (second_part g) 32 i
          (bit_and-lt_pow 32 (get_or table (s / 64 + 1) 0 % 2 ^ 32) (low_mask g % 2 ^ 32)
            (omega arith))
          (ltb→ge i 32 big)
    | inl small ↦
        bit-bit_and (get_or table (s / 64 + 1) 0 % 2 ^ 32) (low_mask g % 2 ^ 32) i
        ∙ omega (arith, bit-mod_low (low_mask g) 32 i (ltb→lt i 32 small), bit-low_mask_zero g i h)
  ]

  -- The second part, moved behind the `f` digits of the first.
  abbrev moved : ℕ → ℕ → ℕ
  moved f g = (second_part g * 2 ^ f) % 2 ^ 32

  bit-moved_low : (f g i : ℕ) → i < f → f < 32 → bit (moved f g) i ≡ 0
  bit-moved_low f g i h k =
      bit-mod_low (second_part g * 2 ^ f) 32 i (omega arith) ∙ bit-mul_low (second_part g) f i h

  bit-moved_high : (f g i : ℕ) → f + i < 32 → bit (moved f g) (f + i) ≡ bit (second_part g) i
  bit-moved_high f g i h =
      bit-mod_low (second_part g * 2 ^ f) 32 (f + i) h ∙ bit-mul_high (second_part g) f i

  pub bit-read_split :
      (i : ℕ)
      → 64 < s % 64 + b
      → i < b
      → bit (read_word table (split_place b s)) i ≡ table_bit table (s + i)
  unfolding read_word
  bit-read_split i crosses h =
      let f : ℕ = 64 - s % 64 in
      let g : ℕ = b - f in
      let some_left : (g == 0) ≡ false = ground arith in
      let split = bit-bit_or (first_part f) (moved f g) i in
      rw some_left (
        split ∙ elim (Bool-cases (ltb i f)) [
          | inl low ↦
              let lt = ltb→lt i f low in
              omega (
                arith,
                bit-first_part f i (omega arith) lt (omega arith),
                bit-moved_low f g i lt (omega arith),
              )
          | inr high ↦
              let ge = ltb→ge i f high in
              let at : f + (i - f) ≡ i = omega arith in
              let (word, digit) = next_word s i (omega arith) (omega arith) in
              let second : bit (moved f g) i ≡ table_bit table (s + i) =
                ap (bit (moved f g)) (sym at)
                ∙ bit-moved_high f g (i - f) (omega arith)
                ∙ bit-second_part g (i - f) (omega arith) (omega arith)
                ∙ rw (word, digit) refl in
              omega (arith, bit_field_zero (get_or table (s / 64) 0 / 2 ^ (s % 64)) f i ge, second)
        ])

  pub read_place-lt : read_word table (place b s) < 2 ^ b
  unfolding read_word
  read_place-lt =
      lt-pow_of_bit 32 b (first_part b) (omega arith)
        (λ i le. bit_field_zero (get_or table (s / 64) 0 / 2 ^ (s % 64)) b i le)

  pub read_split-lt : 64 < s % 64 + b → read_word table (split_place b s) < 2 ^ b
  unfolding read_word
  read_split-lt crosses =
      let f : ℕ = 64 - s % 64 in
      let g : ℕ = b - f in
      let some_left : (g == 0) ≡ false = ground arith in
      rw some_left (
        lt-pow_of_bit 32 b (bit_or (first_part f) (moved f g))
          (bit_or-lt_pow 32 (first_part f) (moved f g) (omega arith) (omega arith))
          (λ i le.
            bit-bit_or (first_part f) (moved f g) i
            ∙ omega (
              arith,
              bit_field_zero (get_or table (s / 64) 0 / 2 ^ (s % 64)) f i (omega arith),
              beyond f g i (omega arith) (omega arith),
            )))
    where
      beyond : (f g i : ℕ) → f + g ≤ i → f < 32 → bit (moved f g) i ≡ 0
      beyond f g i h k = elim (Bool-cases (ltb i 32)) [
        | inr big ↦ bit-lt_pow (moved f g) 32 i (omega arith) (ltb→ge i 32 big)
        | inl small ↦
            let lt = ltb→lt i 32 small in
            let at : f + (i - f) ≡ i = omega arith in
            ap (bit (moved f g)) (sym at)
            ∙ bit-moved_high f g (i - f) (omega arith)
            ∙ bit-second_part_zero g (i - f) (omega arith)
      ]
