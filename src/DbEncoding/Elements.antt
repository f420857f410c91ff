-- ===== src/DbEncoding/Elements.antt =====
-- The bits of the elements that bits_to_field_elts gives.
use Prim.Native.Nat.{bit_or}
use u_psu.Common.{
  ℕ, zero, suc, ◌+◌, ◌-◌, ◌*◌, ◌/◌, ◌%◌, ◌^◌, ◌≡◌, ◌<◌, ◌≤◌, refl, sym, ap, ◌∙◌, inl, inr, List, [],
  ◌∷◌, ltb, leb, le→ltb_false, ◌==◌, if◌then◌else◌, set, replicate, arith, Bool-cases, ltb→lt,
  ltb→ge, get_or-replicate_self,
}
use native.Mathlib.Nat.{div-le_self}
use u_psu.Common.Bits.{bit_or-zero}
use u_psu.Common.Digits.{
  bit, bit-zero, bit-bit_or, bit-mul_low, bit-mul_high, bit-lt_pow, bit_and-lt_pow, bit_or-lt_pow,
}
use u_psu.DbEncoding.{
  byte_at, copy_shifted, copy_bytes, last_byte, copy_with_bit_offset, read_u64_little_endian,
}
use u_psu.DbEncoding.Bits.{bit_at, IsBytes}
use u_psu.DbEncoding.Copied.{copy_with_bit_offset_lem}

set-IsBytes : (dest : List ℕ) (i v : ℕ) → v < 2 ^ 8 → IsBytes dest → IsBytes (set dest i v)
set-IsBytes [] i v h bytes j = bytes j
set-IsBytes (x ∷ dest) zero v h bytes zero = h
set-IsBytes (x ∷ dest) zero v h bytes (suc j) = bytes (suc j)
set-IsBytes (x ∷ dest) (suc i) v h bytes zero = bytes zero
set-IsBytes (x ∷ dest) (suc i) v h bytes (suc j) = set-IsBytes dest i v h (λ k. bytes (suc k)) j

module _ (src : List ℕ) (bytes : IsBytes src) where
  shifted_lt : (low i : ℕ) → byte_at src i / 2 ^ low < 2 ^ 8
  shifted_lt low i = omega (arith, div-le_self (byte_at src i) (2 ^ low), bytes i)

  mod_lt : (n : ℕ) → n % 2 ^ 8 < 2 ^ 8
  mod_lt n = omega arith

  copy_shifted-IsBytes :
      (low count wb i : ℕ) (dest : List ℕ)
      → IsBytes dest
      → IsBytes (copy_shifted src low count wb i dest)
  unfolding copy_shifted
  copy_shifted-IsBytes low zero wb i dest h = h
  copy_shifted-IsBytes low (suc count) wb i dest h =
      copy_shifted-IsBytes low count (wb + 1) (i + 1) _
        (set-IsBytes dest i _ (bit_or-lt_pow 8 _ _ (shifted_lt low wb) (mod_lt _)) h)

  copy_bytes-IsBytes :
      (count wb i : ℕ) (dest : List ℕ) → IsBytes dest → IsBytes (copy_bytes src count wb i dest)
  unfolding copy_bytes
  copy_bytes-IsBytes zero wb i dest h = h
  copy_bytes-IsBytes (suc count) wb i dest h =
      copy_bytes-IsBytes count (wb + 1) (i + 1) _ (set-IsBytes dest i _ (bytes wb) h)

  last_byte_lt : (low rem i word : ℕ) → word < 2 ^ 8 → last_byte src low rem i word < 2 ^ 8
  unfolding last_byte
  last_byte_lt low rem i word h = elim (Bool-cases (leb (low + rem) 8)) [
    | inl t ↦
        rw t (
          bit_or-lt_pow 8 _ _ (bit_and-lt_pow 8 _ _ (shifted_lt low i)) (bit_and-lt_pow 8 word _ h))
    | inr t ↦ rw t (
        bit_or-lt_pow 8 _ _ (bit_and-lt_pow 8 _ _ (shifted_lt low i))
          (bit_or-lt_pow 8 _ _ (mod_lt _) (bit_and-lt_pow 8 word _ h)))
  ]

  copy_with_bit_offset-IsBytes :
      (o c : ℕ) (dest : List ℕ) → IsBytes dest → IsBytes (copy_with_bit_offset src o c dest)
  unfolding copy_with_bit_offset
  copy_with_bit_offset-IsBytes o c dest h =
      let full : List ℕ =
        if o % 8 == 0
        then copy_bytes src (c / 8) (o / 8) 0 dest
        else copy_shifted src (o % 8) (c / 8) (o / 8) 0 dest in
      let all : IsBytes full = elim (Bool-cases (o % 8 == 0)) [
        | inl t ↦ rw t (copy_bytes-IsBytes (c / 8) (o / 8) 0 dest h)
        | inr t ↦ rw t (copy_shifted-IsBytes (o % 8) (c / 8) (o / 8) 0 dest h)
      ] in
      elim (Bool-cases (c - c / 8 * 8 == 0)) [
        | inl t ↦ rw t all
        | inr t ↦ rw t (
            set-IsBytes full (c / 8) _
              (last_byte_lt (o % 8) (c - c / 8 * 8) (o / 8 + c / 8) _ (all (c / 8))) all)
      ]

-- The bytes of a word from bit `s` on.
or_bytes : List ℕ → ℕ → ℕ
or_bytes [] s = 0
or_bytes (b ∷ bs) s = bit_or (b * 2 ^ s) (or_bytes bs (s + 8))

or_bytes_below : (bs : List ℕ) (s i : ℕ) → i < s → bit (or_bytes bs s) i ≡ 0
unfolding or_bytes
or_bytes_below [] s i h = bit-zero i
or_bytes_below (b ∷ bs) s i h =
    let here = bit-mul_low b s i h in
    let rest = or_bytes_below bs (s + 8) i (omega arith) in
    let both = bit-bit_or (b * 2 ^ s) (or_bytes bs (s + 8)) i in omega (arith, here, rest, both)

or_bytes_lem : (bs : List ℕ) (s k : ℕ) → IsBytes bs → bit (or_bytes bs s) (s + k) ≡ bit_at bs k
unfolding or_bytes
or_bytes_lem [] s k bytes = bit-zero (s + k) ∙ sym (bit-zero (k % 8))
or_bytes_lem (b ∷ bs) s k bytes =
    let here = bit-mul_high b s k in
    let both = bit-bit_or (b * 2 ^ s) (or_bytes bs (s + 8)) (s + k) in
    elim (Bool-cases (ltb k 8)) [
      | inl t ↦
          let lt = ltb→lt k 8 t in
          let rest = or_bytes_below bs (s + 8) (s + k) (omega arith) in
          let e : k / 8 ≡ 0 = omega arith in
          let f : k % 8 ≡ k = omega arith in rw (e, f) (omega (arith, here, both, rest))
      | inr t ↦
          let ge = ltb→ge k 8 t in
          let none : bit b k ≡ 0 = bit-lt_pow b 8 k (bytes 0) ge in
          let place : s + k ≡ s + 8 + (k - 8) = omega arith in
          let rest : bit (or_bytes bs (s + 8)) (s + k) ≡ bit_at bs (k - 8) =
            ap (λ (z : ℕ). bit (or_bytes bs (s + 8)) z) place
            ∙ or_bytes_lem bs (s + 8) (k - 8) (λ i. bytes (suc i)) in
          let e : k / 8 ≡ suc ((k - 8) / 8) = omega arith in
          let f : k % 8 ≡ (k - 8) % 8 = omega arith in
          rw (e, f) (omega (arith, here, both, none, rest))
    ]

abbrev first_eight : List ℕ → List ℕ
first_eight d =
    byte_at d 0
    ∷ byte_at d 1
    ∷ byte_at d 2
    ∷ byte_at d 3
    ∷ byte_at d 4
    ∷ byte_at d 5
    ∷ byte_at d 6
    ∷ byte_at d 7
    ∷ []

first_eight_lem : (d : List ℕ) (i : ℕ) → i < 8 → byte_at (first_eight d) i ≡ byte_at d i
first_eight_lem d zero h = refl
first_eight_lem d (suc zero) h = refl
first_eight_lem d (suc (suc zero)) h = refl
first_eight_lem d (suc (suc (suc zero))) h = refl
first_eight_lem d (suc (suc (suc (suc zero)))) h = refl
first_eight_lem d (suc (suc (suc (suc (suc zero))))) h = refl
first_eight_lem d (suc (suc (suc (suc (suc (suc zero)))))) h = refl
first_eight_lem d (suc (suc (suc (suc (suc (suc (suc zero))))))) h = refl
first_eight_lem d (suc (suc (suc (suc (suc (suc (suc (suc i)))))))) h = absurd (omega arith)

first_eight_none : (d : List ℕ) (i : ℕ) → byte_at (first_eight d) (8 + i) ≡ 0
first_eight_none d i =
    let e : 8 + i ≡ suc (suc (suc (suc (suc (suc (suc (suc i))))))) = omega arith in rw e refl

first_eight_high : (d : List ℕ) (i : ℕ) → 8 ≤ i → byte_at (first_eight d) i ≡ 0
first_eight_high d i h =
    let e : i ≡ 8 + (i - 8) = omega arith in
    ap (λ (z : ℕ). byte_at (first_eight d) z) e ∙ first_eight_none d (i - 8)

first_eight-IsBytes : (d : List ℕ) → IsBytes d → IsBytes (first_eight d)
first_eight-IsBytes d h i = elim (Bool-cases (ltb i 8)) [
  | inl t ↦ rw (first_eight_lem d i (ltb→lt i 8 t)) (h i)
  | inr t ↦ rw (first_eight_high d i (ltb→ge i 8 t)) (omega arith)
]

read_u64-or_bytes : (d : List ℕ) → read_u64_little_endian d ≡ or_bytes (first_eight d) 0
unfolding read_u64_little_endian or_bytes
read_u64-or_bytes d =
    let e : byte_at d 0 * 2 ^ 0 ≡ byte_at d 0 = omega arith in
    rw (e, bit_or-zero (byte_at d 7 * 2 ^ 56)) refl

-- The bits of a word that is read from bytes.
bit-read_u64 :
    (d : List ℕ) (k : ℕ) → IsBytes d → bit (read_u64_little_endian d) k ≡ bit_at (first_eight d) k
bit-read_u64 d k h =
    let e : 0 + k ≡ k = omega arith in
    ap (λ (z : ℕ). bit z k) (read_u64-or_bytes d)
    ∙ ap (λ (z : ℕ). bit (or_bytes (first_eight d) 0) z) (sym e)
    ∙ or_bytes_lem (first_eight d) 0 k (first_eight-IsBytes d h)

-- The element with `c` bits from bit `o` on.
unfoldable pub element : List ℕ → ℕ → ℕ → ℕ
element src o c = read_u64_little_endian (copy_with_bit_offset src o c (replicate 8 0))

pub element_lem :
    (src : List ℕ) (o c k : ℕ)
    → IsBytes src
    → c ≤ 64
    → bit (element src o c) k ≡ (if ltb k c then bit_at src (o + k) else 0)
unfolding element
element_lem src o c k bytes fits =
    let d = copy_with_bit_offset src o c (replicate 8 0) in
    let h =
      copy_with_bit_offset-IsBytes src bytes o c (replicate 8 0)
        (λ i. rw (get_or-replicate_self {A = ℕ} 8 i 0) (omega arith)) in
    let read = bit-read_u64 d k h in
    elim (Bool-cases (ltb k 64)) [
      | inl t ↦
          let lt = ltb→lt k 64 t in
          read
          ∙ ap (λ (b : ℕ). bit b (k % 8)) (first_eight_lem d (k / 8) (omega arith))
          ∙ copy_with_bit_offset_lem src o c k bytes fits
      | inr t ↦
          let ge = ltb→ge k 64 t in
          rw (le→ltb_false k c (omega arith)) (
            read
            ∙ ap (λ (b : ℕ). bit b (k % 8)) (first_eight_high d (k / 8) (omega arith))
            ∙ bit-zero (k % 8))
    ]
