-- ===== src/DbEncoding/Packing.antt =====
-- Bits packed into field elements.
use u_psu.Common.{
  ℕ, zero, suc, ◌+◌, ◌-◌, ◌*◌, ◌/◌, ◌^◌, ◌≡◌, ◌<◌, ◌≤◌, refl, sym, ◌∙◌, inl, inr, false, ◌&&◌, List,
  ltb, lt→ltb, le→ltb_false, if◌then◌else◌, get_or, length, min, arith, Bool-cases, ltb→lt, ltb→ge,
}
use mathlib.Core.Path.{subst}
use native.Mathlib.Nat.{div-mul-le_self, le-div_iff_mul-le}
use u_psu.Common.Words.{add32, sub32}
use u_psu.Common.Results.{ok}
use u_psu.Common.Digits.{bit}
use u_psu.DbEncoding.{field_elts, bits_to_field_elts}
use u_psu.DbEncoding.Bits.{bit_at, IsBytes}
use u_psu.DbEncoding.Elements.{element, element_lem}
use u_psu.DbEncoding.Size.{length-field_elts}

module _ (src : List ℕ) (bytes : IsBytes src) (b n : ℕ) (fits : b ≤ 63) (small : n < 2 ^ 31) where
  -- Element `j` has the bits from `j * b` on, as far as there are some.
  field_elts_lem :
      (count off left j k : ℕ)
      → left ≡ n - off
      → off + count * b < 2 ^ 32
      → j < count
      → bit (get_or (field_elts src b count off left) j 0) k
        ≡ (if ltb k b && ltb (off + j * b + k) n then bit_at src (off + j * b + k) else 0)
  unfolding field_elts element
  field_elts_lem zero off left j k e room h = absurd (omega arith)
  field_elts_lem (suc count) off left zero k e room h =
      let one = element_lem src off (min b left) k bytes (omega arith) in
      let none : off + 0 * b ≡ off = omega arith in
      elim (Bool-cases (ltb k (min b left))) [
        | inl t ↦
            let lt = ltb→lt k (min b left) t in
            rw (none, lt→ltb k b (omega arith), lt→ltb (off + k) n (omega arith)) (one ∙ rw t refl)
        | inr t ↦
            let ge = ltb→ge k (min b left) t in rw none (one ∙ rw t (sym (beyond off left k e ge)))
      ]
    where
      beyond :
          (off left k : ℕ)
          → left ≡ n - off
          → min b left ≤ k
          → (if ltb k b && ltb (off + k) n then bit_at src (off + k) else 0) ≡ 0
      beyond off left k e ge = elim (Bool-cases (ltb k b)) [
        | inr t ↦ rw t refl
        | inl t ↦ let lt = ltb→lt k b t in rw (t, le→ltb_false (off + k) n (omega arith)) refl
      ]
  field_elts_lem (suc count) off left (suc j) k e room h =
      let next : (suc count) * b ≡ b + count * b = grind arith in
      let off' : add32 off b ≡ off + b = omega arith in
      let left' : sub32 left (min b left) ≡ n - (off + b) = omega arith in
      let place : off + suc j * b + k ≡ off + b + j * b + k = grind arith in
      rw (place, off', left')
        (field_elts_lem count (off + b) (n - (off + b)) j k refl (omega arith) (omega arith))

-- Packing fewer than 2^31 bits for a modulus of 2 to 64 bits ends without an exception. There are
-- as many elements as needed, and the bits of element `j` are the bits of the string from
-- `j * bits_per_felt` on, `bits_per_felt` of them or as many as are left, with zeros above.
pub bits_to_field_elts_lem :
    (src : List ℕ) (bits bit_count j k : ℕ)
    → IsBytes src
    → bits < 2 ^ 31
    → 1 < bit_count
    → bit_count ≤ 64
    → j * (bit_count - 1) < bits
    → (felts : List ℕ) × (bits_to_field_elts (src, bits) false bit_count ≡ ok felts)
      × (length felts ≡ (bits + (bit_count - 1) - 1) / (bit_count - 1))
      × (j < length felts)
      × (bit (get_or felts j 0) k ≡ (
          if ltb k (bit_count - 1) && ltb (j * (bit_count - 1) + k) bits
          then bit_at src (j * (bit_count - 1) + k)
          else 0))
unfolding bits_to_field_elts
bits_to_field_elts_lem src n c j k bytes small more few below =
    let b : ℕ = c - 1 in
    let num : ℕ = (n + b - 1) / b in
    let sub : sub32 c 1 ≡ b = omega arith in
    let ceil : sub32 (add32 n b) 1 ≡ n + b - 1 = omega arith in
    let least = div-mul-le_self (n + b - 1) b in
    let count : j < num =
      let next : (j + 1) * b ≡ j * b + b = grind arith in
      let pos : 0 < b = omega arith in
      let enough : j + 1 ≤ num =
        (le-div_iff_mul-le {k = b} {x = j + 1} {y = n + b - 1} pos).1 (omega arith) in
      omega arith in
    (
      field_elts src b num 0 n,
      rw (sub, ceil) refl,
      length-field_elts src b num 0 n,
      rw (length-field_elts src b num 0 n) count,
      let start : 0 + j * b + k ≡ j * b + k = omega arith in
          subst
            (λ (o : ℕ).
              bit (get_or (field_elts src b num 0 n) j 0) k
              ≡ (if ltb k b && ltb o n then bit_at src o else 0))
            start
            (field_elts_lem src bytes b n (omega arith) small num 0 n j k (omega arith)
              (omega arith) count),
    )
