-- ===== src/Tests/Encoding.antt =====
-- Ten bits in elements of four bits.
use u_psu.Common.{
  ℕ, zero, suc, ◌+◌, ◌-◌, ◌*◌, ◌/◌, ◌≡◌, ◌<◌, refl, false, ◌&&◌, List, [], ◌∷◌, ltb, if◌then◌else◌,
  get_or, length, arith,
}
use u_psu.Common.Results.{ok}
use u_psu.Common.Digits.{bit}
use u_psu.DbEncoding.{bits_to_field_elts, algebraize_item_label, write_u64_little_endian}
use u_psu.DbEncoding.Bits.{bit_at, IsBytes}
use u_psu.DbEncoding.Packing.{bits_to_field_elts_lem}

abbrev src : List ℕ
src = 214 ∷ 3 ∷ []

packed : bits_to_field_elts (src, 10) false 5 ≡ ok (6 ∷ 13 ∷ 3 ∷ [])
unfolding bits_to_field_elts
packed = refl

src-IsBytes : IsBytes src
src-IsBytes zero = omega arith
src-IsBytes (suc zero) = omega arith
src-IsBytes (suc (suc i)) = omega arith

bits_to_field_elts_lem_example :
    (felts : List ℕ) × (bits_to_field_elts (src, 10) false 5 ≡ ok felts)
    × (length felts ≡ (10 + (5 - 1) - 1) / (5 - 1))
    × (1 < length felts)
    × (bit (get_or felts 1 0) 2
        ≡ (if ltb 2 (5 - 1) && ltb (1 * (5 - 1) + 2) 10 then bit_at src (1 * (5 - 1) + 2) else 0))
bits_to_field_elts_lem_example =
    bits_to_field_elts_lem src 10 5 1 2 src-IsBytes (omega arith) (omega arith) (omega arith)
      (omega arith)

labeled_item : algebraize_item_label (5, 0) (7 ∷ []) 8 false 5 ≡ ok ((5, 7 ∷ []) ∷ (0, 0 ∷ []) ∷ [])
unfolding algebraize_item_label write_u64_little_endian bits_to_field_elts
labeled_item = refl
