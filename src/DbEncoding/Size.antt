-- ===== src/DbEncoding/Size.antt =====
-- The number of elements of an item.
use u_psu.Common.{
  ℕ, zero, suc, ◌+◌, ◌-◌, ◌*◌, ◌/◌, ◌^◌, ◌≡◌, ◌<◌, ◌≤◌, refl, ap, false, List, length, arith,
  lt→ltb, le→ltb_false, ◌==◌,
}
use native.Mathlib.Nat.{div-eq_of_lt-le, mul-le-mul_right}
use u_psu.Common.Words.{add32, sub32, mul32}
use u_psu.Common.Results.{ok}
use u_psu.DbEncoding.{
  Item, item_bytes, write_u64_little_endian, safe_cast_u32, bitstring_view, field_elts,
  bits_to_field_elts, algebraize_item,
}

pub length-field_elts :
    (src : List ℕ) (bits count offset left : ℕ)
    → length (field_elts src bits count offset left) ≡ count
unfolding field_elts
length-field_elts src bits zero offset left = refl
length-field_elts src bits (suc count) offset left = ap suc (length-field_elts src bits count _ _)

length-item_bytes : (item : Item) → length (item_bytes item) ≡ 16
unfolding write_u64_little_endian
length-item_bytes (lw, hw) = refl

whole_elts : (b n : ℕ) → 0 < b → (b * n + b - 1) / b ≡ n
whole_elts b n pos =
    div-eq_of_lt-le b {m = b * n + b - 1} (let swap : n * b ≡ b * n = grind arith in omega arith)
      (let next : (n + 1) * b ≡ b * n + b = grind arith in omega arith)

-- An item whose bits fill its elements has exactly that many of them.
pub algebraize_item_lem :
    (item : Item) (felts bit_count : ℕ)
    → 1 < bit_count
    → bit_count ≤ 64
    → 0 < felts
    → sub32 bit_count 1 * felts ≤ 128
    → (alg : List ℕ) × (algebraize_item item (mul32 (sub32 bit_count 1) felts) false bit_count
        ≡ ok alg)
      × (length alg ≡ felts)
unfolding algebraize_item safe_cast_u32 bitstring_view bits_to_field_elts
algebraize_item_lem item felts bit_count more few pos fits =
    let b : ℕ = sub32 bit_count 1 in
    let some_bits : 0 < b = omega arith in
    let least : 1 * felts ≤ b * felts = mul-le-mul_right felts some_bits in
    let total : mul32 b felts ≡ b * felts = omega arith in
    let ceil : sub32 (add32 (b * felts) b) 1 ≡ b * felts + b - 1 = omega arith in
    let none_empty : (b * felts == 0) ≡ false = ne_==_zero (b * felts) (omega arith) in
    (
      field_elts (item_bytes item) b felts 0 (b * felts),
      rw
          (
            total,
            lt→ltb (b * felts) (2 ^ 32) (omega arith),
            none_empty,
            length-item_bytes item,
            le→ltb_false (16 * 8) (b * felts) (omega arith),
            ceil,
            whole_elts b felts some_bits,
          )
          refl,
      length-field_elts (item_bytes item) b felts 0 (b * felts),
    )
  where
    ne_==_zero : (n : ℕ) → 0 < n → (n == 0) ≡ false
    ne_==_zero n h = ground arith
