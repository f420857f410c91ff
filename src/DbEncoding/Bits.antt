-- ===== src/DbEncoding/Bits.antt =====
-- The bits that copy_with_bit_offset copies into a zero element.
use Prim.Native.Nat.{bit_and, bit_or}
use u_psu.Common.{
  ℕ, ◌+◌, ◌-◌, ◌*◌, ◌/◌, ◌%◌, ◌^◌, ◌≡◌, ◌<◌, refl, ap, ◌∙◌, inl, inr, true, false, List, ltb, leb,
  leb→le, leb→gt, if◌then◌else◌, arith, Bool-cases, ltb→lt, ltb→ge, lt→ltb, le→ltb_false,
}
use u_psu.Common.Digits.{
  bit, bit-lt, bit-zero, bit-bit_and, bit-bit_or, bit-mul_low, bit-mul_high, bit-div, bit-mod_low,
  bit-lt_pow, bit-ones,
}
use native.Mathlib.Nat.{one-le-pow}
use u_psu.DbEncoding.{byte_at, last_byte}

-- The bit at some place of a string of bytes, each with its low bit first.
abbrev pub bit_at : List ℕ → ℕ → ℕ
bit_at src o = bit (byte_at src (o / 8)) (o % 8)

abbrev pub IsBytes : List ℕ → Type 0
IsBytes src = (i : ℕ) → byte_at src i < 2 ^ 8

pub bit_at_split : (src : List ℕ) (q r : ℕ) → r < 8 → bit_at src (8 * q + r) ≡ bit (byte_at src q) r
bit_at_split src q r h =
    let e : (8 * q + r) / 8 ≡ q = omega arith in
    let f : (8 * q + r) % 8 ≡ r = omega arith in rw (e, f) refl

pub bit_at_eq :
    (src : List ℕ) (o q r : ℕ) → o ≡ 8 * q + r → r < 8 → bit_at src o ≡ bit (byte_at src q) r
bit_at_eq src o q r e h = ap (λ (z : ℕ). bit_at src z) e ∙ bit_at_split src q r h

abbrev pub shifted : List ℕ → ℕ → ℕ → ℕ
shifted src low i = bit_or (byte_at src i / 2 ^ low) (byte_at src (i + 1) * 2 ^ (8 - low) % 2 ^ 8)

pub bit-shifted :
    (src : List ℕ) (low i r : ℕ)
    → IsBytes src
    → low < 8
    → r < 8
    → bit (shifted src low i) r ≡ bit_at src (8 * i + low + r)
bit-shifted src low i r bytes h g =
    let a : ℕ = byte_at src i in
    let b : ℕ = byte_at src (i + 1) in
    let first : bit (a / 2 ^ low) r ≡ bit a (low + r) = bit-div a low r in
    let second : bit (b * 2 ^ (8 - low) % 2 ^ 8) r ≡ bit (b * 2 ^ (8 - low)) r =
      bit-mod_low (b * 2 ^ (8 - low)) 8 r g in
    let both = bit-bit_or (a / 2 ^ low) (b * 2 ^ (8 - low) % 2 ^ 8) r in
    elim (Bool-cases (ltb (low + r) 8)) [
      | inl t ↦
          let lt = ltb→lt (low + r) 8 t in
          let none : bit (b * 2 ^ (8 - low)) r ≡ 0 = bit-mul_low b (8 - low) r (omega arith) in
          let goal = bit_at_eq src (8 * i + low + r) i (low + r) (omega arith) lt in
          omega (arith, first, second, both, none, goal)
      | inr t ↦
          let ge = ltb→ge (low + r) 8 t in
          let none : bit a (low + r) ≡ 0 = bit-lt_pow a 8 (low + r) (bytes i) ge in
          let place : r ≡ (8 - low) + (low + r - 8) = omega arith in
          let some : bit (b * 2 ^ (8 - low)) r ≡ bit b (low + r - 8) =
            ap (λ (z : ℕ). bit (b * 2 ^ (8 - low)) z) place
            ∙ bit-mul_high b (8 - low) (low + r - 8) in
          let goal =
            bit_at_eq src (8 * i + low + r) (i + 1) (low + r - 8) (omega arith) (omega arith) in
          omega (arith, first, second, both, none, some, goal)
    ]

-- The bits of a masked number.
bit-masked : (a w r : ℕ) → bit (bit_and a (2 ^ w - 1)) r ≡ (if ltb r w then bit a r else 0)
bit-masked a w r = elim (Bool-cases (ltb r w)) [
  | inl t ↦
      let ones = bit-ones w r (ltb→lt r w t) in
      let both = bit-bit_and a (2 ^ w - 1) r in
      let small = bit-lt a r in rw t (omega (arith, ones, both, small))
  | inr t ↦
      let pos = one-le-pow w 2 in
      let none = bit-lt_pow (2 ^ w - 1) w r (omega (arith, pos)) (ltb→ge r w t) in
      let both = bit-bit_and a (2 ^ w - 1) r in rw t (omega (arith, none, both))
]

-- The last byte of a zero element, where its bits lie in one byte of the source.
bit-last_byte_one :
    (src : List ℕ) (low rem i r : ℕ)
    → IsBytes src
    → low < 8
    → rem < 8
    → r < 8
    → leb (low + rem) 8 ≡ true
    → bit (last_byte src low rem i 0) r ≡ (if ltb r rem then bit_at src (8 * i + low + r) else 0)
unfolding last_byte
bit-last_byte_one src low rem i r bytes h hr g t =
    let a : ℕ = byte_at src i in
    let first : bit (a / 2 ^ low) r ≡ bit a (low + r) = bit-div a low r in
    let le = leb→le (low + rem) 8 t in
    let mask : ℕ = 2 ^ rem - 1 in
    let masked = bit-masked (a / 2 ^ low) rem r in
    let both = bit-bit_or (bit_and (a / 2 ^ low) mask) (bit_and 0 (255 - mask)) r in
    let none = bit-bit_and 0 (255 - mask) r in
    let zeros = bit-zero r in
    elim (Bool-cases (ltb r rem)) [
      | inl q ↦
          let lt = ltb→lt r rem q in
          let goal = bit_at_eq src (8 * i + low + r) i (low + r) (omega arith) (omega arith) in
          let m : bit (bit_and (a / 2 ^ low) mask) r ≡ bit (a / 2 ^ low) r = masked ∙ rw q refl in
          rw (t, q) (omega (arith, first, both, none, zeros, goal, m))
      | inr q ↦
          let m : bit (bit_and (a / 2 ^ low) mask) r ≡ 0 = masked ∙ rw q refl in
          rw (t, q) (omega (arith, both, none, zeros, m))
    ]

-- The same where they lie in two bytes.
bit-last_byte_two :
    (src : List ℕ) (low rem i r : ℕ)
    → IsBytes src
    → low < 8
    → rem < 8
    → r < 8
    → leb (low + rem) 8 ≡ false
    → bit (last_byte src low rem i 0) r ≡ (if ltb r rem then bit_at src (8 * i + low + r) else 0)
unfolding last_byte
bit-last_byte_two src low rem i r bytes h hr g t =
    let a : ℕ = byte_at src i in
    let b : ℕ = byte_at src (i + 1) in
    let first : bit (a / 2 ^ low) r ≡ bit a (low + r) = bit-div a low r in
    let gt = leb→gt (low + rem) 8 t in
    let lc : ℕ = 8 - low in
    let mc : ℕ = rem - lc in
    let l : ℕ = bit_and (a / 2 ^ low) (2 ^ lc - 1) in
    let mid : ℕ = bit_and b (2 ^ mc - 1) in
    let z : ℕ = bit_and 0 ((2 ^ 32 - 1) * 2 ^ rem % 2 ^ 8) in
    let outer = bit-bit_or l (bit_or (mid * 2 ^ lc % 2 ^ 8) z) r in
    let inner = bit-bit_or (mid * 2 ^ lc % 2 ^ 8) z r in
    let none = bit-bit_and 0 ((2 ^ 32 - 1) * 2 ^ rem % 2 ^ 8) r in
    let zeros = bit-zero r in
    let cut : bit (mid * 2 ^ lc % 2 ^ 8) r ≡ bit (mid * 2 ^ lc) r =
      bit-mod_low (mid * 2 ^ lc) 8 r g in
    let lows = bit-masked (a / 2 ^ low) lc r in
    elim (Bool-cases (ltb r lc)) [
      | inl p ↦
          let lt = ltb→lt r lc p in
          let q : ltb r rem ≡ true = lt→ltb r rem (omega arith) in
          let low_bit : bit l r ≡ bit (a / 2 ^ low) r = lows ∙ rw p refl in
          let no_mid : bit (mid * 2 ^ lc) r ≡ 0 = bit-mul_low mid lc r lt in
          let goal = bit_at_eq src (8 * i + low + r) i (low + r) (omega arith) (omega arith) in
          rw (t, q) (omega (arith, first, outer, inner, none, zeros, cut, low_bit, no_mid, goal))
      | inr p ↦
          let ge = ltb→ge r lc p in
          let s : ℕ = r - lc in
          let place : r ≡ lc + s = omega arith in
          let no_low : bit l r ≡ 0 = lows ∙ rw p refl in
          let mid_bit : bit (mid * 2 ^ lc) r ≡ bit mid s =
            ap (λ (w : ℕ). bit (mid * 2 ^ lc) w) place ∙ bit-mul_high mid lc s in
          let mids = bit-masked b mc s in
          elim (Bool-cases (ltb r rem)) [
            | inl q ↦
                let lt = ltb→lt r rem q in
                let p' : ltb s mc ≡ true = lt→ltb s mc (omega arith) in
                let m : bit mid s ≡ bit b s = mids ∙ rw p' refl in
                let goal = bit_at_eq src (8 * i + low + r) (i + 1) s (omega arith) (omega arith) in
                rw (t, q) (omega (arith, outer, inner, none, zeros, cut, no_low, mid_bit, m, goal))
            | inr q ↦
                let high = ltb→ge r rem q in
                let p' : ltb s mc ≡ false = le→ltb_false s mc (omega arith) in
                let m : bit mid s ≡ 0 = mids ∙ rw p' refl in
                rw (t, q) (omega (arith, outer, inner, none, zeros, cut, no_low, mid_bit, m))
          ]
    ]

-- The last byte of a zero element: `rem` bits are copied, and the rest is 0.
pub bit-last_byte :
    (src : List ℕ) (low rem i r : ℕ)
    → IsBytes src
    → low < 8
    → rem < 8
    → r < 8
    → bit (last_byte src low rem i 0) r ≡ (if ltb r rem then bit_at src (8 * i + low + r) else 0)
bit-last_byte src low rem i r bytes h hr g = elim (Bool-cases (leb (low + rem) 8)) [
  | inl t ↦ bit-last_byte_one src low rem i r bytes h hr g t
  | inr t ↦ bit-last_byte_two src low rem i r bytes h hr g t
]
