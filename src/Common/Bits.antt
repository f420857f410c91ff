-- ===== src/Common/Bits.antt =====
-- `|`, `^` and `&` at the low digit and beside disjoint bits.
use Prim.Native.Nat.{
  ℕ, zero, suc, ◌+◌, ◌*◌, ◌/◌, ◌%◌, ◌^◌, ◌≤◌, ◌<◌, max, bit_and, bit_or, bit_xor, bitwise, digits,
  bit_or-bitwise, bit_xor-bitwise, bit_and-bitwise, differ, min,
}
use mathlib.Core.Path.{◌≡◌, refl, ap, ◌∙◌}
use native.Mathlib.Nat.{pow-suc}
use native.Mathlib.Omega.{arith}

module _ (rest : ℕ → ℕ) (digit : ℕ → ℕ → ℕ) where
  -- More digits than the number has do not matter.
  spare :
      (few many a b : ℕ)
      → a ≤ few
      → few ≤ many
      → digits rest digit many a b ≡ digits rest digit few a b
  spare zero zero a b le more = refl
  spare (suc few) zero a b le more = absurd (omega arith)
  spare zero (suc many) (suc a) b le more = absurd (omega arith)
  spare zero (suc many) zero b le more = refl
  spare (suc few) (suc many) zero b le more = refl
  spare (suc few) (suc many) (suc a) b le more =
      let above = spare few many (suc a / 2) (b / 2) (omega arith) (omega arith) in
      omega (arith, above)

  low_digit :
      (a b : ℕ)
      → bitwise rest digit (suc a) b
        ≡ digit (suc a % 2) (b % 2) + 2 * bitwise rest digit (suc a / 2) (b / 2)
  low_digit a b =
      let enough = spare (suc a / 2) a (suc a / 2) (b / 2) (omega arith) (omega arith) in
      omega (arith, enough)

  -- A second number 0 whose digits change nothing.
  neutral : rest 0 ≡ 0 → ((d : ℕ) → digit d 0 ≡ d) → (n a : ℕ) → a ≤ n → bitwise rest digit a 0 ≡ a
  neutral hr hd n zero le = hr
  neutral hr hd zero (suc a) le = absurd (omega arith)
  neutral hr hd (suc n) (suc a) le =
      let above = neutral hr hd n (suc a / 2) (omega arith) in
      omega (arith, low_digit a 0, hd (suc a % 2))

  -- A second number 0 whose digits clear all.
  clearing :
      ((x : ℕ) → rest x ≡ 0)
      → ((d : ℕ) → digit d 0 ≡ 0)
      → (n a : ℕ) → a ≤ n
      → bitwise rest digit a 0 ≡ 0
  clearing hr hd n zero le = hr 0
  clearing hr hd zero (suc a) le = absurd (omega arith)
  clearing hr hd (suc n) (suc a) le =
      let above = clearing hr hd n (suc a / 2) (omega arith) in
      omega (arith, low_digit a 0, hd (suc a % 2))

pub bit_or_step : (a b : ℕ) → bit_or a b ≡ max (a % 2) (b % 2) + 2 * bit_or (a / 2) (b / 2)
bit_or_step (suc a) b = simp bit_or-bitwise (low_digit (λ x. x) max a b)
bit_or_step zero b = simp bit_or-bitwise (omega arith)

pub bit_xor_step : (a b : ℕ) → bit_xor a b ≡ differ (a % 2) (b % 2) + 2 * bit_xor (a / 2) (b / 2)
bit_xor_step (suc a) b = simp bit_xor-bitwise (low_digit (λ x. x) differ a b)
bit_xor_step zero b = simp bit_xor-bitwise (omega arith)

pub bit_and_step : (a b : ℕ) → bit_and a b ≡ min (a % 2) (b % 2) + 2 * bit_and (a / 2) (b / 2)
bit_and_step (suc a) b = simp bit_and-bitwise (low_digit (λ x. zero) min a b)
bit_and_step zero b = simp bit_and-bitwise (omega arith)

differ-zero : (d : ℕ) → differ d 0 ≡ d
differ-zero zero = refl
differ-zero (suc d) = refl

pub bit_or-zero : (a : ℕ) → bit_or a 0 ≡ a
bit_or-zero a = simp bit_or-bitwise (neutral (λ x. x) max refl (λ d. omega arith) a a (omega arith))

bit_xor-zero : (a : ℕ) → bit_xor a 0 ≡ a
bit_xor-zero a = simp bit_xor-bitwise (neutral (λ x. x) differ refl differ-zero a a (omega arith))

pub bit_and-zero : (a : ℕ) → bit_and a 0 ≡ 0
bit_and-zero a =
    simp bit_and-bitwise (clearing (λ x. zero) min (λ x. refl) (λ d. omega arith) a a (omega arith))

-- A digit above the bits of `r`.
pub bit_or_above : (m j r : ℕ) → r < 2 ^ m → bit_or (j * 2 ^ m) r ≡ j * 2 ^ m + r
bit_or_above zero j r h =
    let none : r ≡ 0 = omega arith in rw none (bit_or-zero (j * 2 ^ 0) ∙ omega arith)
bit_or_above (suc m) j r h =
    let power : j * 2 ^ suc m ≡ 2 * (j * 2 ^ m) =
      omega (arith, ap (λ (t : ℕ). j * t) (pow-suc 2 m)) in
    let fits : r / 2 < 2 ^ m = omega (arith, pow-suc 2 m) in
    ground (arith, bit_or_step (j * 2 ^ suc m) r, bit_or_above m j (r / 2))

-- `i | j`, `(i | j) ^ s` and `i & 1` for an even `i` and bits `j` and `s`.
pub even-bit_or : (k j : ℕ) → j < 2 → bit_or (2 * k) j ≡ 2 * k + j
even-bit_or k j h =
    let top : bit_or (2 * k / 2) (j / 2) ≡ k =
      let e : 2 * k / 2 ≡ k = omega arith in
      let z : j / 2 ≡ 0 = omega arith in rw (e, z) (bit_or-zero k) in
    omega (arith, bit_or_step (2 * k) j)

pub bit_xor_low : (k j s : ℕ) → j < 2 → s < 2 → bit_xor (2 * k + j) s ≡ 2 * k + differ j s
bit_xor_low k j s h g =
    let top : bit_xor ((2 * k + j) / 2) (s / 2) ≡ k =
      let e : (2 * k + j) / 2 ≡ k = omega arith in
      let z : s / 2 ≡ 0 = omega arith in rw (e, z) (bit_xor-zero k) in
    let low : (2 * k + j) % 2 ≡ j = omega arith in
    let bit : s % 2 ≡ s = omega arith in
    let step = bit_xor_step (2 * k + j) s in
    let step' : bit_xor (2 * k + j) s ≡ differ j s + 2 * k = step ∙ rw (top, low, bit) refl in
    omega arith

pub bit_and_low : (k j : ℕ) → j < 2 → bit_and (2 * k + j) 1 ≡ j
bit_and_low k j h =
    let top : bit_and ((2 * k + j) / 2) 0 ≡ 0 = bit_and-zero ((2 * k + j) / 2) in
    omega (arith, bit_and_step (2 * k + j) 1)
