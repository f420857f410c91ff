-- ===== src/Common/Digits.antt =====
-- The binary digits of a number, and what the word operations do to each of them.
use Prim.Native.Nat.{
  ℕ, zero, suc, ◌+◌, ◌-◌, ◌*◌, ◌/◌, ◌%◌, ◌^◌, ◌≤◌, ◌<◌, max, min, bit_and, bit_or, bit_xor, differ,
  bit_and-bitwise,
}
use mathlib.Core.Path.{◌≡◌, refl, ap, sym, ◌∙◌}
use native.Mathlib.Nat.{
  pow-suc, div-div-eq-div-mul, one-le-pow, mod-add-div', mod-lt, mod-eq_of_lt,
  add-mul-mod_self_right,
}
use native.Mathlib.Omega.{arith}
use u_psu.Common.Bits.{bit_or_step, bit_xor_step, bit_and_step}

abbrev pub bit : ℕ → ℕ → ℕ
bit a zero = a % 2
bit a (suc i) = bit (a / 2) i

pub bit-lt : (a i : ℕ) → bit a i < 2
bit-lt a zero = omega arith
bit-lt a (suc i) = bit-lt (a / 2) i

pub bit-zero : (i : ℕ) → bit 0 i ≡ 0
bit-zero zero = refl
bit-zero (suc i) = bit-zero i

low_part : (d n : ℕ) → d < 2 → ((d + 2 * n) % 2 ≡ d) × ((d + 2 * n) / 2 ≡ n)
low_part d n h = (omega arith, omega arith)

-- An operation on digits that gives a digit.
module _ (op digit : ℕ → ℕ → ℕ)
    (step : (a b : ℕ) → op a b ≡ digit (a % 2) (b % 2) + 2 * op (a / 2) (b / 2))
    (small : (d e : ℕ) → d < 2 → e < 2 → digit d e < 2) where
  bit_op : (a b i : ℕ) → bit (op a b) i ≡ digit (bit a i) (bit b i)
  bit_op a b zero =
      let s = small (a % 2) (b % 2) (omega arith) (omega arith) in
      rw (step a b) (low_part (digit (a % 2) (b % 2)) (op (a / 2) (b / 2)) s).0
  bit_op a b (suc i) =
      let s = small (a % 2) (b % 2) (omega arith) (omega arith) in
      ap (λ (t : ℕ). bit t i)
        (ap (λ (t : ℕ). t / 2) (step a b)
          ∙ (low_part (digit (a % 2) (b % 2)) (op (a / 2) (b / 2)) s).1)
      ∙ bit_op (a / 2) (b / 2) i

min-lt_two : (d e : ℕ) → d < 2 → e < 2 → min d e < 2
min-lt_two d e h g = omega arith

max-lt_two : (d e : ℕ) → d < 2 → e < 2 → max d e < 2
max-lt_two d e h g = omega arith

pub differ-lt_two : (d e : ℕ) → d < 2 → e < 2 → differ d e < 2
differ-lt_two zero e h g = g
differ-lt_two (suc d) zero h g = h
differ-lt_two (suc zero) (suc e) h g = omega arith
differ-lt_two (suc (suc d)) (suc e) h g = absurd (omega arith)

pub bit-bit_and : (a b i : ℕ) → bit (bit_and a b) i ≡ min (bit a i) (bit b i)
bit-bit_and = bit_op bit_and min bit_and_step min-lt_two

pub bit-bit_or : (a b i : ℕ) → bit (bit_or a b) i ≡ max (bit a i) (bit b i)
bit-bit_or = bit_op bit_or max bit_or_step max-lt_two

pub bit-bit_xor : (a b i : ℕ) → bit (bit_xor a b) i ≡ differ (bit a i) (bit b i)
bit-bit_xor = bit_op bit_xor differ bit_xor_step differ-lt_two

mul-pow_suc : (a k : ℕ) → a * 2 ^ suc k ≡ 0 + 2 * (a * 2 ^ k)
mul-pow_suc a k = omega (arith, ap (λ (t : ℕ). a * t) (pow-suc 2 k))

-- `a << k`
pub bit-mul_low : (a k i : ℕ) → i < k → bit (a * 2 ^ k) i ≡ 0
bit-mul_low a zero i h = absurd (omega arith)
bit-mul_low a (suc k) zero h = rw (mul-pow_suc a k) (omega arith)
bit-mul_low a (suc k) (suc i) h =
    rw (mul-pow_suc a k, (low_part 0 (a * 2 ^ k) (omega arith)).1) (bit-mul_low a k i (omega arith))

pub bit-mul_high : (a k i : ℕ) → bit (a * 2 ^ k) (k + i) ≡ bit a i
bit-mul_high a zero i =
    let same : a * 2 ^ 0 ≡ a = omega arith in
    let none : 0 + i ≡ i = omega arith in rw (same, none) refl
bit-mul_high a (suc k) i =
    let next : suc k + i ≡ suc (k + i) = omega arith in
    rw next (
      ap (λ (t : ℕ). bit (t / 2) (k + i)) (mul-pow_suc a k)
      ∙ ap (λ (t : ℕ). bit t (k + i)) (low_part 0 (a * 2 ^ k) (omega arith)).1
      ∙ bit-mul_high a k i)

-- `a >> k`
pub bit-div : (a k i : ℕ) → bit (a / 2 ^ k) i ≡ bit a (k + i)
bit-div a zero i =
    let same : a / 2 ^ 0 ≡ a = omega arith in
    let none : 0 + i ≡ i = omega arith in rw (same, none) refl
bit-div a (suc k) i =
    let next : suc k + i ≡ suc (k + i) = omega arith in
    let halved : a / 2 ^ suc k ≡ a / 2 / 2 ^ k =
      ap (λ (t : ℕ). a / t) (pow-suc 2 k ∙ omega arith) ∙ sym (div-div-eq-div-mul a 2 (2 ^ k)) in
    rw (next, halved) (bit-div (a / 2) k i)

-- The low `w` digits.
mod-pow_suc : (a w : ℕ) → a % 2 ^ suc w ≡ a % 2 + 2 * (a / 2 % 2 ^ w)
mod-pow_suc a w =
    let n : ℕ = a / 2 in
    let r : ℕ = n % 2 ^ w in
    let q : ℕ = n / 2 ^ w in
    let parts : r + q * 2 ^ w ≡ n = mod-add-div' n (2 ^ w) in
    let small : r < 2 ^ w = mod-lt n (one-le-pow w 2 (omega arith)) in
    let whole : a ≡ a % 2 + 2 * r + q * 2 ^ suc w =
      omega (arith, ap (λ (t : ℕ). q * t) (pow-suc 2 w)) in
    let fits : a % 2 + 2 * r < 2 ^ suc w = omega (arith, pow-suc 2 w) in
    ap (λ (t : ℕ). t % 2 ^ suc w) whole
    ∙ add-mul-mod_self_right (a % 2 + 2 * r) q (2 ^ suc w)
    ∙ mod-eq_of_lt fits

pub bit-mod_low : (a w i : ℕ) → i < w → bit (a % 2 ^ w) i ≡ bit a i
bit-mod_low a zero i h = absurd (omega arith)
bit-mod_low a (suc w) zero h = ap (λ (t : ℕ). t % 2) (mod-pow_suc a w) ∙ omega arith
bit-mod_low a (suc w) (suc i) h =
    ap (λ (t : ℕ). bit (t / 2) i) (mod-pow_suc a w)
    ∙ ap (λ (t : ℕ). bit t i) (low_part (a % 2) (a / 2 % 2 ^ w) (omega arith)).1
    ∙ bit-mod_low (a / 2) w i (omega arith)

pub bit-lt_pow : (a w i : ℕ) → a < 2 ^ w → w ≤ i → bit a i ≡ 0
bit-lt_pow a zero i h g = let none : a ≡ 0 = omega arith in rw none (bit-zero i)
bit-lt_pow a (suc w) zero h g = absurd (omega arith)
bit-lt_pow a (suc w) (suc i) h g = bit-lt_pow (a / 2) w i (omega (arith, pow-suc 2 w)) (omega arith)

-- `(1 << w) - 1`
pub bit-ones : (w i : ℕ) → i < w → bit (2 ^ w - 1) i ≡ 1
bit-ones zero i h = absurd (omega arith)
bit-ones (suc w) zero h = omega (arith, pow-suc 2 w, one-le-pow w 2)
bit-ones (suc w) (suc i) h =
    let half : (2 ^ suc w - 1) / 2 ≡ 2 ^ w - 1 = omega (arith, pow-suc 2 w) in
    rw half (bit-ones w i (omega arith))

-- `~a` for words of `w` bits.
pub bit-complement : (a w i : ℕ) → a < 2 ^ w → i < w → bit (2 ^ w - 1 - a) i ≡ 1 - bit a i
bit-complement a zero i h g = absurd (omega arith)
bit-complement a (suc w) zero h g = omega (arith, pow-suc 2 w)
bit-complement a (suc w) (suc i) h g =
    let half : (2 ^ suc w - 1 - a) / 2 ≡ 2 ^ w - 1 - a / 2 = omega (arith, pow-suc 2 w) in
    rw half (bit-complement (a / 2) w i (omega (arith, pow-suc 2 w)) (omega arith))

-- Words with the same digits are the same.
pub bit_ext : (w a b : ℕ) → a < 2 ^ w → b < 2 ^ w → ((i : ℕ) → i < w → bit a i ≡ bit b i) → a ≡ b
bit_ext zero a b h g e = omega arith
bit_ext (suc w) a b h g e =
    let low = e 0 (omega arith) in
    let high =
      bit_ext w (a / 2) (b / 2) (omega (arith, pow-suc 2 w)) (omega (arith, pow-suc 2 w))
        (λ i lt. e (suc i) (omega arith)) in
    omega arith

-- A number whose digits from `w` on are 0 fits `w` bits.
pub lt-pow_of_bit : (v w a : ℕ) → a < 2 ^ v → ((i : ℕ) → w ≤ i → bit a i ≡ 0) → a < 2 ^ w
lt-pow_of_bit zero w a h z = omega (arith, one-le-pow w 2)
lt-pow_of_bit (suc v) zero a h z =
    let low = z 0 (omega arith) in
    let rest =
      lt-pow_of_bit v 0 (a / 2) (omega (arith, pow-suc 2 v)) (λ i le. z (suc i) (omega arith)) in
    omega arith
lt-pow_of_bit (suc v) (suc w) a h z =
    let rest =
      lt-pow_of_bit v w (a / 2) (omega (arith, pow-suc 2 v)) (λ i le. z (suc i) (omega arith)) in
    omega (arith, pow-suc 2 w)

bit_and_zero : (b : ℕ) → bit_and 0 b ≡ 0
bit_and_zero b = bit_and-bitwise 0 b

pub bit_and-lt_pow : (w a b : ℕ) → a < 2 ^ w → bit_and a b < 2 ^ w
bit_and-lt_pow zero a b h =
    let none : a ≡ 0 = omega arith in rw (none, bit_and_zero b) (omega arith)
bit_and-lt_pow (suc w) a b h = omega (
  arith,
  bit_and_step a b,
  bit_and-lt_pow w (a / 2) (b / 2) (omega (arith, pow-suc 2 w)),
  pow-suc 2 w,
)

pub bit_or-lt_pow : (w a b : ℕ) → a < 2 ^ w → b < 2 ^ w → bit_or a b < 2 ^ w
bit_or-lt_pow zero a b h g =
    let none : a ≡ 0 = omega arith in
    let none' : b ≡ 0 = omega arith in rw (none, none') (omega arith)
bit_or-lt_pow (suc w) a b h g = omega (
  arith,
  bit_or_step a b,
  bit_or-lt_pow w (a / 2) (b / 2) (omega (arith, pow-suc 2 w)) (omega (arith, pow-suc 2 w)),
  pow-suc 2 w,
)
