-- ===== src/Conversion.antt =====
-- conversion_to_digits of common/apsu/util/utils.cpp. Its loop runs on fuel; 64 is enough for a
-- 64-bit number and a base from 2 on.
use u_psu.Common.{
  ℕ, zero, suc, ◌+◌, ◌*◌, ◌/◌, ◌%◌, ◌^◌, ◌≤◌, ◌<◌, ◌≡◌, refl, sym, ap, ◌∙◌, inl, inr, Option, none,
  some, List, [], ◌∷◌, ltb, ltb→ge, if◌then◌else◌, arith, Bool-cases,
}
use native.Mathlib.Nat.{mod-lt, mod-add-div, pow-suc, mul-le-mul_right}

unfoldable pub conversion_to_digits : ℕ → ℕ → ℕ → Option (List ℕ)
conversion_to_digits zero number base = if ltb 0 number then none else some []
conversion_to_digits (suc fuel) number base =
    let rest = conversion_to_digits fuel (number / base) base in
    if ltb 0 number
    then elim rest [ none ↦ none | some ds ↦ some (number % base ∷ ds) ]
    else some []

-- The number that digits stand for, from the lowest one on.
abbrev pub number_of : ℕ → List ℕ → ℕ
number_of base [] = 0
number_of base (d ∷ ds) = d + base * number_of base ds

abbrev pub IsDigits : ℕ → List ℕ → Type 0
IsDigits base [] = Unit
IsDigits base (d ∷ ds) = (d < base) × IsDigits base ds

div-lt_pow : (w n base : ℕ) → 1 < base → n < 2 ^ suc w → n / base < 2 ^ w
div-lt_pow w n base h small =
    let q : ℕ = n / base in
    let split : n % base + base * q ≡ n = mod-add-div n base in
    let swap : base * q ≡ q * base = grind arith in
    let twice : 2 * q ≤ base * q = mul-le-mul_right q (omega arith) in omega (arith, pow-suc 2 w)

loop_ends :
    (w n base : ℕ)
    → 1 < base
    → n < 2 ^ w
    → (ds : List ℕ) × (conversion_to_digits w n base ≡ some ds)
      × (number_of base ds ≡ n)
      × IsDigits base ds
unfolding conversion_to_digits
loop_ends zero n base h small =
    let none_left : n ≡ 0 = omega arith in ([], rw none_left refl, sym none_left, tt)
loop_ends (suc w) n base h small = elim (Bool-cases (ltb 0 n)) [
  | inr done ↦ let none_left = ltb→ge 0 n done in ([], rw done refl, omega arith, tt)
  | inl more ↦
      let (ds, run, value, digits) = loop_ends w (n / base) base h (div-lt_pow w n base h small) in
      (
        n % base ∷ ds,
        rw (more, run) refl,
        ap (λ (z : ℕ). n % base + base * z) value ∙ mod-add-div n base,
        (mod-lt n (omega arith), digits),
      )
]

-- For a base from 2 on, the loop ends on every 64-bit number, and gives digits below the base that
-- stand for the number.
pub conversion_to_digits_lem :
    (n base : ℕ)
    → 1 < base
    → n < 2 ^ 64
    → (ds : List ℕ) × (conversion_to_digits 64 n base ≡ some ds)
      × (number_of base ds ≡ n)
      × IsDigits base ds
conversion_to_digits_lem n base h small = loop_ends 64 n base h small
