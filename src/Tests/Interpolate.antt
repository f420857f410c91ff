-- ===== src/Tests/Interpolate.antt =====
-- The polynomial (x - 2)(x - 3) modulo 7.
use u_psu.Common.{ℕ, ◌+◌, ◌-◌, ◌*◌, ◌%◌, ◌^◌, true, ◌≡◌, refl, List, [], ◌∷◌, arith, length, get_or}
use u_psu.Common.Results.{ok}
use u_psu.Interpolate.{
  Modulus, IsModulus, polyn_mul_monic_monomial_inplace, mul_monomials, polyn_with_roots,
}
use u_psu.Interpolate.Roots.{value_at, factors, polyn_with_roots_lem, polyn_with_roots-root}

abbrev pub seven : Modulus
seven = record {
  value = 7;
  is_prime = true;
  add = λ a b. (a + b) % 7;
  subtract = λ a b. (a + (7 - b)) % 7;
  exponentiate = λ a n. a ^ n % 7;
  negate = λ a. (7 - a) % 7;
  multiply = λ a b. a * b % 7;
  multiply_add = λ a b c. (a * b + c) % 7;
}

pub seven-IsModulus : IsModulus seven
seven-IsModulus = record {
  negate_lem = λ a lt. omega arith;
  multiply_lem = λ a b. refl;
  multiply_add_lem = λ a b c. refl;
}

product : polyn_with_roots seven (2 ∷ 3 ∷ []) ≡ ok (6 ∷ 2 ∷ 1 ∷ [])
unfolding polyn_with_roots mul_monomials polyn_mul_monic_monomial_inplace
product = refl

polyn_with_roots_lem_example :
    (polyn : List ℕ) × (polyn_with_roots seven (2 ∷ 3 ∷ []) ≡ ok polyn)
    × (length polyn ≡ 3)
    × (get_or polyn 2 0 ≡ 1)
    × (value_at polyn 5 % 7 ≡ factors seven (2 ∷ 3 ∷ []) 5 % 7)
polyn_with_roots_lem_example =
    polyn_with_roots_lem seven (2 ∷ 3 ∷ []) 5 seven-IsModulus (omega arith)

polyn_with_roots-root_example :
    (polyn : List ℕ) × (polyn_with_roots seven (2 ∷ 3 ∷ []) ≡ ok polyn) × (value_at polyn 3 % 7 ≡ 0)
polyn_with_roots-root_example =
    polyn_with_roots-root seven (2 ∷ 3 ∷ []) 3 seven-IsModulus (omega arith) (omega arith) refl
