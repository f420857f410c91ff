-- ===== src/Interpolate.antt =====
-- The polynomials of common/apsu/util/interpolate.cpp: coefficients from the constant term on. The
-- modular arithmetic of SEAL is a parameter.
pub mod Loop
pub mod Roots
pub mod Newton
use u_psu.Common.{
  ℕ, zero, suc, ◌+◌, ◌-◌, ◌*◌, ◌%◌, ◌≡◌, ◌<◌, Bool, List, [], ◌∷◌, ◌++◌, ◌==◌, length, get_or, set,
}
use u_psu.Common.Results.{Result, ok, invalid_argument, ◌>>◌, throw_if}

-- `seal::Modulus` with `negate_uint_mod`, `add_uint_mod`, `sub_uint_mod`, `multiply_uint_mod`,
-- `multiply_add_uint_mod` and `exponentiate_uint_mod`.
pub record Modulus : Type 0 where
  pub value : ℕ
  pub is_prime : Bool
  pub add : ℕ → ℕ → ℕ
  pub subtract : ℕ → ℕ → ℕ
  pub exponentiate : ℕ → ℕ → ℕ
  pub negate : ℕ → ℕ
  pub multiply : ℕ → ℕ → ℕ
  pub multiply_add : ℕ → ℕ → ℕ → ℕ

-- What SEAL documents of them.
pub record IsModulus (m : Modulus) : Type 0 where
  pub negate_lem : (a : ℕ) → a < m.value → (m.negate a + a) % m.value ≡ 0
  pub multiply_lem : (a b : ℕ) → m.multiply a b ≡ a * b % m.value
  pub multiply_add_lem : (a b c : ℕ) → m.multiply_add a b c ≡ (a * b + c) % m.value

module _ (m : Modulus) where
  -- The loop over the coefficients, from the one at `i` down to the one at 1.
  unfoldable pub shift_up : ℕ → ℕ → List ℕ → List ℕ
  shift_up neg_a zero polyn = polyn
  shift_up neg_a (suc i) polyn =
      shift_up neg_a i
        (set polyn (suc i) (m.multiply_add (get_or polyn (suc i) 0) neg_a (get_or polyn i 0)))

  unfoldable pub polyn_mul_monic_monomial_inplace : List ℕ → ℕ → List ℕ
  unfolding shift_up
  polyn_mul_monic_monomial_inplace polyn a =
      let longer = polyn ++ 0 ∷ [] in
      let neg_a : ℕ = m.negate a in
      let shifted = shift_up neg_a (length longer - 1) longer in
      set shifted 0 (m.multiply (get_or shifted 0 0) neg_a)

  unfoldable pub mul_monomials : List ℕ → List ℕ → List ℕ
  mul_monomials polyn [] = polyn
  mul_monomials polyn (root ∷ roots) =
      mul_monomials (polyn_mul_monic_monomial_inplace polyn root) roots

  unfoldable pub polyn_with_roots : List ℕ → Result (List ℕ)
  polyn_with_roots roots =
      throw_if (m.value == 0) invalid_argument >> ok (mul_monomials (1 ∷ []) roots)
