-- ===== src/PlaintextPowers.antt =====
-- PlaintextPowers of sender/apsu/plaintext_powers.cpp and plaintext_powers.h. The loop of
-- exponentiate_array runs on fuel, and `none` says that the fuel is used up; 32 is enough for a
-- 32-bit exponent. The encryption of the powers by SEAL is not modelled.
pub mod Exponent
use u_psu.Common.{
  ℕ, zero, suc, ◌+◌, ◌*◌, ◌/◌, ◌%◌, Option, none, some, List, [], ◌∷◌, ◌==◌, if◌then◌else◌, map,
  length, replicate,
}
use u_psu.Common.Results.{Result, ok, invalid_argument, logic_error, err, throw_if, ◌>>=◌, ◌>>◌}
use u_psu.Interpolate.{Modulus}
use u_psu.Powers.{PowersNode, PowersDag, source_nodes}

module _ (m : Modulus) where
  unfoldable pub square_array : List ℕ → List ℕ
  square_array [] = []
  square_array (v ∷ values) = m.multiply v v ∷ square_array values

  unfoldable pub multiply_array : List ℕ → List ℕ → List ℕ
  multiply_array (a ∷ in1) (b ∷ in2) = m.multiply a b ∷ multiply_array in1 in2
  multiply_array in1 in2 = []

  unfoldable pub exponentiate_loop : ℕ → List ℕ → ℕ → List ℕ → Option (List ℕ)
  unfolding square_array multiply_array
  exponentiate_loop zero values exponent result = if exponent == 0 then some result else none
  exponentiate_loop (suc fuel) values exponent result =
      let rest =
        exponentiate_loop fuel (square_array values) (exponent / 2)
          (if exponent % 2 == 1 then multiply_array values result else result) in
      if exponent == 0 then some result else rest

  unfoldable pub exponentiate_array : List ℕ → ℕ → Result (Option (List ℕ))
  exponentiate_array values exponent =
      throw_if (exponent == 0) invalid_argument
      >> ok (exponentiate_loop 32 values exponent (replicate (length values) 1))

  -- The powers of the values for some source nodes.
  unfoldable pub powers_of : List ℕ → List PowersNode → Result (List (ℕ × Option (List ℕ)))
  unfolding exponentiate_array
  powers_of values [] = ok []
  powers_of values (s ∷ sources) = exponentiate_array values s.power >>= λ out.
      powers_of values sources >>= λ rest. ok ((s.power, out) ∷ rest)

  unfoldable pub compute_plaintext_powers : List ℕ → PowersDag → Result (List (ℕ × Option (List ℕ)))
  unfolding powers_of
  compute_plaintext_powers values pd = elim (source_nodes pd) [
    | none ↦ err logic_error
    | some sources ↦ powers_of values sources
  ]
