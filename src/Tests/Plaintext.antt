-- ===== src/Tests/Plaintext.antt =====
-- Powers of 2 and 3 modulo 7.
use u_psu.Common.{ℕ, ◌%◌, ◌^◌, ◌≡◌, refl, some, List, [], ◌∷◌, get_elem?, length, arith}
use u_psu.Common.Results.{ok}
use u_psu.PlaintextPowers.{exponentiate_array, exponentiate_loop}
use u_psu.PlaintextPowers.Exponent.{exponentiate_array_lem}
use u_psu.Tests.Interpolate.{seven, seven-IsModulus}

fifth : exponentiate_array seven (2 ∷ 3 ∷ []) 5 ≡ ok (some (4 ∷ 5 ∷ []))
unfolding exponentiate_array exponentiate_loop
fifth = refl

exponentiate_array_lem_example :
    (out : List ℕ) × (o : ℕ) × (exponentiate_array seven (2 ∷ 3 ∷ []) 5 ≡ ok (some out))
    × (length out ≡ 2)
    × (get_elem? out 1 ≡ some o)
    × (o % 7 ≡ 3 ^ 5 % 7)
exponentiate_array_lem_example =
    exponentiate_array_lem seven (2 ∷ 3 ∷ []) 5 1 3 seven-IsModulus (omega arith) (omega arith) refl
