-- ===== src/Interpolate/Newton.antt =====
-- newton_interpolate_polyn of common/apsu/util/interpolate.cpp.
use u_psu.Common.{
  ℕ, zero, suc, ◌+◌, ◌-◌, max, Bool, true, not, ◌&&◌, List, [], ◌∷◌, ◌++◌, ◌==◌, length, get_or,
  set, modify, replicate, map, if◌then◌else◌,
}
use u_psu.Common.Results.{Result, ok, invalid_argument, logic_error, ◌>>=◌, ◌>>◌, throw_if}
use u_psu.Interpolate.{Modulus, polyn_mul_monic_monomial_inplace}

unfoldable pub all_zeros : List ℕ → Bool
all_zeros [] = true
all_zeros (a ∷ values) = (a == 0) && all_zeros values

-- The entry `[i][j]` of a table.
abbrev pub entry : List (List ℕ) → ℕ → ℕ → ℕ
entry table i j = get_or (get_or table i []) j 0

module _ (m : Modulus) (points : List ℕ) where
  -- The inner loop: `count` rows from row `i` on get their entry `j`.
  unfoldable pub push_differences : ℕ → ℕ → ℕ → List (List ℕ) → Result (List (List ℕ))
  push_differences j zero i dd = ok dd
  push_differences j (suc count) i dd =
      let numerator = m.subtract (entry dd (i + 1) (j - 1)) (entry dd i (j - 1)) in
      let denominator = m.subtract (get_or points (i + j) 0) (get_or points i 0) in
      let inv_denominator = m.exponentiate denominator (m.value - 2) in
      throw_if (denominator == 0) logic_error
      >> push_differences j count (i + 1)
          (modify dd i (λ row. row ++ m.multiply numerator inv_denominator ∷ []))

  -- The outer loop: `count` columns from column `j` on.
  unfoldable pub divided_differences : ℕ → ℕ → List (List ℕ) → Result (List (List ℕ))
  unfolding push_differences
  divided_differences zero j dd = ok dd
  divided_differences (suc count) j dd =
      push_differences j (length points - j) 0 dd >>= λ dd'. divided_differences count (j + 1) dd'

  -- Horner's method, from the term at `i` down to the one at 1; `first` is row 0 of the table.
  unfoldable pub horner : List ℕ → ℕ → List ℕ → List ℕ
  horner first zero result = result
  horner first (suc i) result = horner first i (
      polyn_mul_monic_monomial_inplace m
        (set result 0 (m.add (get_or result 0 0) (get_or first (suc i) 0))) (get_or points i 0))

  unfoldable pub newton_interpolate_polyn : List ℕ → Result (List ℕ)
  unfolding all_zeros divided_differences horner
  newton_interpolate_polyn values =
      let size = length points in
      throw_if (not (size == length values)) invalid_argument
      >> throw_if (not m.is_prime) invalid_argument
      >> (if all_zeros values
          then ok (replicate (max size 1) 0)
          else (divided_differences (size - 1) 1 (map (λ y. y ∷ []) values) >>= λ dd.
              let first = get_or dd 0 [] in
              let result = horner first (size - 1) (0 ∷ []) in
              ok (set result 0 (m.add (get_or result 0 0) (get_or first 0 0)))))
