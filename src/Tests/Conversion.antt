-- ===== src/Tests/Conversion.antt =====
-- 2026 in base 10.
use u_psu.Common.{ℕ, ◌≡◌, refl, List, [], ◌∷◌, some, arith}
use u_psu.Conversion.{conversion_to_digits, number_of, IsDigits, conversion_to_digits_lem}

digits : conversion_to_digits 64 2026 10 ≡ some (6 ∷ 2 ∷ 0 ∷ 2 ∷ [])
unfolding conversion_to_digits
digits = refl

conversion_to_digits_lem_example :
    (ds : List ℕ) × (conversion_to_digits 64 2026 10 ≡ some ds)
    × (number_of 10 ds ≡ 2026)
    × IsDigits 10 ds
conversion_to_digits_lem_example = conversion_to_digits_lem 2026 10 (omega arith) (omega arith)
