-- ===== src/PowersSet.antt =====
-- `create_powers_set` of common/apsu/util/utils.cpp: the powers of the query that the evaluation
-- of the polynomials takes. Each loop runs on fuel; `none` means that the fuel ran out.
pub mod Members
pub mod Endless
use u_psu.Common.{
  ℕ, zero, suc, ◌+◌, ◌*◌, ◌/◌, Bool, true, false, Option, none, some, List, [], ◌∷◌, ltb, leb, ◌==◌,
  if◌then◌else◌,
}
use u_psu.Common.Options.{◌>>=◌}
use u_psu.Common.Words.{add32, mul32}
use u_psu.Common.Results.{Result, ok, err, invalid_argument}

-- `result.insert(x)`
unfoldable pub insert : ℕ → List ℕ → List ℕ
insert x [] = x ∷ []
insert x (y ∷ ys) = if ltb x y then x ∷ y ∷ ys else (if x == y then y ∷ ys else y ∷ insert x ys)

-- for (power = first; power <= last; power += step) result.insert(power);
unfoldable pub fill : ℕ → ℕ → ℕ → ℕ → List ℕ → Option (List ℕ)
unfolding insert
fill zero power last step s = none
fill (suc fuel) power last step s =
    let rest = fill fuel (add32 power step) last step (insert power s) in
    if leb power last then rest else some s

unfoldable pub create_powers_set : ℕ → ℕ → ℕ → Option (Result (List ℕ))
unfolding fill
create_powers_set fuel ps_low_degree target_degree =
    let first = add32 ps_low_degree 1 in
    let last = mul32 (target_degree / first) first in
    let stockmeyer = fill fuel 1 ps_low_degree 1 [] >>= λ low.
    fill fuel first last first low >>= λ r. some (ok r) in
    let plain = fill fuel 1 target_degree 1 [] >>= λ r. some (ok r) in
    if ltb target_degree ps_low_degree
    then some (err invalid_argument)
    else (if target_degree == 0
        then some (err invalid_argument)
        else (if ps_low_degree == 0 then plain else stockmeyer))
