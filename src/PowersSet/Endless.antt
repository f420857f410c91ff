-- ===== src/PowersSet/Endless.antt =====
-- The largest target_degree of 32 bits, at which the loop variable of create_powers_set wraps.
use u_psu.Common.{ℕ, zero, suc, ◌-◌, ◌^◌, ◌≡◌, ◌<◌, refl, true, none, List, [], arith, leb}
use u_psu.Common.Words.{add32}
use u_psu.PowersSet.{insert, fill, create_powers_set}

fill_endless :
    (fuel power : ℕ) (s : List ℕ) → power < 2 ^ 32 → fill fuel power (2 ^ 32 - 1) 1 s ≡ none
unfolding fill
fill_endless zero power s h = refl
fill_endless (suc fuel) power s h =
    let below : leb power (2 ^ 32 - 1) ≡ true = ground arith in
    rw below (fill_endless fuel (add32 power 1) (insert power s) (omega arith))

-- For ps_low_degree 0 and the largest number of 32 bits as target_degree, no amount of fuel is
-- enough: the loop of create_powers_set never ends, as its variable never exceeds the bound.
pub create_powers_set_endless : (fuel : ℕ) → create_powers_set fuel 0 (2 ^ 32 - 1) ≡ none
unfolding create_powers_set
create_powers_set_endless fuel = rw (fill_endless fuel 1 [] (omega arith)) refl
