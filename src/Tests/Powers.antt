-- ===== src/Tests/Powers.antt =====
-- PowersDag at the example of its header: the powers 1 to 7 from 1, 2 and 5.
use u_psu.Common.{ℕ, suc, zero, ◌≡◌, refl, true, false, some, List, [], ◌∷◌, arith, Option}
use u_psu.Common.Sets.{contains}
use u_psu.Common.Options.{◌>>=◌}
use u_psu.Powers.{PowersDag, PowersNode, configure, at}
use u_psu.Powers.Configure.{IsAccepted, IsConfigured, configure-IsConfigured}
use u_psu.Powers.Validity.{IsSum, HasParents, IsValid, configure-HasParents, configure_invalid}
use u_psu.Powers.Stale.{configure-keeps_stale}
use u_psu.Query.{fresh_dag}

abbrev pub seven : List ℕ
seven = 1 ∷ 2 ∷ 3 ∷ 4 ∷ 5 ∷ 6 ∷ 7 ∷ []

abbrev pub base : List ℕ
base = 1 ∷ 2 ∷ 5 ∷ []

abbrev node_at : List ℕ → List ℕ → ℕ → Option PowersNode
node_at sources targets p = configure fresh_dag sources targets >>= λ r. at r.0.nodes p

seven_is_deep_one : node_at base seven 7 ≡ some (record { power = 7; depth = 1; parents = (2, 5) })
unfolding configure at
seven_is_deep_one = refl

base-IsAccepted : IsAccepted base seven
base-IsAccepted = record {
  sources_no_zero = refl;
  sources_one = refl;
  targets_no_zero = refl;
  targets_one = refl;
  subset = λ x m. base_in_seven x m;
}
  where
    base_in_seven : (x : ℕ) → contains base x ≡ true → contains seven x ≡ true
    base_in_seven x m = ground arith

configure-IsConfigured_example :
    (d : PowersDag) × (configure fresh_dag base seven ≡ some (d, true)) × IsConfigured base seven d
configure-IsConfigured_example =
    configure-IsConfigured fresh_dag base seven (omega arith) (omega arith) base-IsAccepted

seven_sums : (q : ℕ) → contains seven q ≡ true → contains base q ≡ false → IsSum seven q
seven_sums zero t s = cc
seven_sums (suc zero) t s = cc
seven_sums (suc (suc zero)) t s = cc
seven_sums (suc (suc (suc q))) t s = (suc (suc q), 1, ground arith, refl, omega arith)

configure-HasParents_example :
    (d : PowersDag) × (configure fresh_dag base seven ≡ some (d, true))
    × (d.targets ≡ seven)
    × IsValid base seven d.nodes
    × ((q : ℕ) → contains seven q ≡ true → contains base q ≡ false → HasParents seven d.nodes q)
unfolding at
configure-HasParents_example =
    configure-HasParents fresh_dag base seven (omega arith) (omega arith) base-IsAccepted seven_sums
      (λ q out. refl)

abbrev gap : List ℕ
gap = 1 ∷ 5 ∷ []

abbrev one : List ℕ
one = 1 ∷ []

gap-IsAccepted : IsAccepted one gap
gap-IsAccepted = record {
  sources_no_zero = refl;
  sources_one = refl;
  targets_no_zero = refl;
  targets_one = refl;
  subset = λ x m. one_in_gap x m;
}
  where
    one_in_gap : (x : ℕ) → contains one x ≡ true → contains gap x ≡ true
    one_in_gap x m = ground arith

gap_no-IsSum : ¬ IsSum gap 5
gap_no-IsSum (a, b, ta, tb, e) = ground arith

configure_invalid_example :
    (d : PowersDag) × (n : PowersNode) × (configure fresh_dag one gap ≡ some (d, true))
    × (at d.nodes 5 ≡ some n)
    × (contains gap n.parents.0 ≡ false)
configure_invalid_example =
    configure_invalid fresh_dag one gap 5 (omega arith) (omega arith) gap-IsAccepted refl refl
      gap_no-IsSum

-- Configured for the powers up to 7, the object still has the node of 5 when it is configured
-- again for 1 alone.
abbrev used : PowersDag
used = record {
  nodes = (5, record { power = 5; depth = 0; parents = (0, 0) }) ∷ [];
  configured = true;
  targets = seven;
  depth = 1;
  source_count = 3;
}

abbrev again : PowersDag
again = record {
  nodes =
      (5, record { power = 5; depth = 0; parents = (0, 0) })
      ∷ (1, record { power = 1; depth = 0; parents = (0, 0) })
      ∷ [];
  configured = true;
  targets = one;
  depth = 0;
  source_count = 1;
}

used-again : configure used one one ≡ some (again, true)
unfolding configure
used-again = refl

configure-keeps_stale_example : at again.nodes 5 ≡ at used.nodes 5
configure-keeps_stale_example = configure-keeps_stale used again one one 5 used-again refl
