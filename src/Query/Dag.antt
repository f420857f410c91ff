-- ===== src/Query/Dag.antt =====
-- The parameters that PSUParams accepts give the query a PowersDag in a valid state.
use mathlib.Core.Bool.{false≢true}
use u_psu.Common.{
  ℕ, zero, suc, ◌+◌, ◌-◌, ◌*◌, ◌%◌, ◌/◌, ◌^◌, ◌≤◌, ◌<◌, ◌≡◌, refl, inl, inr, ◌↔◌, Bool, true, false,
  some, List, [], arith, ◌∙◌, sym, ap,
}
use u_psu.Common.Sets.{contains, IsAscending}
use u_psu.Common.Words.{add32}
use u_psu.Common.Results.{ok}
use u_psu.Powers.{PowersDag, at, configure}
use u_psu.Powers.Configure.{IsAccepted}
use u_psu.Powers.Validity.{IsSum, HasParents, IsValid, configure-HasParents, positive}
use u_psu.PowersSet.{create_powers_set}
use u_psu.PowersSet.Members.{IsPower, create_powers_set_lem}
use u_psu.PsuParams.Valid.{IsQueryPower}

whole_div : (a n : ℕ) → a % n ≡ 0 → a / n * n ≡ a
whole_div a n h = grind arith

pred_mul : (c n p : ℕ) → 0 < p → c * n ≡ p → p ≡ (c - 1 + 1) * n
pred_mul zero n p pos e = omega arith
pred_mul (suc c) n p pos e =
    let same : suc c ≡ suc c - 1 + 1 = omega arith in sym e ∙ ap (λ (t : ℕ). t * n) same

whole_mul : (p n : ℕ) → 0 < p → p % n ≡ 0 → p ≡ (p / n - 1 + 1) * n
whole_mul p n pos h = pred_mul (p / n) n p pos (whole_div p n h)

not_true : (b : Bool) → ¬ (b ≡ true) → b ≡ false
not_true true h = absurd (h refl)
not_true false h = refl

above_one : (q : ℕ) → 0 < q → ¬ (q ≡ 1) → 1 < q
above_one q pos h = omega arith

IsPower-pos : (low most x : ℕ) → IsPower low most x → 0 < x
IsPower-pos low most x (inl (a, b)) = a
IsPower-pos low most x (inr (k, e, b)) = omega arith

module _ (low most : ℕ) (targets : List ℕ)
    (members : (x : ℕ) → (contains targets x ≡ true) ↔ IsPower low most x) where
  -- A power above 1 is one less and 1, or the next lower multiple and the first.
  power_IsSum : (q : ℕ) → 1 < q → low ≤ most → IsPower low most q → IsSum targets q
  power_IsSum q big le (inl (a, b)) = (
    q - 1,
    1,
    (members (q - 1)).1 (inl (omega arith, omega arith)),
    (members 1).1 (inl (omega arith, omega arith)),
    omega arith,
  )
  power_IsSum q big le (inr (zero, e, b)) = (
    low,
    1,
    (members low).1 (inl (omega arith, omega arith)),
    (members 1).1 (inl (omega arith, omega arith)),
    omega arith,
  )
  power_IsSum q big le (inr (suc k, e, b)) = (
    (k + 1) * (low + 1),
    low + 1,
    (members _).1 (inr (k, refl, grind arith)),
    (members _).1 (inr (0, omega arith, grind arith)),
    grind arith,
  )

  -- A query power within the limits is a target.
  query-IsPower : (p : ℕ) → low + 1 < 2 ^ 32 → 0 < p → IsQueryPower low most p → IsPower low most p
  query-IsPower p small pos (le, inl a) = inl (omega arith, a)
  query-IsPower p small pos (le, inr a) =
      let wrap : add32 low 1 ≡ low + 1 = omega arith in
      let whole : p % (low + 1) ≡ 0 = rw (← wrap) a in
      inr (p / (low + 1) - 1, whole_mul p (low + 1) pos whole, le)

-- For query powers and degrees within the limits that PSUParams checks, where 32 bits hold
-- max_items_per_bin + ps_low_degree + 1, and an object without nodes, as the constructor of Query
-- has it: `create_powers_set` and `configure` succeed, the object is in a valid state, and each
-- target power that is not a query power has two target powers as parents.
pub query_dag-HasParents :
    (dag : PowersDag) (low most : ℕ) (powers : List ℕ)
    → IsAscending powers
    → low ≤ most
    → 0 < most
    → most + low + 1 < 2 ^ 32
    → contains powers 0 ≡ false
    → contains powers 1 ≡ true
    → ((p : ℕ) → contains powers p ≡ true → IsQueryPower low most p)
    → dag.nodes ≡ []
    → (targets : List ℕ) × (d : PowersDag) × (create_powers_set (most + 2) low most
        ≡ some (ok targets))
      × (configure dag powers targets ≡ some (d, true))
      × (d.targets ≡ targets)
      × ((x : ℕ) → (contains targets x ≡ true) ↔ IsPower low most x)
      × IsValid powers targets d.nodes
      × ((q : ℕ)
          → contains targets q ≡ true
          → contains powers q ≡ false
          → HasParents targets d.nodes q)
unfolding at
query_dag-HasParents dag low most powers asc le pos wrap no_zero one within new =
    let (targets, e, up, fits, members) =
      create_powers_set_lem (most + 2) low most (omega arith) wrap le pos in
    let accepted : IsAccepted powers targets = record {
      sources_no_zero = no_zero;
      sources_one = one;
      targets_no_zero =
          not_true _ (λ m. absurd (omega (arith, IsPower-pos low most 0 ((members 0).0 m))));
      targets_one =
          (members 1).1
            (query-IsPower low most targets members 1 (omega arith) (omega arith) (within 1 one));
      subset = λ x m. (members x).1 (
          query-IsPower low most targets members x (omega arith) (positive powers x no_zero m)
            (within x m));
    } in
    let (d, e', same, valid, h) =
      configure-HasParents dag powers targets up fits accepted
        (λ q m s.
          power_IsSum low most targets members q
            (above_one q (IsPower-pos low most q ((members q).0 m))
              (λ f. false≢true (sym s ∙ rw f one)))
            le ((members q).0 m))
        (λ q out. rw (new, at) refl) in
    (targets, d, e, e', same, members, valid, h)
