-- ===== src/Powers/Optimal.antt =====
-- What the search of `configure` ends with.
use mathlib.Core.Bool.{false≢true}
use u_psu.Common.{
  ℕ, ◌+◌, ◌-◌, ◌≤◌, ◌<◌, ◌^◌, ◌≡◌, refl, true, some, List, arith, ◌⊎◌, inl, inr, ap, Bool-cases,
  ◌∙◌, sym, max,
}
use u_psu.Common.Sets.{contains, IsAbove, IsAscending}
use u_psu.Powers.{NodeMap, Best, search_parents, first_guess}
use u_psu.Powers.Parents.{IsPair, Known, search_parents_lem}

module _ (targets : List ℕ) (nodes : NodeMap) (p : ℕ) where
  abbrev pub NoPair : Type 0
  NoPair = (s1 s2 depth : ℕ) → 0 < s1 → 0 < s2 → ¬ IsPair targets nodes p s1 s2 depth

  -- The parents are targets that sum to `p`, at the least depth; or no two targets sum to `p`.
  pub record IsOptimal (b : Best) : Type 0 where
    pub below : b.depth < p
    pub found : IsPair targets nodes p b.s1 b.s2 b.depth ⊎ ((b ≡ first_guess p) × NoPair)
    pub least :
        (s1 s2 depth : ℕ) → 0 < s1 → 0 < s2 → IsPair targets nodes p s1 s2 depth → b.depth ≤ depth

  module _ (small : p < 2 ^ 32) (big : 1 < p) (known : Known targets nodes p) where
    -- A pair that costs as much as the first guess has `p - 1` in it.
    pair_is_guess :
        (s1 s2 depth : ℕ)
        → 0 < s1
        → 0 < s2
        → p - 1 ≤ depth
        → IsPair targets nodes p s1 s2 depth
        → contains targets (p - 1) ≡ true
    pair_is_guess s1 s2 depth pos1 pos2 le h =
        let (n1, r1, d1) = known s1 h.is_target1 (omega (arith, h.total)) in
        let (n2, r2, d2) = known s2 h.is_target2 (omega (arith, h.total)) in
        let e1 : some n1 ≡ some h.n1 = sym r1 ∙ h.reads1 in
        let e2 : some n2 ≡ some h.n2 = sym r2 ∙ h.reads2 in
        let f1 : n1.depth ≡ h.n1.depth = cc e1 in
        let f2 : n2.depth ≡ h.n2.depth = cc e2 in
        let which : (s1 ≡ p - 1) ⊎ (s2 ≡ p - 1) = omega (arith, h.total, h.depth_eq) in
        elim which [ inl e ↦ rw e at h.is_target1 | inr e ↦ rw e at h.is_target2 ]

    guess-IsPair :
        (c : Best)
        → c ≡ first_guess p
        → contains targets (p - 1) ≡ true
        → contains targets 1 ≡ true
        → ((s1 s2 depth : ℕ) → IsPair targets nodes p s1 s2 depth → s1 < p → c.depth ≤ depth)
        → IsPair targets nodes p c.s1 c.s2 c.depth
    guess-IsPair c e t1 t2 least =
        let (n1, r1, d1) = known (p - 1) t1 (omega arith) in
        let (n2, r2, d2) = known 1 t2 big in
        let e1 : c.s1 ≡ p - 1 = ap (λ (b : Best). b.s1) e ∙ omega arith in
        let e2 : c.s2 ≡ 1 = ap (λ (b : Best). b.s2) e in
        let e3 : c.depth ≡ p - 1 = ap (λ (b : Best). b.depth) e ∙ omega arith in
        let pair : IsPair targets nodes p (p - 1) 1 (max n1.depth n2.depth + 1) = record {
          n1 = n1;
          n2 = n2;
          is_target1 = t1;
          is_target2 = t2;
          reads1 = r1;
          reads2 = r2;
          total = omega arith;
          depth_eq = refl;
        } in
        let bound = least (p - 1) 1 (max n1.depth n2.depth + 1) pair (omega arith) in
        record {
          n1 = n1;
          n2 = n2;
          is_target1 = rw e1 t1;
          is_target2 = rw e2 t2;
          reads1 = rw e1 r1;
          reads2 = rw e2 r2;
          total = omega arith;
          depth_eq = omega arith;
        }

    pub search_parents-IsOptimal :
        IsAbove 0 targets
        → IsAscending targets
        → contains targets 1 ≡ true
        → (b : Best) × (search_parents targets nodes p targets (first_guess p) ≡ some b)
          × IsOptimal b
    search_parents-IsOptimal pos asc one =
        let (c, e, cand, le, cost) =
          search_parents_lem targets nodes p targets (first_guess p) small known pos asc (λ s1 m. m)
            (inl refl) in
        let least = λ (s1 s2 depth : ℕ) (h : IsPair targets nodes p s1 s2 depth) (lt : s1 < p).
          cost s1 h.is_target1 lt s2 depth h in
        (
          c,
          e,
          record {
            below = omega arith;
            found = elim cand [
              | inr pair ↦ inl pair
              | inl guess ↦
                  let e3 : c.depth ≡ p - 1 = ap (λ (b : Best). b.depth) guess ∙ omega arith in
                  elim (Bool-cases (contains targets (p - 1))) [
                    | inl t ↦ inl (guess-IsPair c guess t one least)
                    | inr f ↦ inr (
                      guess,
                      λ s1 s2 depth p1 p2 h.
                          let lt : s1 < p = omega (arith, h.total) in
                          let le' : p - 1 ≤ depth = omega (arith, least s1 s2 depth h lt) in
                          false≢true (sym f ∙ pair_is_guess s1 s2 depth p1 p2 le' h),
                    )
                  ]
            ];
            least = λ s1 s2 depth p1 p2 h. least s1 s2 depth h (omega (arith, h.total));
          },
        )
