-- ===== src/Powers/Parents.antt =====
-- The search of `configure` for the two parents of a power, against what it should find.
use u_psu.Common.{
  ℕ, ◌+◌, ◌-◌, ◌≤◌, ◌<◌, ◌^◌, ◌≡◌, refl, true, Option, some, List, [], ◌∷◌, arith, ◌⊎◌, inl, inr,
  max, Bool-cases, leb, leb→le, leb→gt, sym, ◌∙◌, ltb, ltb→lt, ltb→ge,
}
use mathlib.Core.Bool.{false≢true}
use u_psu.Common.Sets.{
  contains, IsAbove, IsAscending, contains-tail, contains-head, contains-cons, contains-IsAscending,
}
use mathlib.Core.Path.{subst}
use u_psu.Common.Words.{add32, sub32}
use u_psu.Powers.{PowersNode, NodeMap, at, Best, better, consider, search_parents, first_guess}

-- Two target powers with nodes, and the depth of their product.
pub record IsPair (targets : List ℕ) (nodes : NodeMap) (p s1 s2 depth : ℕ) : Type 0 where
  pub n1 : PowersNode
  pub n2 : PowersNode
  pub is_target1 : contains targets s1 ≡ true
  pub is_target2 : contains targets s2 ≡ true
  pub reads1 : at nodes s1 ≡ some n1
  pub reads2 : at nodes s2 ≡ some n2
  pub total : s1 + s2 ≡ p
  pub depth_eq : depth ≡ max n1.depth n2.depth + 1

-- Each target below `p` has a node, of a depth below its power.
abbrev pub Known : List ℕ → NodeMap → ℕ → Type 0
Known targets nodes p =
    (q : ℕ)
    → contains targets q ≡ true
    → q < p
    → (n : PowersNode) × (at nodes q ≡ some n) × (n.depth < q)

-- The best parents so far are the first guess or a pair of targets.
abbrev pub IsCandidate : List ℕ → NodeMap → ℕ → Best → Type 0
IsCandidate targets nodes p b = (b ≡ first_guess p) ⊎ IsPair targets nodes p b.s1 b.s2 b.depth

-- What a pair of targets costs is at least `bound`.
abbrev pub Costs : List ℕ → NodeMap → ℕ → ℕ → ℕ → Type 0
Costs targets nodes p s1 bound = (s2 depth : ℕ) → IsPair targets nodes p s1 s2 depth → bound ≤ depth

module _ (targets : List ℕ) (nodes : NodeMap) (p : ℕ) where
  abbrev Improves : ℕ → Best → Option Best → Type 0
  Improves s1 b r =
      (c : Best) × (r ≡ some c)
      × IsCandidate targets nodes p c
      × (c.depth ≤ b.depth)
      × Costs targets nodes p s1 c.depth

  pair_depth :
      (s1 s2 depth : ℕ) (n1 n2 : PowersNode)
      → at nodes s1 ≡ some n1
      → at nodes s2 ≡ some n2
      → s1 + s2 ≡ p
      → (k : ℕ) → IsPair targets nodes p s1 k depth
      → depth ≡ max n1.depth n2.depth + 1
  pair_depth s1 s2 depth n1 n2 r1 r2 e k h =
      let same : k ≡ s2 = omega (arith, h.total) in
      let read2 : at nodes s2 ≡ some h.n2 = rw (← same) h.reads2 in
      let e1 : some n1 ≡ some h.n1 = sym r1 ∙ h.reads1 in
      let e2 : some n2 ≡ some h.n2 = sym r2 ∙ read2 in
      let f1 : n1 ≡ h.n1 = cc e1 in let f2 : n2 ≡ h.n2 = cc e2 in rw (f1, f2) h.depth_eq

  better_lem :
      (s1 s2 : ℕ) (n1 n2 : PowersNode) (b : Best)
      → p < 2 ^ 32
      → s1 + s2 ≡ p
      → contains targets s1 ≡ true
      → contains targets s2 ≡ true
      → at nodes s1 ≡ some n1
      → at nodes s2 ≡ some n2
      → n1.depth < s1
      → n2.depth < s2
      → IsCandidate targets nodes p b
      → Improves s1 b (some (better s1 s2 n1 n2 b))
  unfolding better
  better_lem s1 s2 n1 n2 b small e t1 t2 r1 r2 d1 d2 cand =
      let cost : ℕ = max n1.depth n2.depth + 1 in
      let wrap : add32 (max n1.depth n2.depth) 1 ≡ cost = omega arith in
      elim (Bool-cases (ltb cost b.depth)) [
        | inl lt ↦
            rw (wrap, lt)
              (
                record { depth = cost; s1 = s1; s2 = s2 },
                refl,
                inr (record {
                  n1 = n1;
                  n2 = n2;
                  is_target1 = t1;
                  is_target2 = t2;
                  reads1 = r1;
                  reads2 = r2;
                  total = e;
                  depth_eq = refl;
                }),
                omega (arith, ltb→lt _ _ lt),
                λ k depth h. omega (arith, pair_depth s1 s2 depth n1 n2 r1 r2 e k h),
              )
        | inr ge ↦
            rw (wrap, ge)
              (
                b,
                refl,
                cand,
                omega arith,
                λ k depth h. omega (arith, pair_depth s1 s2 depth n1 n2 r1 r2 e k h, ltb→ge _ _ ge),
              )
      ]

  consider_lem :
      (s1 : ℕ) (b : Best)
      → p < 2 ^ 32
      → Known targets nodes p
      → contains targets s1 ≡ true
      → 0 < s1
      → s1 < p
      → IsCandidate targets nodes p b
      → Improves s1 b (consider targets nodes p s1 b)
  unfolding consider
  consider_lem s1 b small known t1 pos lt cand =
      let s2 : ℕ = p - s1 in
      let wrap : sub32 p s1 ≡ s2 = omega arith in
      elim (Bool-cases (contains targets s2)) [
        | inr out ↦
            rw (wrap, out)
              (
                b,
                refl,
                cand,
                omega arith,
                λ k depth h.
                    let same : k ≡ s2 = omega (arith, h.total) in
                    absurd (false≢true (sym out ∙ rw (← same) h.is_target2)),
              )
        | inl t2 ↦
            let (n1, r1, d1) = known s1 t1 lt in
            let (n2, r2, d2) = known s2 t2 (omega arith) in
            rw (wrap, t2, r1, r2)
              (better_lem s1 s2 n1 n2 b small (omega arith) t1 t2 r1 r2 d1 d2 cand)
      ]

  abbrev pub Searched : List ℕ → Best → Option Best → Type 0
  Searched rest b r =
      (c : Best) × (r ≡ some c)
      × IsCandidate targets nodes p c
      × (c.depth ≤ b.depth)
      × ((s1 : ℕ) → contains rest s1 ≡ true → s1 < p → Costs targets nodes p s1 c.depth)

  -- The loop over what is left of the targets.
  pub search_parents_lem :
      (rest : List ℕ) (b : Best)
      → p < 2 ^ 32
      → Known targets nodes p
      → IsAbove 0 rest
      → IsAscending rest
      → ((s1 : ℕ) → contains rest s1 ≡ true → contains targets s1 ≡ true)
      → IsCandidate targets nodes p b
      → Searched rest b (search_parents targets nodes p rest b)
  unfolding search_parents
  search_parents_lem [] b small known pos asc sub cand = (b, refl, cand, omega arith, λ s1 m. cc)
  search_parents_lem (x ∷ rest) b small known pos asc sub cand = elim (Bool-cases (leb p x)) [
    | inl stop ↦ rw stop (
      b,
      refl,
      cand,
      omega arith,
      λ s1 m lt. absurd (omega (arith, leb→le _ _ stop, contains-IsAscending x s1 rest asc m)),
    )
    | inr go ↦
        let (c, e, cand', le, cost) =
          consider_lem x b small known (sub x (contains-head x rest)) pos.0 (leb→gt _ _ go) cand in
        let (c', e', cand'', le', cost') =
          search_parents_lem rest c small known pos.1 asc.1
            (λ s1 m. sub s1 (contains-tail x s1 rest m)) cand' in
        rw (go, e, e')
          (
            c',
            refl,
            cand'',
            omega arith,
            λ s1 m lt k depth h. elim (contains-cons x s1 rest m) [
              | inl same ↦
                  let h' = subst (λ q. IsPair targets nodes p q k depth) (sym same) h in
                  omega (arith, cost k depth h')
              | inr later ↦ cost' s1 later lt k depth h
            ],
          )
  ]
