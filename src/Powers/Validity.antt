-- ===== src/Powers/Validity.antt =====
-- When the configured object is in a valid state, and what an earlier configuration leaves in it.
use mathlib.Core.Bool.{false≢true}
use u_psu.Common.{
  ℕ, ◌+◌, ◌-◌, ◌<◌, ◌≡◌, refl, true, false, none, some, ◌⊎◌, List, arith, inl, inr, ap, Bool-cases,
  ◌∙◌, sym, max, zero, suc,
}
use u_psu.Common.Sets.{contains, IsAscending, FitsIn32, contains-FitsIn32}
use u_psu.Powers.{PowersNode, PowersDag, NodeMap, at, Best, source_node, configure}
use u_psu.Powers.Parents.{IsPair}
use u_psu.Powers.Loop.{IsNode}
use u_psu.Powers.Stale.{configure-keeps_stale}
use u_psu.Powers.Configure.{IsAccepted, IsConfigured, configure-IsConfigured}

-- A target power that is no source is the sum of two target powers.
abbrev pub IsSum : List ℕ → ℕ → Type 0
IsSum targets q =
    (s1 : ℕ) × (s2 : ℕ) × (contains targets s1 ≡ true)
    × (contains targets s2 ≡ true)
    × (s1 + s2 ≡ q)

-- "the sum of the powers of the parent nodes of a given must equal the power of that node"
pub record HasParents (targets : List ℕ) (nodes : NodeMap) (q : ℕ) : Type 0 where
  pub node : PowersNode
  pub first : PowersNode
  pub second : PowersNode
  pub reads : at nodes q ≡ some node
  pub reads_first : at nodes node.parents.0 ≡ some first
  pub reads_second : at nodes node.parents.1 ≡ some second
  pub first_is_target : contains targets node.parents.0 ≡ true
  pub second_is_target : contains targets node.parents.1 ≡ true
  pub first_power : first.power ≡ node.parents.0
  pub second_power : second.power ≡ node.parents.1
  pub total : first.power + second.power ≡ q
  pub depth_eq : node.depth ≡ max first.depth second.depth + 1

pub positive : (xs : List ℕ) (x : ℕ) → contains xs 0 ≡ false → contains xs x ≡ true → 0 < x
positive xs zero z t = absurd (false≢true (sym z ∙ t))
positive xs (suc x) z t = omega arith

module _ (sources targets : List ℕ) (d : PowersDag) (h : IsConfigured sources targets d) where
  pair_HasParents :
      (q : ℕ) (n : IsNode sources targets d.nodes q)
      → IsPair targets d.nodes q n.node.parents.0 n.node.parents.1 n.node.depth
      → HasParents targets d.nodes q
  pair_HasParents q n pair =
      let m1 = h.nodes _ pair.is_target1 in
      let m2 = h.nodes _ pair.is_target2 in
      let e1 : some m1.node ≡ some pair.n1 = sym m1.reads ∙ pair.reads1 in
      let e2 : some m2.node ≡ some pair.n2 = sym m2.reads ∙ pair.reads2 in
      let f1 : m1.node ≡ pair.n1 = cc e1 in
      let f2 : m2.node ≡ pair.n2 = cc e2 in
      let d1 : m1.node.depth ≡ pair.n1.depth = ap (λ (k : PowersNode). k.depth) f1 in
      let d2 : m2.node.depth ≡ pair.n2.depth = ap (λ (k : PowersNode). k.depth) f2 in
      record {
        node = n.node;
        first = m1.node;
        second = m2.node;
        reads = n.reads;
        reads_first = m1.reads;
        reads_second = m2.reads;
        first_is_target = pair.is_target1;
        second_is_target = pair.is_target2;
        first_power = m1.power_eq;
        second_power = m2.power_eq;
        total = omega (arith, m1.power_eq, m2.power_eq, pair.total);
        depth_eq = omega (arith, pair.depth_eq);
      }

  sum-IsPair :
      (q s1 s2 : ℕ)
      → contains targets s1 ≡ true
      → contains targets s2 ≡ true
      → s1 + s2 ≡ q
      → (depth : ℕ) × IsPair targets d.nodes q s1 s2 depth
  sum-IsPair q s1 s2 t1 t2 e =
      let m1 = h.nodes s1 t1 in
      let m2 = h.nodes s2 t2 in
      (
        max m1.node.depth m2.node.depth + 1,
        record {
          n1 = m1.node;
          n2 = m2.node;
          is_target1 = t1;
          is_target2 = t2;
          reads1 = m1.reads;
          reads2 = m2.reads;
          total = e;
          depth_eq = refl;
        },
      )

  sum-HasParents :
      (q : ℕ)
      → contains targets 0 ≡ false
      → contains targets q ≡ true
      → contains sources q ≡ false
      → IsSum targets q
      → HasParents targets d.nodes q
  sum-HasParents q no_zero t s (s1, s2, t1, t2, e) =
      let n = h.nodes q t in
      let opt = n.computed s in
      elim (opt.found) [
        | inl pair ↦ pair_HasParents q n pair
        | inr (_, alone) ↦
            let (depth, pair) = sum-IsPair q s1 s2 t1 t2 e in
            absurd (
              alone s1 s2 depth (positive targets s1 no_zero t1) (positive targets s2 no_zero t2)
                pair)
      ]

-- The state that the header calls valid: each node is the node of a source, or the powers and
-- depths of its parents fit it.
abbrev pub IsValid : List ℕ → List ℕ → NodeMap → Type 0
IsValid sources targets nodes =
    (q : ℕ) (n : PowersNode)
    → at nodes q ≡ some n
    → ((contains sources q ≡ true) × (n ≡ source_node q)) ⊎ HasParents targets nodes q

-- If moreover each target power that is no source is the sum of two target powers, and the object
-- had no nodes of other powers, it is configured for these targets and in a valid state: each of
-- its nodes is the node of a source, or its parents are nodes of target powers whose powers add
-- up to its own, and its depth is one more than the greater of theirs. Each target power that is
-- no source has such a node.
pub configure-HasParents :
    (dag : PowersDag) (sources targets : List ℕ)
    → IsAscending targets
    → FitsIn32 targets
    → IsAccepted sources targets
    → ((q : ℕ) → contains targets q ≡ true → contains sources q ≡ false → IsSum targets q)
    → ((q : ℕ) → contains targets q ≡ false → at dag.nodes q ≡ none)
    → (d : PowersDag) × (configure dag sources targets ≡ some (d, true))
      × (d.targets ≡ targets)
      × IsValid sources targets d.nodes
      × ((q : ℕ)
          → contains targets q ≡ true
          → contains sources q ≡ false
          → HasParents targets d.nodes q)
configure-HasParents dag sources targets asc fits ok sums clean =
    let (d, e, h) = configure-IsConfigured dag sources targets asc fits ok in
    let parents : (q : ℕ)
        → contains targets q ≡ true
        → contains sources q ≡ false
        → HasParents targets d.nodes q =
      λ q t s. sum-HasParents sources targets d h q ok.targets_no_zero t s (sums q t s) in
    (
      d,
      e,
      h.targets_eq,
      λ q n r. elim (Bool-cases (contains targets q)) [
        | inr out ↦
            let bad : some n ≡ none =
              sym r ∙ configure-keeps_stale dag d sources targets q e out ∙ clean q out in
            cc bad
        | inl t ↦ elim (Bool-cases (contains sources q)) [
          | inr s ↦ inr (parents q t s)
          | inl s ↦
              let node = h.nodes q t in
              let same : some n ≡ some node.node = sym r ∙ node.reads in
              let eq : n ≡ node.node = cc same in inl (s, eq ∙ node.source s)
        ]
      ],
      parents,
    )

-- A target power that is neither a source nor the sum of two target powers is accepted all the
-- same: `configure` returns true, and the node of that power names a parent that is no target.
pub configure_invalid :
    (dag : PowersDag) (sources targets : List ℕ) (q : ℕ)
    → IsAscending targets
    → FitsIn32 targets
    → IsAccepted sources targets
    → contains targets q ≡ true
    → contains sources q ≡ false
    → ¬ IsSum targets q
    → (d : PowersDag) × (n : PowersNode) × (configure dag sources targets ≡ some (d, true))
      × (at d.nodes q ≡ some n)
      × (contains targets n.parents.0 ≡ false)
configure_invalid dag sources targets q asc fits ok t s never =
    let (d, e, h) = configure-IsConfigured dag sources targets asc fits ok in
    let n = h.nodes q t in
    let small = contains-FitsIn32 q targets fits t in
    let pos = positive targets q ok.targets_no_zero t in
    (
      d,
      n.node,
      e,
      n.reads,
      elim ((n.computed s).found) [
        | inl pair ↦ absurd (
            never
              (n.node.parents.0, n.node.parents.1, pair.is_target1, pair.is_target2, pair.total))
        | inr (guess, _) ↦
            let first : n.node.parents.0 ≡ q - 1 = ap (λ (b : Best). b.s1) guess ∙ omega arith in
            elim (Bool-cases (contains targets (q - 1))) [
              | inl m ↦ absurd (never (q - 1, 1, m, ok.targets_one, omega arith))
              | inr f ↦ rw first f
            ]
      ],
    )
