-- ===== src/Powers/Loop.antt =====
-- The loop of `configure` over the target powers.
use u_psu.Common.{ℕ, ◌≤◌, ◌<◌, ◌≡◌, true, false, some, List, arith, ◌⊎◌, inl, inr, ◌∙◌, sym}
use u_psu.Common.Sets.{contains, IsAbove, contains-IsAbove}
use u_psu.Powers.{PowersNode, NodeMap, at, Best, source_node}
use u_psu.Powers.Parents.{IsPair}
use u_psu.Powers.Optimal.{IsOptimal}

module _ (sources targets : List ℕ) where
  abbrev pub best_of : PowersNode → Best
  best_of n = record { depth = n.depth; s1 = n.parents.0; s2 = n.parents.1 }

  -- The node of a target power: a source, or the product of the best two targets.
  pub record IsNode (nodes : NodeMap) (q : ℕ) : Type 0 where
    pub node : PowersNode
    pub reads : at nodes q ≡ some node
    pub power_eq : node.power ≡ q
    pub shallow : node.depth < q
    pub source : contains sources q ≡ true → node ≡ source_node q
    pub computed : contains sources q ≡ false → IsOptimal targets nodes q (best_of node)

  abbrev pub Agree : NodeMap → NodeMap → ℕ → Type 0
  Agree nodes nodes' q = (s : ℕ) → s < q → at nodes' s ≡ at nodes s

  IsPair-transport :
      {nodes nodes' : NodeMap} {q s1 s2 depth : ℕ}
      → Agree nodes nodes' q
      → s1 < q
      → s2 < q
      → IsPair targets nodes q s1 s2 depth
      → IsPair targets nodes' q s1 s2 depth
  IsPair-transport {s1} {s2} agree l1 l2 h = record {
    n1 = h.n1;
    n2 = h.n2;
    is_target1 = h.is_target1;
    is_target2 = h.is_target2;
    reads1 = agree s1 l1 ∙ h.reads1;
    reads2 = agree s2 l2 ∙ h.reads2;
    total = h.total;
    depth_eq = h.depth_eq;
  }

  -- The same, where all targets are positive.
  IsPair-moves :
      {nodes nodes' : NodeMap} {q s1 s2 depth : ℕ}
      → IsAbove 0 targets
      → Agree nodes nodes' q
      → IsPair targets nodes q s1 s2 depth
      → IsPair targets nodes' q s1 s2 depth
  IsPair-moves {s1} {s2} pos agree h =
      let p1 = contains-IsAbove 0 s1 targets pos h.is_target1 in
      let p2 = contains-IsAbove 0 s2 targets pos h.is_target2 in
      IsPair-transport agree (omega (arith, h.total)) (omega (arith, h.total)) h

  pub IsOptimal-moves :
      (nodes nodes' : NodeMap) (q : ℕ) (b : Best)
      → IsAbove 0 targets
      → Agree nodes nodes' q
      → IsOptimal targets nodes q b
      → IsOptimal targets nodes' q b
  IsOptimal-moves nodes nodes' q b pos agree h =
      let back : Agree nodes' nodes q = λ s l. sym (agree s l) in
      record {
        below = h.below;
        found = elim (h.found) [
          | inl pair ↦ inl (IsPair-moves pos agree pair)
          | inr alone ↦
              inr (
                alone.0,
                λ s1 s2 depth p1 p2 k. alone.1 s1 s2 depth p1 p2 (IsPair-moves pos back k),
              )
        ];
        least = λ s1 s2 depth p1 p2 k. h.least s1 s2 depth p1 p2 (IsPair-moves pos back k);
      }

  -- The state before the powers `rest` are computed.
  pub record IsProgress (rest : List ℕ) (nodes : NodeMap) (depth : ℕ) : Type 0 where
    pub behind : (q : ℕ) → contains targets q ≡ true → contains rest q ≡ false → IsAbove q rest
    pub computed : (q : ℕ) → contains targets q ≡ true → contains rest q ≡ false → IsNode nodes q
    pub sourced : (q : ℕ) → contains sources q ≡ true → at nodes q ≡ some (source_node q)
    pub deep :
        (q : ℕ) (n : PowersNode)
        → contains targets q ≡ true
        → contains rest q ≡ false
        → at nodes q ≡ some n
        → n.depth ≤ depth
    pub attained :
        (depth ≡ 0)
        ⊎ ((q : ℕ) × (n : PowersNode) × (contains targets q ≡ true)
            × (contains rest q ≡ false)
            × (at nodes q ≡ some n)
            × (n.depth ≡ depth))
