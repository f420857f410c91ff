-- ===== src/Powers/Stale.antt =====
-- `reset` clears all members but `nodes_`, so nodes of an earlier configuration stay.
use mathlib.Core.Bool.{false≢true}
use u_psu.Common.{
  ℕ, ◌≡◌, Bool, true, false, none, some, List, [], ◌∷◌, arith, inl, inr, ap, Bool-cases, ◌∙◌, sym,
  ◌≢◌, Option-cases, max, length,
}
use u_psu.Common.Sets.{contains}
use u_psu.Powers.{
  PowersDag, NodeMap, at, insert, node_of, compute_power, compute_powers, first_guess, configure,
  accepts, insert_sources, reset, search_parents,
}
use u_psu.Powers.Nodes.{at-insert_sources, at-insert_ne}
use u_psu.Powers.Configure.{accepts_iff}

module _ (sources targets : List ℕ) (q : ℕ) where
  compute_power-keeps :
      (p : ℕ) (st st' : NodeMap × ℕ)
      → p ≢ q
      → compute_power sources targets p st ≡ some st'
      → at st'.0 q ≡ at st.0 q
  unfolding compute_power
  compute_power-keeps p (nodes, depth) st' ne h = elim (Bool-cases (contains sources p)) [
    | inl s ↦
        let h' : some (nodes, depth) ≡ some st' = rw s at h in
        let e : (nodes, depth) ≡ st' = cc h' in rw (← e)
    | inr s ↦ elim (Option-cases (search_parents targets nodes p targets (first_guess p))) [
      | inl e ↦ let h' : none ≡ some st' = rw (s, e) at h in cc h'
      | inr (b, e) ↦
          let h' : some (insert p (node_of p b) nodes, max depth b.depth) ≡ some st' =
            rw (s, e) at h in
          let e' : (insert p (node_of p b) nodes, max depth b.depth) ≡ st' = cc h' in
          rw (← e') (at-insert_ne p q (node_of p b) nodes ne)
    ]
  ]

  compute_powers-keeps :
      (rest : List ℕ) (st st' : NodeMap × ℕ)
      → contains rest q ≡ false
      → compute_powers sources targets rest st ≡ some st'
      → at st'.0 q ≡ at st.0 q
  unfolding compute_powers
  compute_powers-keeps [] st st' f h = let e : st ≡ st' = cc h in rw e
  compute_powers-keeps (p ∷ rest) st st' f h =
      elim (Option-cases (compute_power sources targets p st)) [
        | inl e ↦ let h' : none ≡ some st' = rw e at h in cc h'
        | inr (mid, e) ↦
            let h' : compute_powers sources targets rest mid ≡ some st' = rw e at h in
            compute_powers-keeps rest mid st' (ground arith) h'
            ∙ compute_power-keeps p st mid (ground arith) e
      ]

-- A successful `configure` leaves each node of a power that is no target power as it was before
-- the call: `reset` does not clear `nodes_`.
pub configure-keeps_stale :
    (dag d : PowersDag) (sources targets : List ℕ) (q : ℕ)
    → configure dag sources targets ≡ some (d, true)
    → contains targets q ≡ false
    → at d.nodes q ≡ at dag.nodes q
unfolding configure
configure-keeps_stale dag d sources targets q h f = elim (Bool-cases (accepts sources targets)) [
  | inr bad ↦ let h' : some (reset dag, false) ≡ some (d, true) = rw bad at h in cc h'
  | inl good ↦
      let ok = (accepts_iff sources targets).0 good in
      let start : NodeMap × ℕ = (insert_sources sources dag.nodes, 0) in
      let outside : contains sources q ≡ false = elim (Bool-cases (contains sources q)) [
        | inl s ↦ absurd (false≢true (sym f ∙ ok.subset q s))
        | inr s ↦ s
      ] in
      let begin : at start.0 q ≡ at dag.nodes q = rw (at-insert_sources, outside) in
      elim (Option-cases (compute_powers sources targets targets start)) [
        | inl e ↦ let h' : none ≡ some (d, true) = rw (good, e) at h in cc h'
        | inr (st, e) ↦
            let keeps = compute_powers-keeps sources targets q targets start st f e in
            let result : PowersDag = record {
              nodes = st.0;
              configured = true;
              targets = targets;
              depth = st.1;
              source_count = length sources;
            } in
            let h' : some (result, true) ≡ some (d, true) = rw (good, e) at h in
            let same_pair : (result, true) ≡ (d, true) = cc h' in
            let same : st.0 ≡ d.nodes = ap (λ (r : PowersDag × Bool). r.0.nodes) same_pair in
            rw (← same) (keeps ∙ begin)
      ]
]
