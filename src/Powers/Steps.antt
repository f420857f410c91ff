-- ===== src/Powers/Steps.antt =====
-- A round of the loop of `configure` keeps what the loop has established.
use mathlib.Core.Bool.{false≢true}
use u_psu.Common.{
  ℕ, ◌<◌, ◌^◌, ◌≡◌, refl, true, false, some, List, ◌∷◌, arith, inl, inr, Bool-cases, ◌∙◌, sym, max,
  ◌≢◌, leb, leb→le, leb→gt, ◌==◌, ==→eq,
}
use u_psu.Common.Sets.{
  contains, IsAbove, IsAscending, contains-cons_false, contains-tail_false, contains-IsAbove,
  contains-IsAscending-false, contains-IsAbove-false,
}
use u_psu.Powers.{NodeMap, at, insert, Best, node_of, source_node, compute_power}
use u_psu.Powers.Nodes.{at-insert_self, at-insert_ne}
use u_psu.Powers.Parents.{Known}
use u_psu.Powers.Optimal.{IsOptimal, search_parents-IsOptimal}
use u_psu.Powers.Loop.{IsNode, IsProgress, IsOptimal-moves}

module _ (sources targets : List ℕ) (p : ℕ) (rest : List ℕ) (asc : IsAscending (p ∷ rest)) where
  known :
      (nodes : NodeMap) (depth : ℕ)
      → IsProgress sources targets (p ∷ rest) nodes depth
      → Known targets nodes p
  known nodes depth h q t lt =
      let n = h.computed q t (contains-IsAscending-false p q rest asc lt) in
      (n.node, n.reads, n.shallow)

  source_step :
      (nodes : NodeMap) (depth : ℕ)
      → 0 < p
      → contains sources p ≡ true
      → IsProgress sources targets (p ∷ rest) nodes depth
      → IsProgress sources targets rest nodes depth
  source_step nodes depth pos s h =
      let here : IsNode sources targets nodes p = record {
        node = source_node p;
        reads = h.sourced p s;
        power_eq = refl;
        shallow = pos;
        source = λ _. refl;
        computed = λ f. absurd (false≢true (sym f ∙ s));
      } in
      record {
        behind = λ q t f. elim (contains-cons_false p q rest f) [
          | inl e ↦ rw (← e) asc.0
          | inr f' ↦ (h.behind q t f').1
        ];
        computed = λ q t f. elim (contains-cons_false p q rest f) [
          | inl e ↦ rw (← e) here
          | inr f' ↦ h.computed q t f'
        ];
        sourced = h.sourced;
        deep = λ q n t f r. elim (contains-cons_false p q rest f) [
          | inl e ↦
              let e1 : some n ≡ some (source_node p) = sym r ∙ rw (← e) (h.sourced p s) in
              let e2 : n.depth ≡ 0 = cc e1 in omega arith
          | inr f' ↦ h.deep q n t f' r
        ];
        attained = elim (h.attained) [
          | inl z ↦ inl z
          | inr (q, n, t, f, r, e) ↦ inr (q, n, t, contains-tail_false p q rest f, r, e)
        ];
      }

  module _ (nodes : NodeMap) (depth : ℕ) (b : Best) where
    abbrev after : NodeMap
    after = insert p (node_of p b) nodes

    after-ne : (q : ℕ) → p ≢ q → at after q ≡ at nodes q
    after-ne q h = at-insert_ne p q (node_of p b) nodes h

    moved :
        (q : ℕ)
        → IsAbove 0 targets
        → q < p
        → IsNode sources targets nodes q
        → IsNode sources targets after q
    moved q pos lt h = record {
      node = h.node;
      reads = after-ne q (omega arith) ∙ h.reads;
      power_eq = h.power_eq;
      shallow = h.shallow;
      source = h.source;
      computed = λ f.
          IsOptimal-moves sources targets nodes after q _ pos (λ s l. after-ne s (omega arith))
            (h.computed f);
    }

    computed_step :
        IsAbove 0 targets
        → contains targets p ≡ true
        → contains sources p ≡ false
        → IsOptimal targets nodes p b
        → IsProgress sources targets (p ∷ rest) nodes depth
        → IsProgress sources targets rest after (max depth b.depth)
    computed_step pos tp s opt h =
        let self : at after p ≡ some (node_of p b) = at-insert_self p (node_of p b) nodes in
        let here : IsNode sources targets after p = record {
          node = node_of p b;
          reads = self;
          power_eq = refl;
          shallow = opt.below;
          source = λ t. absurd (false≢true (sym s ∙ t));
          computed = λ f.
              IsOptimal-moves sources targets nodes after p b pos (λ q l. after-ne q (omega arith))
                opt;
        } in
        record {
          behind = λ q t f. elim (contains-cons_false p q rest f) [
            | inl e ↦ rw (← e) asc.0
            | inr f' ↦ (h.behind q t f').1
          ];
          computed = λ q t f. elim (contains-cons_false p q rest f) [
            | inl e ↦ rw (← e) here
            | inr f' ↦ moved q pos (h.behind q t f').0 (h.computed q t f')
          ];
          sourced = λ q t. elim (Bool-cases (p == q)) [
            | inl e ↦ absurd (false≢true (sym s ∙ rw (==→eq p q e) t))
            | inr e ↦ after-ne q (ground arith) ∙ h.sourced q t
          ];
          deep = λ q n t f r. elim (contains-cons_false p q rest f) [
            | inl e ↦
                let e1 : some n ≡ some (node_of p b) = sym r ∙ rw (← e) self in
                let e2 : n.depth ≡ b.depth = cc e1 in omega arith
            | inr f' ↦
                let lt = (h.behind q t f').0 in
                let r' : at nodes q ≡ some n = sym (after-ne q (omega arith)) ∙ r in
                omega (arith, h.deep q n t f' r')
          ];
          attained = elim (Bool-cases (leb depth b.depth)) [
            | inl le ↦ inr (p, node_of p b, tp, fresh, self, omega (arith, leb→le depth b.depth le))
            | inr gt ↦
                let e : max depth b.depth ≡ depth = omega (arith, leb→gt depth b.depth gt) in
                elim (h.attained) [
                  | inl z ↦ inl (e ∙ z)
                  | inr (q, n, t, f, r, d) ↦
                      let lt = (h.behind q t f).0 in
                      inr (
                        q,
                        n,
                        t,
                        contains-tail_false p q rest f,
                        after-ne q (omega arith) ∙ r,
                        d ∙ sym e,
                      )
                ]
          ];
        }
      where
        fresh : contains rest p ≡ false
        fresh = contains-IsAbove-false p rest asc.0

  -- One round, on either branch.
  pub compute_power-IsProgress :
      (nodes : NodeMap) (depth : ℕ)
      → IsAbove 0 targets
      → IsAscending targets
      → p < 2 ^ 32
      → contains targets 1 ≡ true
      → contains sources 1 ≡ true
      → contains targets p ≡ true
      → IsProgress sources targets (p ∷ rest) nodes depth
      → (st : NodeMap × ℕ) × (compute_power sources targets p (nodes, depth) ≡ some st)
        × IsProgress sources targets rest st.0 st.1
  unfolding compute_power
  compute_power-IsProgress nodes depth pos up small one_t one_s tp h =
      let positive = contains-IsAbove 0 p targets pos tp in
      elim (Bool-cases (contains sources p)) [
        | inl s ↦ rw s ((nodes, depth), refl, source_step nodes depth positive s h)
        | inr s ↦
            let big : 1 < p = elim (Bool-cases (p == 1)) [
              | inl e ↦ absurd (false≢true (sym s ∙ rw (==→eq p 1 e) one_s))
              | inr e ↦ ground arith
            ] in
            let (b, e, opt) =
              search_parents-IsOptimal targets nodes p small big (known nodes depth h) pos up
                one_t in
            rw (s, e)
              (
                (after nodes depth b, max depth b.depth),
                refl,
                computed_step nodes depth b pos tp s opt h,
              )
      ]
