-- ===== src/Powers/Configure.antt =====
-- What `configure` leaves behind, for each input.
use mathlib.Core.Bool.{false≢true}
use u_psu.Common.{
  ℕ, ◌≤◌, ◌≡◌, refl, true, false, some, List, [], ◌∷◌, arith, ◌⊎◌, inl, inr, ◌∙◌, sym, length, ◌↔◌,
}
use u_psu.Common.Sets.{
  contains, includes, IsAbove, IsAscending, FitsIn32, contains-head, contains-tail,
  contains-includes, contains-FitsIn32, contains-tail_false,
}
use u_psu.Powers.{
  PowersNode, PowersDag, NodeMap, at, compute_powers, configure, accepts, insert_sources,
}
use u_psu.Powers.Nodes.{at-insert_sources}
use u_psu.Powers.Loop.{IsNode, IsProgress}
use u_psu.Powers.Steps.{compute_power-IsProgress}

-- The conditions on the arguments, as the comments of `configure` give them.
pub record IsAccepted (sources targets : List ℕ) : Type 0 where
  pub sources_no_zero : contains sources 0 ≡ false
  pub sources_one : contains sources 1 ≡ true
  pub targets_no_zero : contains targets 0 ≡ false
  pub targets_one : contains targets 1 ≡ true
  pub subset : (x : ℕ) → contains sources x ≡ true → contains targets x ≡ true

includes_of_subset :
    (t s : List ℕ) → ((x : ℕ) → contains s x ≡ true → contains t x ≡ true) → includes t s ≡ true
includes_of_subset t [] h = refl
includes_of_subset t (x ∷ s) h =
    rw (h x (contains-head x s), includes_of_subset t s (λ y m. h y (contains-tail x y s m)))

pub accepts_iff :
    (sources targets : List ℕ) → (accepts sources targets ≡ true) ↔ IsAccepted sources targets
unfolding accepts
accepts_iff sources targets = (
  λ h.
      let inc : includes targets sources ≡ true = ground arith in
      record {
        sources_no_zero = ground arith;
        sources_one = ground arith;
        targets_no_zero = ground arith;
        targets_one = ground arith;
        subset = λ x m. contains-includes targets sources x inc m;
      },
  λ h. rw (
    h.sources_no_zero,
    h.sources_one,
    h.targets_no_zero,
    h.targets_one,
    includes_of_subset targets sources h.subset,
  ),
)

IsAbove-zero : (xs : List ℕ) → contains xs 0 ≡ false → IsAbove 0 xs
IsAbove-zero [] h = tt
IsAbove-zero (x ∷ xs) h = (ground arith, IsAbove-zero xs (contains-tail_false x 0 xs h))

module _ (sources targets : List ℕ) where
  compute_powers-IsProgress :
      (rest : List ℕ) (nodes : NodeMap) (depth : ℕ)
      → IsAccepted sources targets
      → IsAscending targets
      → FitsIn32 targets
      → IsAscending rest
      → ((q : ℕ) → contains rest q ≡ true → contains targets q ≡ true)
      → IsProgress sources targets rest nodes depth
      → (st : NodeMap × ℕ) × (compute_powers sources targets rest (nodes, depth) ≡ some st)
        × IsProgress sources targets [] st.0 st.1
  unfolding compute_powers
  compute_powers-IsProgress [] nodes depth ok up fits asc sub h = ((nodes, depth), refl, h)
  compute_powers-IsProgress (p ∷ rest) nodes depth ok up fits asc sub h =
      let tp = sub p (contains-head p rest) in
      let (st, e, h') =
        compute_power-IsProgress sources targets p rest asc nodes depth
          (IsAbove-zero targets ok.targets_no_zero) up (contains-FitsIn32 p targets fits tp)
          ok.targets_one ok.sources_one tp h in
      let (st', e', h'') =
        compute_powers-IsProgress rest st.0 st.1 ok up fits asc.1
          (λ q m. sub q (contains-tail p q rest m)) h' in
      rw (e, e') (st', refl, h'')

  start-IsProgress :
      (nodes : NodeMap) → IsProgress sources targets targets (insert_sources sources nodes) 0
  start-IsProgress nodes = record {
    behind = λ q t f. absurd (false≢true (sym f ∙ t));
    computed = λ q t f. absurd (false≢true (sym f ∙ t));
    sourced = λ q s. rw (at-insert_sources, s);
    deep = λ q n t f r. absurd (false≢true (sym f ∙ t));
    attained = inl refl;
  }

  -- The object after a successful call.
  pub record IsConfigured (d : PowersDag) : Type 0 where
    pub configured : d.configured ≡ true
    pub targets_eq : d.targets ≡ targets
    pub count : d.source_count ≡ length sources
    pub nodes : (q : ℕ) → contains targets q ≡ true → IsNode sources targets d.nodes q
    pub deep :
        (q : ℕ) (n : PowersNode)
        → contains targets q ≡ true
        → at d.nodes q ≡ some n
        → n.depth ≤ d.depth
    pub attained :
        (d.depth ≡ 0)
        ⊎ ((q : ℕ) × (n : PowersNode) × (contains targets q ≡ true)
            × (at d.nodes q ≡ some n)
            × (n.depth ≡ d.depth))

-- On ascending 32-bit target powers that meet the conditions, `configure` throws nothing and
-- returns true, and the object is configured for these sets: each target power has a node, at
-- depth 0 and without parents if it is a source power, and otherwise at the least depth that two
-- target powers of that sum allow; depth_ is the greatest depth of a target's node.
pub configure-IsConfigured :
    (dag : PowersDag) (sources targets : List ℕ)
    → IsAscending targets
    → FitsIn32 targets
    → IsAccepted sources targets
    → (d : PowersDag) × (configure dag sources targets ≡ some (d, true))
      × IsConfigured sources targets d
unfolding configure
configure-IsConfigured dag sources targets asc fits ok =
    let (st, e, h) =
      compute_powers-IsProgress sources targets targets _ 0 ok asc fits asc (λ q m. m)
        (start-IsProgress sources targets dag.nodes) in
    rw ((accepts_iff sources targets).1 ok, e)
      (
        record {
          nodes = st.0;
          configured = true;
          targets = targets;
          depth = st.1;
          source_count = length sources;
        },
        refl,
        record {
          configured = refl;
          targets_eq = refl;
          count = refl;
          nodes = λ q t. h.computed q t refl;
          deep = λ q n t r. h.deep q n t refl r;
          attained = elim (h.attained) [
            | inl z ↦ inl z
            | inr (q, n, t, _, r, e) ↦ inr (q, n, t, r, e)
          ];
        },
      )
