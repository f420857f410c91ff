-- ===== src/BinBundle/Edit/Collected.antt =====
-- What `collect_labels`, the loop of BinBundle::try_get_multi_label, reads.
use u_psu.Common.{
  ℕ, zero, suc, ◌+◌, ◌*◌, ◌≡◌, ◌<◌, ◌≤◌, refl, sym, ap, ◌∙◌, inr, some, List, [], ◌∷◌, length,
  get_elem?, get_or, arith,
}
use mathlib.Core.Path.{subst}
use u_psu.BinBundle.{FilterOps, BinBundle}
use u_psu.BinBundle.Edit.{read_parts, get_iterator, collect_labels}
use u_psu.BinBundle.Edit.Places.{some_injective}
use u_psu.BinBundle.Edit.Parts.{part_at, read_parts_lem}

module _ {F : Type 0} (ops : FilterOps F) (b : BinBundle F) where
  -- What is collected from place `i` on, for the items from number `k` on.
  pub record IsCollected (count : ℕ) (xs : List ℕ) (k i : ℕ) (out out' : List ℕ) : Type 0 where
    pub size : length out' ≡ length out
    pub own :
        (r x p m : ℕ)
        → get_elem? xs r ≡ some x
        → get_iterator ops b (i + r) x ≡ some p
        → m < length b.label_bins
        → get_or out' (count * m + (k + r)) 0 ≡ part_at b.label_bins m (i + r) p
    pub others : (m j : ℕ) → j < k → get_or out' (count * m + j) 0 ≡ get_or out (count * m + j) 0

  collect_labels-cons :
      (count x : ℕ) (xs : List ℕ) (k i p : ℕ) (out : List ℕ)
      → get_iterator ops b i x ≡ some p
      → collect_labels ops b count (x ∷ xs) k i out
        ≡ collect_labels ops b count xs (k + 1) (i + 1) (read_parts count k b.label_bins 0 i p out)
  unfolding collect_labels
  collect_labels-cons count x xs k i p out found = rw (found, collect_labels) refl

  -- The parts of the first item, and of the others.
  collected-cons :
      (count x : ℕ) (xs : List ℕ) (k i p : ℕ) (next out' : List ℕ)
      → get_iterator ops b i x ≡ some p
      → ((m : ℕ)
          → m < length b.label_bins
          → get_or next (count * (0 + m) + k) 0 ≡ part_at b.label_bins m i p)
      → IsCollected count xs (k + 1) (i + 1) next out'
      → (r y q m : ℕ) → get_elem? (x ∷ xs) r ≡ some y
      → get_iterator ops b (i + r) y ≡ some q
      → m < length b.label_bins
      → get_or out' (count * m + (k + r)) 0 ≡ part_at b.label_bins m (i + r) q
  collected-cons count x xs k i p next out' found own rest zero y q m e at lt =
      let same : x ≡ y = some_injective e in
      let here : i + 0 ≡ i = omega arith in
      let here_k : k + 0 ≡ k = omega arith in
      let all : 0 + m ≡ m = omega arith in
      let at_x : get_iterator ops b i x ≡ some q =
        ap (λ (z : ℕ). get_iterator ops b i z) same
        ∙ subst (λ (z : ℕ). get_iterator ops b z y ≡ some q) here at in
      let places : p ≡ q = some_injective (sym found ∙ at_x) in
      let first : get_or next (count * m + k) 0 ≡ part_at b.label_bins m i p =
        subst (λ (z : ℕ). get_or next (count * z + k) 0 ≡ part_at b.label_bins m i p) all
          (own m lt) in
      rw (here, here_k)
        (rest.others m k (omega arith) ∙ first ∙ ap (λ (z : ℕ). part_at b.label_bins m i z) places)
  collected-cons count x xs k i p next out' found own rest (suc r) y q m e at lt =
      let there : i + suc r ≡ i + 1 + r = omega arith in
      let there_k : k + suc r ≡ k + 1 + r = omega arith in
      rw (there, there_k)
        (rest.own r y q m e (subst (λ (z : ℕ). get_iterator ops b z y ≡ some q) there at) lt)

  pub collect_labels_lem :
      (count : ℕ) (xs : List ℕ) (k i : ℕ) (out : List ℕ)
      → k + length xs ≤ count
      → count * length b.label_bins ≤ length out
      → ((r x : ℕ) → get_elem? xs r ≡ some x → (p : ℕ) × (get_iterator ops b (i + r) x ≡ some p))
      → (out' : List ℕ) × (collect_labels ops b count xs k i out ≡ some out')
        × IsCollected count xs k i out out'
  unfolding collect_labels
  collect_labels_lem count [] k i out fits room places =
      (out, refl, record { size = refl; own = λ r x p m e. cc e; others = λ m j lt. refl })
  collect_labels_lem count (x ∷ xs) k i out fits room places =
      let here : i + 0 ≡ i = omega arith in
      let (p, found') = places 0 x refl in
      let found : get_iterator ops b i x ≡ some p =
        subst (λ (z : ℕ). get_iterator ops b z x ≡ some p) here found' in
      let next = read_parts count k b.label_bins 0 i p out in
      let all : 0 + length b.label_bins ≡ length b.label_bins = omega arith in
      let room' : count * (0 + length b.label_bins) ≤ length out = rw all room in
      let (size, own, others) = read_parts_lem count k b.label_bins 0 i p out (omega arith) room' in
      let (out', run, rest) =
        collect_labels_lem count xs (k + 1) (i + 1) next (omega arith) (omega arith) (λ r y e.
          let there : i + 1 + r ≡ i + suc r = omega arith in rw there (places (suc r) y e)) in
      (
        out',
        collect_labels-cons count x xs k i p out found ∙ run,
        record {
          size = rest.size ∙ size;
          own = collected-cons count x xs k i p next out' found own rest;
          others = λ m j lt.
              rest.others m j (omega arith) ∙ others m j (omega arith) (inr (λ e. omega arith));
        },
      )
