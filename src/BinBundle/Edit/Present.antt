-- ===== src/BinBundle/Edit/Present.antt =====
-- Items that are present, and labels of the right size.
use u_psu.Common.{
  ℕ, zero, suc, ◌+◌, ◌≡◌, refl, sym, ap, ◌∙◌, inl, inr, true, some, List, [], ◌∷◌, ◌==◌, length,
  get_elem?, arith, Bool-cases, ==→eq, and-left, and-right,
}
use u_psu.Common.Sets.{contains}
use u_psu.BinBundle.{
  FilterOps, BinBundle, ItemLabels, bin_at, sizes_match, filter_holds, is_present,
}
use u_psu.BinBundle.Edit.{find_pos, items_of, get_iterator, all_present}
use u_psu.BinBundle.Edit.Places.{some_injective}

contains-find_pos :
    (xs : List ℕ) (x : ℕ) → contains xs x ≡ true → (p : ℕ) × (find_pos xs x ≡ some p)
unfolding find_pos
contains-find_pos [] x e = cc e
contains-find_pos (y ∷ ys) x e = elim (Bool-cases (y == x)) [
  | inl same ↦ (0, rw (same, find_pos) refl)
  | inr other ↦
      let rest : contains ys x ≡ true = ground arith in
      let (p, found) = contains-find_pos ys x rest in (suc p, rw (other, found, find_pos) refl)
]

pub sizes_match_lem :
    (n : ℕ) (items : ItemLabels) (k x : ℕ) (l : List ℕ)
    → sizes_match n items ≡ true
    → get_elem? items k ≡ some (x, l)
    → length l ≡ n
unfolding sizes_match
sizes_match_lem n [] k x l h e = cc e
sizes_match_lem n ((y, t) ∷ items) zero x l h e =
    let same : (y, t) ≡ (x, l) = some_injective e in
    let fits = ==→eq (length t) n (and-left (length t == n) (sizes_match n items) h) in
    ap (λ (q : ℕ × List ℕ). length q.1) (sym same) ∙ fits
sizes_match_lem n ((y, t) ∷ items) (suc k) x l h e =
    sizes_match_lem n items k x l (and-right (length t == n) (sizes_match n items) h) e

pub get_elem?-items_of :
    (items : ItemLabels) (k x : ℕ) (l : List ℕ)
    → get_elem? items k ≡ some (x, l)
    → get_elem? (items_of items) k ≡ some x
get_elem?-items_of [] k x l e = cc e
get_elem?-items_of (y ∷ items) zero x l e = ap (λ (q : ℕ × List ℕ). some q.0) (some_injective e)
get_elem?-items_of (y ∷ items) (suc k) x l e = get_elem?-items_of items k x l e

module _ {F : Type 0} (ops : FilterOps F) where
  is_present_lem :
      (b : BinBundle F) (i y : ℕ)
      → is_present ops b i y ≡ true
      → (p : ℕ) × (find_pos (bin_at b i) y ≡ some p) × (get_iterator ops b i y ≡ some p)
  unfolding is_present get_iterator
  is_present_lem b i y present =
      let holds = and-left (filter_holds ops b.filters i y) (contains (bin_at b i) y) present in
      let (p, found) =
        contains-find_pos (bin_at b i) y
          (and-right (filter_holds ops b.filters i y) (contains (bin_at b i) y) present) in
      (p, found, rw holds found)

  -- Items that are present have places.
  pub all_present_lem :
      (b : BinBundle F) (xs : List ℕ) (i k x : ℕ)
      → all_present ops b xs i ≡ true
      → get_elem? xs k ≡ some x
      → (p : ℕ) × (find_pos (bin_at b (i + k)) x ≡ some p) × (get_iterator ops b (i + k) x ≡ some p)
  unfolding all_present
  all_present_lem b [] i k x h e = cc e
  all_present_lem b (y ∷ xs) i zero x h e =
      let same : y ≡ x = some_injective e in
      let here : i + 0 ≡ i = omega arith in
      let present : is_present ops b i y ≡ true =
        and-left (is_present ops b i y) (all_present ops b xs (i + 1)) h in
      rw (here, ← same) (is_present_lem b i y present)
  all_present_lem b (y ∷ xs) i (suc k) x h e =
      let there : i + suc k ≡ i + 1 + k = omega arith in
      rw there (
        all_present_lem b xs (i + 1) k x
          (and-right (is_present ops b i y) (all_present ops b xs (i + 1)) h) e)
