-- ===== src/BinBundle/Edit/Overwritten.antt =====
-- What `overwrite_labels`, the loop of BinBundle::try_multi_overwrite, writes.
use u_psu.Common.{
  ℕ, zero, suc, ◌+◌, ◌≡◌, ◌<◌, ◌≤◌, refl, sym, ap, ◌∙◌, true, some, List, [], ◌∷◌, length,
  get_elem?, get_or, arith,
}
use mathlib.Core.Path.{subst}
use u_psu.Common.Results.{ok}
use u_psu.BinBundle.{BinBundle, ItemLabels, bin_at}
use u_psu.BinBundle.Effect.{IsWellFormed}
use u_psu.BinBundle.Edit.{find_pos, write_parts, overwrite_labels}
use u_psu.BinBundle.Edit.Places.{some_injective, find_pos-Perm}
use u_psu.BinBundle.Edit.Parts.{
  part_at, length-write_parts, part_at-write_parts_self, part_at-write_parts_ne, write_parts_bins,
  write_parts_bin,
}

-- Each item has its new label, and the labels of the other bins are as they were.
pub record IsOverwritten {F : Type 0} (items : ItemLabels) (i : ℕ) (b b' : BinBundle F)
    : Type 0 where
  pub formed : IsWellFormed b'
  pub bins : b'.item_bins ≡ b.item_bins
  pub filters : b'.filters ≡ b.filters
  pub label_size : b'.label_size ≡ b.label_size
  pub num_bins : b'.num_bins ≡ b.num_bins
  pub stripped : b'.stripped ≡ b.stripped
  pub written :
      (k x p m : ℕ) (l : List ℕ)
      → get_elem? items k ≡ some (x, l)
      → find_pos (bin_at b (i + k)) x ≡ some p
      → m < b.label_size
      → part_at b'.label_bins m (i + k) p ≡ get_or l m 0
  pub before :
      (m j q : ℕ)
      → m < b.label_size
      → j < i
      → part_at b'.label_bins m j q ≡ part_at b.label_bins m j q

module _ {F : Type 0} (b : BinBundle F) (wf : IsWellFormed b) where
  -- The bundle with one label overwritten.
  abbrev overwritten : List ℕ → ℕ → ℕ → BinBundle F
  overwritten l i p = record b { label_bins = write_parts b.label_bins l i p; cache_invalid = true }

  overwritten-IsWellFormed :
      (l : List ℕ) (i p : ℕ) → length l ≡ b.label_size → IsWellFormed (overwritten l i p)
  overwritten-IsWellFormed l i p fits = record {
    item_count = wf.item_count;
    filter_count = wf.filter_count;
    label_count = length-write_parts b.label_bins l i p ∙ wf.label_count;
    label_bin_count =
        λ m lt. write_parts_bins b.label_bins l i p m (omega arith) ∙ wf.label_bin_count m lt;
    parallel = λ m j lt. write_parts_bin b.label_bins l i p m (omega arith) j ∙ wf.parallel m j lt;
  }

  -- What is read of the first item, and of the others.
  written-cons :
      (x : ℕ) (l : List ℕ) (items : ItemLabels) (i p : ℕ) (b' : BinBundle F)
      → find_pos (bin_at b i) x ≡ some p
      → length l ≡ b.label_size
      → i < b.num_bins
      → IsOverwritten items (i + 1) (overwritten l i p) b'
      → (k y q m : ℕ) (t : List ℕ) → get_elem? ((x, l) ∷ items) k ≡ some (y, t)
      → find_pos (bin_at b (i + k)) y ≡ some q
      → m < b.label_size
      → part_at b'.label_bins m (i + k) q ≡ get_or t m 0
  written-cons x l items i p b' found size fits rest zero y q m t e at lt =
      let same = some_injective e in
      let here : i + 0 ≡ i = omega arith in
      let at_x : find_pos (bin_at b i) x ≡ some q =
        ap (λ (z : ℕ × List ℕ). find_pos (bin_at b i) z.0) same
        ∙ subst (λ (z : ℕ). find_pos (bin_at b z) y ≡ some q) here at in
      let places : p ≡ q = some_injective (sym found ∙ at_x) in
      let p_lt = (find_pos-Perm (bin_at b i) x p found).0 in
      let new =
        rest.before m i p lt (omega arith)
        ∙ part_at-write_parts_self b.label_bins l i p m (omega arith)
            (omega (arith, wf.label_bin_count m lt)) (omega (arith, wf.parallel m i lt)) in
      rw here (
        ap (λ (z : ℕ). part_at b'.label_bins m i z) (sym places)
        ∙ new
        ∙ ap (λ (z : ℕ × List ℕ). get_or z.1 m 0) same)
  written-cons x l items i p b' found size fits rest (suc k) y q m t e at lt =
      let there : i + suc k ≡ i + 1 + k = omega arith in
      rw there
        (rest.written k y q m t e (subst (λ (z : ℕ). find_pos (bin_at b z) y ≡ some q) there at) lt)

  IsOverwritten-cons :
      (x : ℕ) (l : List ℕ) (items : ItemLabels) (i p : ℕ) (b' : BinBundle F)
      → find_pos (bin_at b i) x ≡ some p
      → length l ≡ b.label_size
      → i < b.num_bins
      → IsOverwritten items (i + 1) (overwritten l i p) b'
      → IsOverwritten ((x, l) ∷ items) i b b'
  IsOverwritten-cons x l items i p b' found size fits rest = record {
    formed = rest.formed;
    bins = rest.bins;
    filters = rest.filters;
    label_size = rest.label_size;
    num_bins = rest.num_bins;
    stripped = rest.stripped;
    written = written-cons x l items i p b' found size fits rest;
    before = λ m j q lt lt'.
        rest.before m j q lt (omega arith)
        ∙ part_at-write_parts_ne b.label_bins l i p m (omega arith) j q (λ e. omega arith);
  }

overwrite_labels-cons :
    {F : Type 0} (x : ℕ) (l : List ℕ) (items : ItemLabels) (i : ℕ) (b : BinBundle F) (p : ℕ)
    → find_pos (bin_at b i) x ≡ some p
    → overwrite_labels ((x, l) ∷ items) i b
      ≡ overwrite_labels items
          (i + 1)
          (record b { label_bins = write_parts b.label_bins l i p; cache_invalid = true })
unfolding overwrite_labels
overwrite_labels-cons x l items i b p found = rw (found, overwrite_labels) refl

pub overwrite_labels_lem :
    {F : Type 0} (items : ItemLabels) (i : ℕ) (b : BinBundle F)
    → IsWellFormed b
    → i + length items ≤ b.num_bins
    → ((k x : ℕ) (l : List ℕ) → get_elem? items k ≡ some (x, l) → length l ≡ b.label_size)
    → ((k x : ℕ) (l : List ℕ)
        → get_elem? items k ≡ some (x, l)
        → (p : ℕ) × (find_pos (bin_at b (i + k)) x ≡ some p))
    → (b' : BinBundle F) × (overwrite_labels items i b ≡ ok b') × IsOverwritten items i b b'
unfolding overwrite_labels
overwrite_labels_lem [] i b wf fits sizes places = (
  b,
  refl,
  record {
    formed = wf;
    bins = refl;
    filters = refl;
    label_size = refl;
    num_bins = refl;
    stripped = refl;
    written = λ k x p m l e. cc e;
    before = λ m j q lt lt'. refl;
  },
)
overwrite_labels_lem ((x, l) ∷ items) i b wf fits sizes places =
    let here : i + 0 ≡ i = omega arith in
    let (p, found') = places 0 x l refl in
    let found : find_pos (bin_at b i) x ≡ some p =
      subst (λ (q : ℕ). find_pos (bin_at b q) x ≡ some p) here found' in
    let size = sizes 0 x l refl in
    let next = overwritten b wf l i p in
    let formed = overwritten-IsWellFormed b wf l i p size in
    let (b', run, rest) =
      overwrite_labels_lem items (i + 1) next formed (omega arith) (λ k. sizes (suc k))
        (λ k y t e.
          let there : i + 1 + k ≡ i + suc k = omega arith in rw there (places (suc k) y t e)) in
    (
      b',
      overwrite_labels-cons x l items i b p found ∙ run,
      IsOverwritten-cons b wf x l items i p b' found size (omega arith) rest,
    )
