-- ===== src/BinBundle/Edit/Labels.antt =====
-- Labels that are overwritten and looked up.
use u_psu.Common.{
  ℕ, zero, ◌+◌, ◌*◌, ◌≡◌, ◌<◌, ◌≤◌, sym, ap, ◌∙◌, true, false, some, List, ◌==◌, length, get_elem?,
  get_or, replicate, arith, length-replicate,
}
use u_psu.Common.Results.{ok}
use u_psu.BinBundle.{FilterOps, BinBundle, ItemLabels, sizes_match, no_room}
use u_psu.BinBundle.Effect.{IsWellFormed}
use u_psu.BinBundle.Edit.{
  items_of, get_iterator, all_present, try_multi_overwrite_labeled, try_get_multi_label,
}
use u_psu.BinBundle.Edit.Places.{length-map}
use u_psu.BinBundle.Edit.Present.{sizes_match_lem, get_elem?-items_of, all_present_lem}
use u_psu.BinBundle.Edit.Overwritten.{IsOverwritten, overwrite_labels_lem}
use u_psu.BinBundle.Edit.Collected.{collect_labels_lem}

-- Items in their bins have labels of the right size written, and all of them are looked up
-- behind it.
try_multi_overwrite_labeled_lem :
    {F : Type 0} (ops : FilterOps F) (items : ItemLabels) (start : ℕ) (b : BinBundle F)
    → IsWellFormed b
    → b.stripped ≡ false
    → 0 < length items
    → start + length items ≤ b.num_bins
    → sizes_match b.label_size items ≡ true
    → all_present ops b (items_of items) start ≡ true
    → (b' : BinBundle F) × (try_multi_overwrite_labeled ops items start b ≡ ok (true, b'))
      × IsOverwritten items start b b'
unfolding try_multi_overwrite_labeled
try_multi_overwrite_labeled_lem ops items start b wf open_ pos fits sizes present =
    let some_item : (length items == 0) ≡ false = ground arith in
    let room : no_room b start (length items) ≡ false = ground arith in
    let (b', run, h) =
      overwrite_labels_lem items start b wf fits
        (λ k x l e. sizes_match_lem b.label_size items k x l sizes e)
        (λ k x l e.
          let (p, found, at) =
            all_present_lem ops b (items_of items) start k x present
              (get_elem?-items_of items k x l e) in
          (p, found)) in
    (b', simp (open_, some_item, sizes, room, present, run), h)

get_iterator_same :
    {F : Type 0} (ops : FilterOps F) (b b' : BinBundle F) (i x : ℕ)
    → b'.item_bins ≡ b.item_bins
    → b'.filters ≡ b.filters
    → get_iterator ops b' i x ≡ get_iterator ops b i x
unfolding get_iterator
get_iterator_same ops b b' i x e f = simp (e, f)

-- In a well-formed bundle that is not stripped, new labels of the right size are written for
-- items that are all present, within the bins: it succeeds, the bundle stays well-formed, and
-- looking the items up then succeeds and gives, for each item and each part, the part written.
pub try_get_multi_label-try_multi_overwrite_labeled :
    {F : Type 0} (ops : FilterOps F) (items : ItemLabels) (start : ℕ) (labels : List ℕ)
    (b : BinBundle F) (k x m : ℕ) (l : List ℕ)
    → IsWellFormed b
    → b.stripped ≡ false
    → 0 < length items
    → start + length items ≤ b.num_bins
    → sizes_match b.label_size items ≡ true
    → all_present ops b (items_of items) start ≡ true
    → get_elem? items k ≡ some (x, l)
    → m < b.label_size
    → (b' : BinBundle F) × (out : List ℕ) × (try_multi_overwrite_labeled ops items start b
        ≡ ok (true, b'))
      × IsWellFormed b'
      × (try_get_multi_label ops (items_of items) start labels b' ≡ ok (true, out))
      × (get_or out (length items * m + k) 0 ≡ get_or l m 0)
unfolding try_get_multi_label
try_get_multi_label-try_multi_overwrite_labeled ops items start labels b k x m l wf open_ pos fits
      sizes present e lt =
    let (b', run, h) =
      try_multi_overwrite_labeled_lem ops items start b wf open_ pos fits sizes present in
    let xs = items_of items in
    let count : length xs ≡ length items = length-map (λ (q : ℕ × List ℕ). q.0) items in
    let some_item : (length xs == 0) ≡ false = ground (arith, count) in
    let room : no_room b' start (length xs) ≡ false = ground (arith, count, h.num_bins) in
    let open' : b'.stripped ≡ false = h.stripped ∙ open_ in
    let same = λ (i y : ℕ). get_iterator_same ops b b' i y h.bins h.filters in
    let zeros = replicate {A = ℕ} (length xs * b'.label_size) 0 in
    let (p, found, at) =
      all_present_lem ops b xs start k x present (get_elem?-items_of items k x l e) in
    let (out, run', col) =
      collect_labels_lem ops b' (length xs) xs 0 start zeros (omega arith)
        (omega (
          arith,
          length-replicate (length xs * b'.label_size) (zero),
          ap (λ (z : ℕ). length xs * z) h.formed.label_count,
        ))
        (λ r y s.
          let (q, found', at') = all_present_lem ops b xs start r y present s in
          (q, same (start + r) y ∙ at')) in
    let index : length xs * m + (0 + k) ≡ length items * m + k =
      omega (arith, ap (λ (z : ℕ). z * m) count) in
    (
      b',
      out,
      run,
      h.formed,
      simp (open', some_item, room, run'),
      ap (λ (z : ℕ). get_or out z 0) (sym index)
          ∙ col.own k x p m (get_elem?-items_of items k x l e) (same (start + k) x ∙ at)
              (omega (arith, h.formed.label_count, h.label_size))
          ∙ h.written k x p m l e found lt,
    )
