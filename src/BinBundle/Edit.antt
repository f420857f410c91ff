-- ===== src/BinBundle/Edit.antt =====
-- The operations of BinBundle on items that it holds, in receiver/apsu/bin_bundle.cpp: overwriting
-- and removing them, their labels, and clearing the bundle.
pub mod Cleared
pub mod Places
pub mod Removed
pub mod Parts
pub mod Present
pub mod Overwritten
pub mod Collected
pub mod Labels
use u_psu.Common.{
  ℕ, zero, suc, ltb, ◌+◌, ◌*◌, Bool, true, false, ◌&&◌, not, Option, none, some, List, [], ◌∷◌,
  ◌==◌, if◌then◌else◌, length, get_or, set, replicate, modify, erase_at, map,
}
use u_psu.Common.Results.{
  Result, ok, err, invalid_argument, logic_error, runtime_error, ◌>>=◌, throw_if, ◌>>◌,
}
use u_psu.BinBundle.{
  FilterOps, FeltCache, BinBundle, ItemLabels, bin_at, no_room, sizes_match, filter_holds,
  is_present, any_present,
}

-- `find(bin.begin(), bin.end(), x)` as a distance; `none` is `bin.end()`.
unfoldable pub find_pos : List ℕ → ℕ → Option ℕ
find_pos [] x = none
find_pos (y ∷ ys) x =
    let rest = find_pos ys x in
    if y == x then some 0 else elim rest [ none ↦ none | some p ↦ some (suc p) ]

-- The items of pairs of items and labels.
abbrev pub items_of : ItemLabels → List ℕ
items_of xs = map (λ (e : ℕ × List ℕ). e.0) xs

-- Writes the parts of a label at place `p` of bin `i`.
unfoldable pub write_parts : List (List (List ℕ)) → List ℕ → ℕ → ℕ → List (List (List ℕ))
write_parts (bins ∷ rest) (l ∷ ls) i p =
    modify bins i (λ bin. set bin p l) ∷ write_parts rest ls i p
write_parts rest ls i p = rest

-- Reads the parts of the label at place `p` of bin `i`, for item `k` of `count`.
unfoldable pub read_parts : ℕ → ℕ → List (List (List ℕ)) → ℕ → ℕ → ℕ → List ℕ → List ℕ
read_parts count k [] part i p out = out
read_parts count k (bins ∷ rest) part i p out =
    read_parts count k rest (part + 1) i p
      (set out (count * part + k) (get_or (get_or bins i []) p 0))

-- Erases one place in each of the bins from `i` on.
unfoldable pub erase_places : List (List ℕ) → List ℕ → ℕ → List (List ℕ)
erase_places bins [] i = bins
erase_places bins (p ∷ ps) i = erase_places (modify bins i (λ bin. erase_at bin p)) ps (i + 1)

unfoldable pub all_empty : List (List ℕ) → Bool
all_empty [] = true
all_empty (bin ∷ bins) = (length bin == 0) && all_empty bins

module _ {F : Type 0} where
  unfoldable pub clear_cache : BinBundle F → BinBundle F
  clear_cache b = record b { cache = record { matching = []; interp = [] }; cache_invalid = true }

  unfoldable pub get_cache : BinBundle F → Result FeltCache
  get_cache b = if b.cache_invalid then err logic_error else ok b.cache

  -- `empty()`
  abbrev pub is_empty : BinBundle F → Bool
  is_empty b = all_empty b.item_bins

  unfoldable pub overwrite_labels : ItemLabels → ℕ → BinBundle F → Result (BinBundle F)
  overwrite_labels [] i b = ok b
  overwrite_labels ((x, l) ∷ xs) i b = elim (find_pos (bin_at b i) x) [
    | none ↦ err runtime_error
    | some p ↦
        overwrite_labels xs (i + 1)
          (record b { label_bins = write_parts b.label_bins l i p; cache_invalid = true })
  ]

  -- The members as the constructor initialises them.
  abbrev pub initial : ℕ → ℕ → ℕ → ℕ → BinBundle F
  initial label_size max_bin_size ps_low_degree num_bins = record {
    cache_invalid = true;
    item_bins = [];
    label_bins = [];
    filters = [];
    stripped = false;
    label_size = label_size;
    max_bin_size = max_bin_size;
    ps_low_degree = ps_low_degree;
    num_bins = num_bins;
    cache = record { matching = []; interp = [] };
  }

module _ {F : Type 0} (ops : FilterOps F) where
  unfoldable pub clear : Bool → BinBundle F → BinBundle F
  unfolding clear_cache
  clear stripped b = clear_cache (record b {
    stripped = stripped;
    item_bins = if stripped then [] else replicate b.num_bins [];
    label_bins = if stripped then [] else replicate b.label_size (replicate b.num_bins []);
    filters = if stripped then [] else replicate b.num_bins (ops.new b.max_bin_size 12);
  })

  -- The constructor; `evaluator` tells that the crypto context has one.
  unfoldable pub new : Bool → ℕ → ℕ → ℕ → ℕ → Bool → Result (BinBundle F)
  unfolding clear
  new evaluator label_size max_bin_size ps_low_degree num_bins stripped =
      throw_if (not evaluator) invalid_argument
      >> throw_if (ltb max_bin_size ps_low_degree) invalid_argument
      >> throw_if (num_bins == 0) invalid_argument
      >> ok (clear stripped (initial label_size max_bin_size ps_low_degree num_bins))

  -- `get_iterator`
  unfoldable pub get_iterator : BinBundle F → ℕ → ℕ → Option ℕ
  get_iterator b i x = if filter_holds ops b.filters i x then find_pos (bin_at b i) x else none

  unfoldable pub all_present : BinBundle F → List ℕ → ℕ → Bool
  unfolding is_present
  all_present b [] i = true
  all_present b (x ∷ xs) i = is_present ops b i x && all_present b xs (i + 1)

  -- The specialisation for items without labels.
  unfoldable pub try_multi_overwrite : List ℕ → ℕ → BinBundle F → Result (Bool × BinBundle F)
  unfolding all_present
  try_multi_overwrite items start b =
      if b.stripped
      then err logic_error
      else (if length items == 0
          then ok (false, b)
          else (if no_room b start (length items)
              then ok (false, b)
              else (if all_present b items start
                  then ok (true, record b { cache_invalid = true })
                  else ok (false, b))))

  -- The specialisation for items with labels.
  unfoldable pub try_multi_overwrite_labeled :
      ItemLabels → ℕ → BinBundle F → Result (Bool × BinBundle F)
  unfolding all_present
  try_multi_overwrite_labeled items start b =
      if b.stripped
      then err logic_error
      else (if length items == 0
          then ok (false, b)
          else (if not (sizes_match b.label_size items)
              then err invalid_argument
              else (if no_room b start (length items)
                  then ok (false, b)
                  else (if all_present b (items_of items) start
                      then (overwrite_labels items start b >>= λ b'. ok (true, b'))
                      else ok (false, b)))))

  -- The places of the items, unless one of them is missing.
  unfoldable pub find_places : BinBundle F → List ℕ → ℕ → Option (List ℕ)
  unfolding get_iterator
  find_places b [] i = some []
  find_places b (x ∷ xs) i =
      let rest = find_places b xs (i + 1) in
      elim (get_iterator b i x) [
        | none ↦ none
        | some p ↦ elim rest [ none ↦ none | some ps ↦ some (p ∷ ps) ]
      ]

  unfoldable pub erase_items : List ℕ → ℕ → BinBundle F → BinBundle F
  erase_items [] i b = b
  erase_items (p ∷ ps) i b = erase_items ps (i + 1) (record b {
    filters = modify b.filters i (λ f. (ops.remove f (get_or (bin_at b i) p 0)).1);
    item_bins = modify b.item_bins i (λ bin. erase_at bin p);
    cache_invalid = true;
  })

  unfoldable pub try_multi_remove : List ℕ → ℕ → BinBundle F → Result (Bool × BinBundle F)
  unfolding erase_items
  try_multi_remove items start b =
      if b.stripped
      then err logic_error
      else (if length items == 0
          then ok (false, b)
          else (if no_room b start (length items)
              then ok (false, b)
              else elim (find_places b items start) [
                | none ↦ ok (false, b)
                | some ps ↦
                    let b' = erase_items ps start b in
                    ok (
                      true,
                      record b' {
                        label_bins = map (λ bins. erase_places bins ps start) b'.label_bins;
                      },
                    )
              ]))

  unfoldable pub collect_labels : BinBundle F → ℕ → List ℕ → ℕ → ℕ → List ℕ → Option (List ℕ)
  unfolding get_iterator
  collect_labels b count [] k i out = some out
  collect_labels b count (x ∷ xs) k i out = elim (get_iterator b i x) [
    | none ↦ none
    | some p ↦ collect_labels b count xs (k + 1) (i + 1) (read_parts count k b.label_bins 0 i p out)
  ]

  -- The result has the vector of labels, `labels` before.
  unfoldable pub try_get_multi_label : List ℕ → ℕ → List ℕ → BinBundle F → Result (Bool × List ℕ)
  unfolding collect_labels
  try_get_multi_label items start labels b =
      if b.stripped
      then err logic_error
      else (if length items == 0
          then ok (false, labels)
          else (if no_room b start (length items)
              then ok (false, labels)
              else elim (collect_labels b (length items) items 0 start
                  (replicate (length items * b.label_size) 0)) [
                    | none ↦ ok (false, [])
                    | some out ↦ ok (true, out)
                  ]))
