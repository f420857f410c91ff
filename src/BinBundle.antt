-- ===== src/BinBundle.antt =====
-- BinBundle of receiver/apsu/bin_bundle.h and receiver/apsu/bin_bundle.cpp: the bins of field
-- elements, their labels and filters. The filter is used through its interface. Of the cache the
-- model has the polynomials over field elements; SEAL plaintexts are not modelled.
pub mod Insert
pub mod Effect
pub mod Edit
pub mod Cache
use u_psu.Common.{
  ℕ, zero, suc, ◌+◌, ◌-◌, ◌*◌, ◌^◌, Bool, true, false, ◌&&◌, ◌||◌, not, Option, none, some, List,
  [], ◌∷◌, ◌++◌, ltb, leb, ◌==◌, if◌then◌else◌, length, get_elem?, get_or, set, replicate, modify,
  erase_at,
}
use u_psu.Common.Sets.{contains}
use u_psu.Common.Results.{
  Result, ok, err, Exception, invalid_argument, logic_error, runtime_error, ◌>>=◌, ◌>>◌, throw_if,
}

-- CuckooFilter, as the bundle calls it.
pub record FilterOps (F : Type 0) : Type 0 where
  pub new : ℕ → ℕ → F
  pub holds : F → ℕ → Bool
  pub add : F → ℕ → Bool × F
  pub remove : F → ℕ → Bool × F

-- felt_matching_polyns and felt_interp_polyns
pub record FeltCache : Type 0 where
  pub matching : List (List ℕ)
  pub interp : List (List (List ℕ))

-- `item_bins` is indexed by the bin; `label_bins` by the label part, then the bin.
pub record BinBundle (F : Type 0) : Type 0 where
  pub cache_invalid : Bool
  pub item_bins : List (List ℕ)
  pub label_bins : List (List (List ℕ))
  pub filters : List F
  pub stripped : Bool
  pub label_size : ℕ
  pub max_bin_size : ℕ
  pub ps_low_degree : ℕ
  pub num_bins : ℕ
  pub cache : FeltCache

-- `-1` is `none`.
abbrev pub Size : Type 0
Size = Option ℕ

-- `safe_cast<int32_t>`
unfoldable pub safe_cast32 : ℕ → Result ℕ
safe_cast32 n = if ltb n (2 ^ 31) then ok n else err logic_error

abbrev pub ItemLabels : Type 0
ItemLabels = List (ℕ × List ℕ)

-- The part of the label bins that a new label of one item changes.
unfoldable pub push_labels : List (List (List ℕ)) → List ℕ → ℕ → List (List (List ℕ))
push_labels (bins ∷ rest) (l ∷ ls) i = modify bins i (λ bin. bin ++ l ∷ []) ∷ push_labels rest ls i
push_labels rest ls i = rest

unfoldable pub sizes_match : ℕ → ItemLabels → Bool
sizes_match n [] = true
sizes_match n ((x, l) ∷ xs) = (length l == n) && sizes_match n xs

module _ {F : Type 0} where
  abbrev pub bin_at : BinBundle F → ℕ → List ℕ
  bin_at b i = get_or b.item_bins i []

  -- The test for room at the given location.
  abbrev pub no_room : BinBundle F → ℕ → ℕ → Bool
  no_room b start count = leb b.num_bins start || ltb (b.num_bins - start) count

  abbrev pub running_max : ℕ → BinBundle F → ℕ → ℕ
  running_max m b i = if ltb m (length (bin_at b i) + 1) then length (bin_at b i) + 1 else m

  abbrev pub finish : ℕ × BinBundle F → Result (Size × BinBundle F)
  finish r = safe_cast32 r.0 >>= λ n. ok (some n, r.1)

module _ {F : Type 0} (ops : FilterOps F) where
  -- `filters_[i].contains(x)`; the filters are as many as the bins.
  abbrev pub filter_holds : List F → ℕ → ℕ → Bool
  filter_holds fs i x = elim (get_elem? fs i) [ none ↦ false | some f ↦ ops.holds f x ]

  unfoldable pub is_present : BinBundle F → ℕ → ℕ → Bool
  is_present b i x = filter_holds b.filters i x && contains (bin_at b i) x

  unfoldable pub insert_item : BinBundle F → ℕ → ℕ → BinBundle F
  insert_item b i x = record b {
    item_bins = modify b.item_bins i (λ bin. bin ++ x ∷ []);
    filters = modify b.filters i (λ f. (ops.add f x).1);
    cache_invalid = true;
  }

  unfoldable pub insert_items : List ℕ → ℕ → Bool → ℕ → BinBundle F → ℕ × BinBundle F
  unfolding insert_item
  insert_items [] i dry_run m b = (m, b)
  insert_items (x ∷ xs) i dry_run m b =
      insert_items xs (i + 1) dry_run (running_max m b i) (if dry_run then b else insert_item b i x)

  -- The specialisation for items without labels.
  unfoldable pub multi_insert : List ℕ → ℕ → Bool → BinBundle F → Result (Size × BinBundle F)
  unfolding insert_items safe_cast32
  multi_insert items start dry_run b =
      if b.stripped
      then err logic_error
      else (if length items == 0
          then ok (none, b)
          else (if not (b.label_size == 0)
              then err logic_error
              else (if no_room b start (length items)
                  then ok (none, b)
                  else finish (insert_items items start dry_run 0 b))))

  unfoldable pub insert_item_labels : ItemLabels → ℕ → Bool → ℕ → BinBundle F → ℕ × BinBundle F
  unfolding insert_item push_labels
  insert_item_labels [] i dry_run m b = (m, b)
  insert_item_labels ((x, l) ∷ xs) i dry_run m b =
      let b' = insert_item b i x in
      insert_item_labels xs (i + 1) dry_run (running_max m b i)
        (if dry_run then b else record b' { label_bins = push_labels b'.label_bins l i })

  -- Some item is in its bin already.
  unfoldable pub any_present : BinBundle F → ItemLabels → ℕ → Bool
  unfolding is_present
  any_present b [] i = false
  any_present b ((x, l) ∷ xs) i = is_present b i x || any_present b xs (i + 1)

  -- The specialisation for items with labels.
  unfoldable pub multi_insert_labeled :
      ItemLabels → ℕ → Bool → BinBundle F → Result (Size × BinBundle F)
  unfolding insert_item_labels sizes_match any_present safe_cast32
  multi_insert_labeled items start dry_run b =
      if b.stripped
      then err logic_error
      else (if length items == 0
          then ok (none, b)
          else (if b.label_size == 0
              then err logic_error
              else (if not (sizes_match b.label_size items)
                  then err invalid_argument
                  else (if no_room b start (length items)
                      then ok (none, b)
                      else (if any_present b items start
                          then ok (none, b)
                          else finish (insert_item_labels items start dry_run 0 b))))))
