-- ===== src/Tests/Edit.antt =====
-- The bundle of three bins, with items overwritten, removed and cleared.
use u_psu.Common.{
  ℕ, zero, suc, ◌+◌, ◌*◌, ◌≡◌, ◌<◌, refl, true, false, List, [], ◌∷◌, arith, length, get_or, ◌⊎◌,
}
use u_psu.Common.Results.{ok, err, logic_error}
use u_psu.BinBundle.{BinBundle, bin_at, filter_holds, sizes_match}
use u_psu.BinBundle.Effect.{IsWellFormed}
use u_psu.BinBundle.Edit.{
  new, find_places, find_pos, erase_places, clear, get_cache, is_empty, all_present,
  try_multi_overwrite, try_multi_overwrite_labeled, try_multi_remove, try_get_multi_label,
}
use u_psu.BinBundle.Edit.Cleared.{clear-IsWellFormed, new-IsWellFormed}
use u_psu.BinBundle.Edit.Removed.{IsRemoved, IsMissing, try_multi_remove_lem}
use u_psu.BinBundle.Edit.Labels.{try_get_multi_label-try_multi_overwrite_labeled}
use u_psu.Tests.BinBundle.{ops, bundle, labeled}

labeled-IsWellFormed : IsWellFormed labeled
labeled-IsWellFormed = record {
  item_count = refl;
  filter_count = refl;
  label_count = refl;
  label_bin_count = one_part;
  parallel = λ l i lt. alike l lt i;
}
  where
    one_part : (l : ℕ) → l < 1 → length (get_or labeled.label_bins l []) ≡ 3
    one_part zero lt = refl
    one_part (suc l) lt = absurd (omega arith)

    alike :
        (l : ℕ)
        → l < 1
        → (i : ℕ)
        → length (get_or (get_or labeled.label_bins l []) i []) ≡ length (bin_at labeled i)
    alike zero lt zero = refl
    alike zero lt (suc zero) = refl
    alike zero lt (suc (suc zero)) = refl
    alike zero lt (suc (suc (suc i))) = refl
    alike (suc l) lt i = absurd (omega arith)

clear-IsWellFormed_example :
    IsWellFormed (clear ops false labeled)
    × (is_empty (clear ops false labeled) ≡ true)
    × (get_cache (clear ops false labeled) ≡ err logic_error)
    × (filter_holds ops (clear ops false labeled).filters 0 7 ≡ false)
clear-IsWellFormed_example = clear-IsWellFormed ops labeled 0 7 (omega arith)

try_multi_remove_lem_example :
    ((try_multi_remove ops (7 ∷ []) 0 labeled ≡ ok (false, labeled))
      × IsMissing ops (7 ∷ []) 0 labeled)
    ⊎ ((b : BinBundle (List ℕ)) × (try_multi_remove ops (7 ∷ []) 0 labeled ≡ ok (true, b))
        × IsRemoved (7 ∷ []) 0 labeled b
        × IsWellFormed b)
try_multi_remove_lem_example =
    try_multi_remove_lem ops (7 ∷ []) 0 labeled labeled-IsWellFormed refl (omega arith)
      (omega arith)

removal :
    try_multi_remove ops (7 ∷ []) 0 labeled
    ≡ ok (
      true,
      record labeled {
        cache_invalid = true;
        item_bins = [] ∷ [] ∷ [] ∷ [];
        label_bins = ([] ∷ [] ∷ [] ∷ []) ∷ [];
        filters = [] ∷ [] ∷ [] ∷ [];
      },
    )
unfolding try_multi_remove find_places find_pos erase_places
removal = refl

try_get_multi_label-try_multi_overwrite_labeled_example :
    (b : BinBundle (List ℕ)) × (out : List ℕ) × (try_multi_overwrite_labeled ops
        ((7, 5 ∷ []) ∷ [])
        0
        labeled
      ≡ ok (true, b))
    × IsWellFormed b
    × (try_get_multi_label ops (7 ∷ []) 0 [] b ≡ ok (true, out))
    × (get_or out (1 * 0 + 0) 0 ≡ 5)
unfolding all_present sizes_match
try_get_multi_label-try_multi_overwrite_labeled_example =
    try_get_multi_label-try_multi_overwrite_labeled ops ((7, 5 ∷ []) ∷ []) 0 [] labeled 0 7 0
      (5 ∷ []) labeled-IsWellFormed refl (omega arith) (omega arith) refl refl refl (omega arith)

no_such_item : try_multi_overwrite ops (7 ∷ 8 ∷ []) 0 bundle ≡ ok (false, bundle)
unfolding try_multi_overwrite
no_such_item = refl

new-IsWellFormed_example :
    (b : BinBundle (List ℕ)) × (new ops true 1 2 0 3 false ≡ ok b)
    × IsWellFormed b
    × (is_empty b ≡ true)
    × (get_cache b ≡ err logic_error)
new-IsWellFormed_example = new-IsWellFormed ops 1 2 0 3 (omega arith) (omega arith)
