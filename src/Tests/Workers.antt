-- ===== src/Tests/Workers.antt =====
-- Two bundle indices of two bins each.
use u_psu.Common.{
  ◌+◌, ℕ, zero, suc, ◌%◌, ◌≡◌, ◌<◌, refl, ◌⊎◌, inl, true, false, List, [], ◌∷◌, arith, length,
  get_or,
}
use mathlib.Core.List.{Permᴰ}
use u_psu.Common.Results.{ok, err, logic_error}
use u_psu.Interpolate.{polyn_with_roots}
use u_psu.Interpolate.Roots.{value_at}
use u_psu.BinBundle.{
  BinBundle, FeltCache, bin_at, sizes_match, any_present, multi_insert, multi_insert_labeled,
}
use u_psu.BinBundle.Edit.{
  new, get_cache, try_multi_overwrite_labeled, try_multi_remove, find_places, find_pos, all_empty,
}
use u_psu.BinBundle.Effect.{IsWellFormed}
use u_psu.BinBundle.Cache.{regen_cache}
use u_psu.BinBundle.Cache.Polynomials.{regen_cache-get_cache}
use u_psu.Workers.{
  Layout, write_bundle, unpack_cuckoo_idx, unlabeled_calls, labeled_calls, insert_or_assign_one,
  insert_or_assign_worker, bundle_indices, run_tasks, dispatch_insert_or_assign, drop_empty,
  remove_one, remove_worker, dispatch_remove,
}
use u_psu.Workers.Room.{Grows, HoldsAll, IsBundle}
use u_psu.Workers.Insertion.{AllBundles}
use u_psu.Workers.Dispatch.{AllSets, IsHeldAt, dispatch_insert_or_assign_lem}
use u_psu.Workers.Schedule.{dispatch_insert_or_assign-run_tasks, dispatch_remove-run_tasks}
use u_psu.Workers.Duplicate.{insert_or_assign_one-duplicate}
use u_psu.Workers.Removal.{NoneEmpty, IsRemovedFrom, AllMissing, remove_one_lem}
use u_psu.Tests.BinBundle.{ops, bundle, labeled}
use u_psu.Tests.Interpolate.{seven, seven-IsModulus}

abbrev layout : Layout
layout = record { bins_per_bundle = 2; label_size = 0; max_bin_size = 3; ps_low_degree = 0 }

abbrev items : List (List ℕ × ℕ)
items = (4 ∷ 5 ∷ [], 2) ∷ (6 ∷ 7 ∷ [], 0) ∷ []

abbrev two_sets : List (List (BinBundle (List ℕ)))
two_sets = [] ∷ [] ∷ []

two_sets-AllSets : AllSets layout two_sets
two_sets-AllSets zero = tt
two_sets-AllSets (suc zero) = tt
two_sets-AllSets (suc (suc j)) = tt

dispatch_insert_or_assign_lem_example :
    (bs' : List (List (BinBundle (List ℕ)))) × (dispatch_insert_or_assign ops
        (unlabeled_calls ops)
        layout
        false
        items
        two_sets
      ≡ ok bs')
    × AllSets layout bs'
    × (length bs' ≡ 2)
    × IsHeldAt 2 bs' (4 ∷ 5 ∷ []) 2
unfolding unpack_cuckoo_idx
dispatch_insert_or_assign_lem_example =
    dispatch_insert_or_assign_lem ops layout items two_sets 0 (4 ∷ 5 ∷ []) 2
      (record {
        no_labels = refl;
        some_room = omega arith;
        small = omega arith;
        low_degree = omega arith;
        some_bins = omega arith;
      })
      two_sets-AllSets
      (omega arith, omega arith, omega arith, (omega arith, omega arith, omega arith, tt))
      (inl refl)

abbrev one_bundle : List ℕ → List ℕ → BinBundle (List ℕ)
one_bundle b c = record bundle {
  cache_invalid = true;
  item_bins = b ∷ c ∷ [];
  filters = b ∷ c ∷ [];
  max_bin_size = 3;
  num_bins = 2;
}

abbrev filled : List (List (BinBundle (List ℕ)))
filled = (one_bundle (6 ∷ []) (7 ∷ []) ∷ []) ∷ (one_bundle (4 ∷ []) (5 ∷ []) ∷ []) ∷ []

inserted :
    dispatch_insert_or_assign ops (unlabeled_calls ops) layout false items two_sets ≡ ok filled
unfolding dispatch_insert_or_assign unpack_cuckoo_idx new multi_insert
inserted = refl

dispatch_insert_or_assign-run_tasks_example :
    run_tasks
      (λ i bs. insert_or_assign_worker ops (unlabeled_calls ops) layout false i items bs)
      (1 ∷ 0 ∷ [])
      two_sets
    ≡ ok filled
unfolding bundle_indices unpack_cuckoo_idx
dispatch_insert_or_assign-run_tasks_example =
    dispatch_insert_or_assign-run_tasks ops (unlabeled_calls ops) layout false items two_sets filled
      (1 ∷ 0 ∷ []) (omega arith, (omega arith, tt)) (Permᴰ.swap refl refl) inserted

removed : dispatch_remove ops 2 items filled ≡ ok two_sets
unfolding dispatch_remove unpack_cuckoo_idx try_multi_remove find_places find_pos all_empty
removed = refl

dispatch_remove-run_tasks_example :
    run_tasks (λ i bs. remove_worker ops 2 i items bs) (1 ∷ 0 ∷ []) filled ≡ ok two_sets
unfolding bundle_indices unpack_cuckoo_idx
dispatch_remove-run_tasks_example =
    dispatch_remove-run_tasks ops 2 items filled two_sets (1 ∷ 0 ∷ [])
      (omega arith, (omega arith, tt)) (Permᴰ.swap refl refl) removed

-- The first bundle holds 7 with the label 1; the last one has room.
abbrev other : BinBundle (List ℕ)
other = record labeled { item_bins = (8 ∷ []) ∷ [] ∷ [] ∷ []; filters = (8 ∷ []) ∷ [] ∷ [] ∷ [] }

abbrev labeled_layout : Layout
labeled_layout = record { bins_per_bundle = 3; label_size = 1; max_bin_size = 3; ps_low_degree = 0 }

abbrev other_written : BinBundle (List ℕ)
other_written = record labeled {
  cache_invalid = true;
  item_bins = (8 ∷ 7 ∷ []) ∷ [] ∷ [] ∷ [];
  label_bins = ((1 ∷ 2 ∷ []) ∷ [] ∷ [] ∷ []) ∷ [];
  filters = (7 ∷ 8 ∷ []) ∷ [] ∷ [] ∷ [];
}

inserted_twice :
    insert_or_assign_one ops
      (labeled_calls ops)
      labeled_layout
      true
      ((7, 2 ∷ []) ∷ [])
      0
      (labeled ∷ other ∷ [])
    ≡ ok (labeled ∷ other_written ∷ [])
unfolding insert_or_assign_one multi_insert_labeled try_multi_overwrite_labeled write_bundle
inserted_twice = refl

other-IsWellFormed : IsWellFormed other
other-IsWellFormed = record {
  item_count = refl;
  filter_count = refl;
  label_count = refl;
  label_bin_count = one_part;
  parallel = as_long;
}
  where
    one_part : (l : ℕ) → l < 1 → length (get_or other.label_bins l []) ≡ 3
    one_part zero lt = refl
    one_part (suc l) lt = absurd (omega arith)

    as_long :
        (l i : ℕ)
        → l < 1
        → length (get_or (get_or other.label_bins l []) i []) ≡ length (bin_at other i)
    as_long zero zero lt = refl
    as_long zero (suc zero) lt = refl
    as_long zero (suc (suc zero)) lt = refl
    as_long zero (suc (suc (suc i))) lt = refl
    as_long (suc l) i lt = absurd (omega arith)

other_room : (j : ℕ) → length (bin_at other j) + 1 < 3
other_room zero = omega arith
other_room (suc zero) = omega arith
other_room (suc (suc zero)) = omega arith
other_room (suc (suc (suc j))) = omega arith

insert_or_assign_one-duplicate_example :
    (last' : BinBundle (List ℕ)) × (insert_or_assign_one ops
        (labeled_calls ops)
        labeled_layout
        true
        ((7, 2 ∷ []) ∷ [])
        0
        (labeled ∷ other ∷ [])
      ≡ ok (labeled ∷ last' ∷ []))
    × HoldsAll last' (7 ∷ []) 0
    × Grows other last'
unfolding any_present sizes_match
insert_or_assign_one-duplicate_example =
    insert_or_assign_one-duplicate ops labeled_layout ((7, 2 ∷ []) ∷ []) 0 (labeled ∷ []) other
      other-IsWellFormed refl (omega arith) (omega arith) refl (omega arith) refl other_room
      (omega arith)

abbrev held_bundle : BinBundle (List ℕ)
held_bundle = one_bundle (6 ∷ []) (7 ∷ [])

held_bundle-IsBundle : IsBundle layout held_bundle
held_bundle-IsBundle = record {
  formed = record {
    item_count = refl;
    filter_count = refl;
    label_count = refl;
    label_bin_count = λ l lt. absurd (omega arith);
    parallel = λ l i lt. absurd (omega arith);
  };
  open_ = refl;
  label_size = refl;
  num_bins = refl;
  bound = few;
}
  where
    few : (i : ℕ) → length (bin_at held_bundle i) < 3
    few zero = omega arith
    few (suc zero) = omega arith
    few (suc (suc i)) = omega arith

remove_one_lem_example :
    ((remove_one ops 2 (6 ∷ 7 ∷ []) 0 (held_bundle ∷ []) ≡ err logic_error)
      × AllMissing ops layout (6 ∷ 7 ∷ []) 0 (held_bundle ∷ []))
    ⊎ ((s' : List (BinBundle (List ℕ))) × IsRemovedFrom ops layout
          (6 ∷ 7 ∷ [])
          0
          (held_bundle ∷ [])
          s'
        × (remove_one ops 2 (6 ∷ 7 ∷ []) 0 (held_bundle ∷ []) ≡ ok (drop_empty s'))
        × AllBundles layout (drop_empty s')
        × NoneEmpty (drop_empty s'))
remove_one_lem_example =
    remove_one_lem ops layout (6 ∷ 7 ∷ []) 0 (omega arith) (omega arith) (held_bundle ∷ [])
      (held_bundle-IsBundle, tt)

regen_cache-get_cache_example :
    (b' : BinBundle (List ℕ)) × (c : FeltCache) × (regen_cache seven held_bundle ≡ ok b')
    × (get_cache b' ≡ ok c)
    × (length c.matching ≡ 2)
    × (polyn_with_roots seven (6 ∷ []) ≡ ok (get_or c.matching 0 []))
    × (value_at (get_or c.matching 0 []) 6 % 7 ≡ 0)
regen_cache-get_cache_example =
    regen_cache-get_cache seven held_bundle 0 6 seven-IsModulus (omega arith) refl refl
      (omega arith) refl (omega arith)
