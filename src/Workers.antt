-- ===== src/Workers.antt =====
-- The insertion and removal workers of receiver/apsu/receiver_db.cpp, and how the tasks are
-- dispatched. The tasks run one after the other, in the order of their bundle indices. Where an
-- exception ends a task, the model keeps the exception and not the bundles.
pub mod Local
pub mod Schedule
pub mod Room
pub mod Insertion
pub mod Dispatch
pub mod Removal
pub mod Duplicate
use u_psu.Common.{
  ℕ, zero, suc, ◌+◌, ◌-◌, ◌*◌, ◌/◌, ◌%◌, Bool, true, false, ◌&&◌, not, Option, none, some, List, [],
  ◌∷◌, ◌++◌, ltb, ◌==◌, if◌then◌else◌, get_or, set,
}
use u_psu.Common.Results.{Result, ok, err, logic_error, ◌>>=◌, ◌>>◌, throw_if}
use u_psu.BinBundle.{FilterOps, BinBundle, Size, ItemLabels, multi_insert, multi_insert_labeled}
use u_psu.BinBundle.Edit.{
  new, is_empty, try_multi_overwrite, try_multi_overwrite_labeled, try_multi_remove,
}

-- The bin of a cuckoo index and the index of its bundle.
unfoldable pub unpack_cuckoo_idx : ℕ → ℕ → ℕ × ℕ
unpack_cuckoo_idx cuckoo_idx bins_per_bundle =
    let bin_idx : ℕ = cuckoo_idx % bins_per_bundle in
    (bin_idx, (cuckoo_idx - bin_idx) / bins_per_bundle)

-- `multi_insert` and `try_multi_overwrite` for the type of the data.
pub record Overloads (F T : Type 0) : Type 0 where
  pub insert : T → ℕ → Bool → BinBundle F → Result (Size × BinBundle F)
  pub overwrite : T → ℕ → BinBundle F → Result (Bool × BinBundle F)

abbrev pub unlabeled_calls : {F : Type 0} → FilterOps F → Overloads F (List ℕ)
unlabeled_calls ops = record { insert = multi_insert ops; overwrite = try_multi_overwrite ops }

abbrev pub labeled_calls : {F : Type 0} → FilterOps F → Overloads F ItemLabels
labeled_calls ops = record {
  insert = multi_insert_labeled ops;
  overwrite = try_multi_overwrite_labeled ops;
}

-- The arguments of the workers that stay the same.
pub record Layout : Type 0 where
  pub bins_per_bundle : ℕ
  pub label_size : ℕ
  pub max_bin_size : ℕ
  pub ps_low_degree : ℕ

-- `new_largest_bin_size > 0 && new_largest_bin_size < max_bin_size`
abbrev pub within_bound : ℕ → Size → Bool
within_bound max_bin_size none = false
within_bound max_bin_size (some n) = ltb 0 n && ltb n max_bin_size

-- The loop of both workers: what belongs to another bundle index is passed over, and `one` is the
-- body, on the set of bundles.
unfoldable pub for_bundle :
    {F T : Type 0}
    → (T → ℕ → List (BinBundle F) → Result (List (BinBundle F)))
    → ℕ
    → ℕ
    → List (T × ℕ)
    → List (List (BinBundle F))
    → Result (List (List (BinBundle F)))
for_bundle one bins_per_bundle bundle_index [] bin_bundles = ok bin_bundles
for_bundle one bins_per_bundle bundle_index ((d, cuckoo_idx) ∷ rest) bin_bundles =
    let (bin_idx, bundle_idx) = unpack_cuckoo_idx cuckoo_idx bins_per_bundle in
    (if bundle_idx == bundle_index
      then (one d bin_idx (get_or bin_bundles bundle_idx []) >>= λ set'.
          ok (set bin_bundles bundle_idx set'))
      else ok bin_bundles)
    >>= λ bin_bundles'. for_bundle one bins_per_bundle bundle_index rest bin_bundles'

module _ {F T : Type 0} (calls : Overloads F T) where
  -- A dry run, and the insertion if no bin gets too large.
  unfoldable pub try_insert : ℕ → T → ℕ → BinBundle F → Result (Bool × BinBundle F)
  try_insert max_bin_size d bin_idx b = calls.insert d bin_idx true b >>= λ (new_largest, b1).
      if within_bound max_bin_size new_largest
      then (calls.insert d bin_idx false b1 >>= λ (size, b2). ok (true, b2))
      else ok (false, b1)

  -- One bundle, with the result `written`.
  unfoldable pub write_bundle : Bool → ℕ → T → ℕ → BinBundle F → Result (Bool × BinBundle F)
  unfolding try_insert
  write_bundle overwrite max_bin_size d bin_idx b =
      if overwrite
      then (calls.overwrite d bin_idx b >>= λ (written, b1).
          if written then ok (true, b1) else try_insert max_bin_size d bin_idx b1)
      else try_insert max_bin_size d bin_idx b

  -- The bundles of a set from the last one down, until one is written.
  unfoldable pub write_set :
      Bool → ℕ → T → ℕ → List (BinBundle F) → Result (Bool × List (BinBundle F))
  write_set overwrite max_bin_size d bin_idx [] = ok (false, [])
  write_set overwrite max_bin_size d bin_idx (b ∷ bundles) =
      write_set overwrite max_bin_size d bin_idx bundles >>= λ (written, bundles').
      if written
      then ok (true, b ∷ bundles')
      else (write_bundle overwrite max_bin_size d bin_idx b >>= λ (done, b').
          ok (done, b' ∷ bundles'))

module _ {F T : Type 0} (ops : FilterOps F) (calls : Overloads F T) (layout : Layout) where
  -- A new bundle with the data.
  unfoldable pub insert_new : T → ℕ → Result (BinBundle F)
  insert_new d bin_idx =
      new ops true layout.label_size layout.max_bin_size layout.ps_low_degree layout.bins_per_bundle
        false
      >>= λ b. calls.insert d bin_idx false b >>= λ (res, b'). elim res [
        | none ↦ err logic_error
        | some n ↦ ok b'
      ]

  -- The body of the loop of insert_or_assign_worker, on the set of bundles.
  unfoldable pub insert_or_assign_one :
      Bool → T → ℕ → List (BinBundle F) → Result (List (BinBundle F))
  unfolding write_set insert_new
  insert_or_assign_one overwrite d bin_idx bundle_set =
      write_set calls overwrite layout.max_bin_size d bin_idx bundle_set >>= λ (written, set').
      throw_if (overwrite && not written) logic_error
      >> (if written then ok set' else (insert_new d bin_idx >>= λ b. ok (set' ++ b ∷ [])))

  unfoldable pub insert_or_assign_worker :
      Bool → ℕ → List (T × ℕ) → List (List (BinBundle F)) → Result (List (List (BinBundle F)))
  unfolding insert_or_assign_one for_bundle
  insert_or_assign_worker overwrite bundle_index data_with_indices bin_bundles =
      for_bundle (insert_or_assign_one overwrite) layout.bins_per_bundle bundle_index
        data_with_indices bin_bundles

-- The bundle sets without the empty bundles.
unfoldable pub drop_empty : {F : Type 0} → List (BinBundle F) → List (BinBundle F)
drop_empty [] = []
drop_empty (b ∷ bundles) = let rest = drop_empty bundles in if is_empty b then rest else b ∷ rest

module _ {F : Type 0} (ops : FilterOps F) (bins_per_bundle : ℕ) where
  -- The bundles of a set from the first one on, until one loses the data.
  unfoldable pub remove_set : List ℕ → ℕ → List (BinBundle F) → Result (Bool × List (BinBundle F))
  remove_set d bin_idx [] = ok (false, [])
  remove_set d bin_idx (b ∷ bundles) =
      let rest = remove_set d bin_idx bundles in
      try_multi_remove ops d bin_idx b >>= λ (removed, b').
      if removed
      then ok (true, b' ∷ bundles)
      else (rest >>= λ (done, bundles'). ok (done, b' ∷ bundles'))

  -- The body of the loop of remove_worker, on the set of bundles.
  unfoldable pub remove_one : List ℕ → ℕ → List (BinBundle F) → Result (List (BinBundle F))
  unfolding remove_set drop_empty
  remove_one d bin_idx bundle_set = remove_set d bin_idx bundle_set >>= λ (removed, set').
      throw_if (not removed) logic_error >> ok (drop_empty set')

  unfoldable pub remove_worker :
      ℕ → List (List ℕ × ℕ) → List (List (BinBundle F)) → Result (List (List (BinBundle F)))
  unfolding remove_one for_bundle
  remove_worker bundle_index data_with_indices bin_bundles =
      for_bundle remove_one bins_per_bundle bundle_index data_with_indices bin_bundles

-- `bundle_indices_set.insert`, in the order of the set.
unfoldable pub insert_index : ℕ → List ℕ → List ℕ
insert_index i [] = i ∷ []
insert_index i (j ∷ js) =
    let rest = insert_index i js in
    if i == j then j ∷ js else (if ltb i j then i ∷ j ∷ js else j ∷ rest)

unfoldable pub bundle_indices : {T : Type 0} → ℕ → List (T × ℕ) → List ℕ
unfolding insert_index
bundle_indices bins_per_bundle [] = []
bundle_indices bins_per_bundle ((d, cuckoo_idx) ∷ rest) =
    insert_index (unpack_cuckoo_idx cuckoo_idx bins_per_bundle).1
      (bundle_indices bins_per_bundle rest)

-- One task for each of the indices.
unfoldable pub run_tasks : {B : Type 0} → (ℕ → B → Result B) → List ℕ → B → Result B
run_tasks task [] bin_bundles = ok bin_bundles
run_tasks task (i ∷ order) bin_bundles = task i bin_bundles >>= λ bs. run_tasks task order bs

module _ {F T : Type 0} (ops : FilterOps F) (calls : Overloads F T) (layout : Layout) where
  unfoldable pub dispatch_insert_or_assign :
      Bool → List (T × ℕ) → List (List (BinBundle F)) → Result (List (List (BinBundle F)))
  unfolding insert_or_assign_worker bundle_indices run_tasks
  dispatch_insert_or_assign overwrite data_with_indices bin_bundles =
      run_tasks (λ i bs. insert_or_assign_worker ops calls layout overwrite i data_with_indices bs)
        (bundle_indices layout.bins_per_bundle data_with_indices) bin_bundles

module _ {F : Type 0} (ops : FilterOps F) (bins_per_bundle : ℕ) where
  unfoldable pub dispatch_remove :
      List (List ℕ × ℕ) → List (List (BinBundle F)) → Result (List (List (BinBundle F)))
  unfolding remove_worker bundle_indices run_tasks
  dispatch_remove data_with_indices bin_bundles =
      run_tasks (λ i bs. remove_worker ops bins_per_bundle i data_with_indices bs)
        (bundle_indices bins_per_bundle data_with_indices) bin_bundles
