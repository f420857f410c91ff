-- ===== src/Tests/BinBundle.antt =====
-- A bundle of three bins whose filters are lists.
use u_psu.Common.{
  if◌then◌else◌, ℕ, zero, suc, ◌+◌, ◌^◌, ◌≡◌, ◌<◌, refl, true, false, some, List, [], ◌∷◌, arith,
  Bool, length, ◌==◌, none,
}
use u_psu.Common.Sets.{contains}
use u_psu.Common.Results.{ok}
use u_psu.BinBundle.{FilterOps, BinBundle, bin_at, multi_insert, multi_insert_labeled}
use u_psu.BinBundle.Effect.{IsInserted, IsLargest, IsWellFormed, multi_insert_lem}
use u_psu.BinBundle.Insert.{keep, multi_insert-dry_run, multi_insert_labeled-dry_run}

abbrev pub remove_first : List ℕ → ℕ → Bool × List ℕ
remove_first [] x = (false, [])
remove_first (y ∷ ys) x =
    let rest = remove_first ys x in if x == y then (true, ys) else (rest.0, y ∷ rest.1)

abbrev pub ops : FilterOps (List ℕ)
ops = record {
  new = λ size tag. [];
  holds = contains;
  add = λ f x. (true, x ∷ f);
  remove = remove_first;
}

abbrev pub bundle : BinBundle (List ℕ)
bundle = record {
  cache_invalid = false;
  item_bins = (7 ∷ []) ∷ [] ∷ [] ∷ [];
  label_bins = [];
  filters = (7 ∷ []) ∷ [] ∷ [] ∷ [];
  stripped = false;
  label_size = 0;
  max_bin_size = 2;
  ps_low_degree = 0;
  num_bins = 3;
  cache = record { matching = []; interp = [] };
}

abbrev pub labeled : BinBundle (List ℕ)
labeled = record bundle { label_bins = ((1 ∷ []) ∷ [] ∷ [] ∷ []) ∷ []; label_size = 1 }

labeled_run :
    multi_insert_labeled ops ((8, 2 ∷ []) ∷ (9, 3 ∷ []) ∷ []) 0 false labeled
    ≡ ok (
      some 2,
      record labeled {
        cache_invalid = true;
        item_bins = (7 ∷ 8 ∷ []) ∷ (9 ∷ []) ∷ [] ∷ [];
        label_bins = ((1 ∷ 2 ∷ []) ∷ (3 ∷ []) ∷ [] ∷ []) ∷ [];
        filters = (8 ∷ 7 ∷ []) ∷ (9 ∷ []) ∷ [] ∷ [];
      },
    )
unfolding multi_insert_labeled
labeled_run = refl

labeled_present : multi_insert_labeled ops ((7, 2 ∷ []) ∷ []) 0 false labeled ≡ ok (none, labeled)
unfolding multi_insert_labeled
labeled_present = refl

multi_insert-dry_run_example :
    multi_insert ops (8 ∷ 9 ∷ []) 0 true bundle
    ≡ keep bundle (multi_insert ops (8 ∷ 9 ∷ []) 0 false bundle)
multi_insert-dry_run_example = multi_insert-dry_run ops (8 ∷ 9 ∷ []) 0 bundle

multi_insert_labeled-dry_run_example :
    multi_insert_labeled ops ((8, 2 ∷ []) ∷ []) 1 true labeled
    ≡ keep labeled (multi_insert_labeled ops ((8, 2 ∷ []) ∷ []) 1 false labeled)
multi_insert_labeled-dry_run_example = multi_insert_labeled-dry_run ops ((8, 2 ∷ []) ∷ []) 1 labeled

bundle-IsWellFormed : IsWellFormed bundle
bundle-IsWellFormed = record {
  item_count = refl;
  filter_count = refl;
  label_count = refl;
  label_bin_count = λ l lt. absurd (omega (arith, lt));
  parallel = λ l i lt. absurd (omega (arith, lt));
}

small : (j : ℕ) → length (bin_at bundle j) + 1 < 2 ^ 31
small zero = omega arith
small (suc zero) = omega arith
small (suc (suc zero)) = omega arith
small (suc (suc (suc j))) = omega arith

multi_insert_lem_example :
    (n : ℕ) × (b : BinBundle (List ℕ)) × (multi_insert ops (8 ∷ 9 ∷ []) 0 false bundle
      ≡ ok (some n, b))
    × IsInserted (8 ∷ 9 ∷ []) 0 bundle b
    × IsLargest (8 ∷ 9 ∷ []) 0 bundle b n
    × IsWellFormed b
multi_insert_lem_example =
    multi_insert_lem ops (8 ∷ 9 ∷ []) 0 bundle bundle-IsWellFormed refl refl (omega arith)
      (omega arith) small
