-- ===== src/BinBundle/Edit/Cleared.antt =====
-- What is left of a bundle behind BinBundle::clear.
use u_psu.Common.{
  ℕ, zero, suc, ◌≤◌, ltb, ◌==◌, ◌<◌, ◌≡◌, refl, ap, ◌∙◌, true, false, List, [], length, replicate,
  length-replicate, get_or-replicate, get_or-replicate_self, get_elem?-replicate, arith,
}
use u_psu.Common.Results.{ok, err, logic_error}
use u_psu.BinBundle.{FilterOps, BinBundle, filter_holds}
use u_psu.BinBundle.Effect.{IsWellFormed}
use u_psu.BinBundle.Edit.{new, initial, clear, get_cache, is_empty, all_empty}

all_empty-replicate : (n : ℕ) → all_empty (replicate n []) ≡ true
unfolding all_empty
all_empty-replicate zero = refl
all_empty-replicate (suc n) = all_empty-replicate n

-- A bundle that is cleared and not stripped is well-formed, whatever it was before; it is empty,
-- each bin has a fresh filter for `max_bin_size` items with tags of 12 bits, and its cache is
-- stale.
pub clear-IsWellFormed :
    {F : Type 0} (ops : FilterOps F) (b : BinBundle F) (i x : ℕ)
    → i < b.num_bins
    → IsWellFormed (clear ops false b)
      × (is_empty (clear ops false b) ≡ true)
      × (get_cache (clear ops false b) ≡ err logic_error)
      × (filter_holds ops (clear ops false b).filters i x ≡ ops.holds (ops.new b.max_bin_size 12) x)
unfolding clear get_cache
clear-IsWellFormed ops b i x lt = (
  record {
    item_count = length-replicate b.num_bins [];
    filter_count = length-replicate b.num_bins (ops.new b.max_bin_size 12);
    label_count = length-replicate b.label_size (replicate b.num_bins []);
    label_bin_count = λ l lt.
        ap length (get_or-replicate b.label_size l (replicate b.num_bins []) [] lt)
        ∙ length-replicate b.num_bins [];
    parallel = λ l j l_lt.
        rw
          (
            get_or-replicate b.label_size l (replicate {A = List ℕ} b.num_bins []) [] l_lt,
            get_or-replicate_self {A = List ℕ} b.num_bins j [],
          )
          refl;
  },
  all_empty-replicate b.num_bins,
  refl,
  rw (get_elem?-replicate b.num_bins i (ops.new b.max_bin_size 12) lt, filter_holds) refl,
)

-- The constructor of a bundle that is not stripped, with an evaluator, some bins and a
-- `ps_low_degree` within the size of a bin: it ends without an exception, and the bundle is
-- well-formed and empty, with a stale cache.
pub new-IsWellFormed :
    {F : Type 0} (ops : FilterOps F) (label_size max_bin_size ps_low_degree num_bins : ℕ)
    → ps_low_degree ≤ max_bin_size
    → 0 < num_bins
    → (b : BinBundle F) × (new ops true label_size max_bin_size ps_low_degree num_bins false ≡ ok b)
      × IsWellFormed b
      × (is_empty b ≡ true)
      × (get_cache b ≡ err logic_error)
unfolding new
new-IsWellFormed ops label_size max_bin_size ps_low_degree num_bins low pos =
    let degree : ltb max_bin_size ps_low_degree ≡ false = ground arith in
    let bins : (num_bins == 0) ≡ false = ground arith in
    let members = initial label_size max_bin_size ps_low_degree num_bins in
    let (formed, empty, stale, fresh) = clear-IsWellFormed ops members 0 0 pos in
    (clear ops false members, rw (degree, bins) refl, formed, empty, stale)
