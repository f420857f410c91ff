-- ===== src/ReceiverDb.antt =====
-- The database of receiver/apsu/receiver_db.cpp. The tasks of its thread pools run one after the
-- other, and its lock is not modelled; where an exception ends an operation, the model keeps the
-- exception and not the state. An `unordered_set` is a list without an order that matters.
-- `location` is Kuku's location function, of the table size, the index of the hash function and
-- the item; `compute_hashes` is OPRFSender::ComputeHashes. Saving, loading, moving, get_label and the
-- packing rate are not modelled.
pub mod Prepare
pub mod Locations
pub mod Placed
pub mod Caches
pub mod Insert
pub mod Create
pub mod Strip
use u_psu.Common.{
  ℕ, zero, suc, ◌+◌, ◌-◌, ◌*◌, ◌/◌, ◌^◌, Bool, true, false, ◌&&◌, ◌||◌, not, List, [], ◌∷◌, ◌++◌,
  map, ltb, ◌==◌, if◌then◌else◌, get_elem?, length, replicate, Option, none, some,
}
use u_psu.Common.Sets.{contains}
use u_psu.Common.Results.{
  Result, ok, err, invalid_argument, logic_error, out_of_range, throw_if, ◌>>=◌, ◌>>◌,
}
use u_psu.PsuParams.{PsuParams}
use u_psu.Interpolate.{Modulus}
use u_psu.DbEncoding.{Item}
use u_psu.ReceiverDb.Prepare.{
  has, compute_label_size, preprocess_unlabeled_data, preprocess_labeled_data, change_hashed_item,
  split_new, split_existing,
}
use u_psu.BinBundle.{FilterOps, BinBundle, ItemLabels, FeltCache}
use u_psu.BinBundle.Edit.{get_cache}
use u_psu.BinBundle.Cache.{regen_cache, strip}
use u_psu.Workers.{
  Layout, unlabeled_calls, labeled_calls, dispatch_insert_or_assign, dispatch_remove,
}

abbrev pub max_nonce_byte_count : ℕ
max_nonce_byte_count = 16

-- The database; `K` is the type of the OPRF keys.
pub record ReceiverDb (F K : Type 0) : Type 0 where
  pub params : PsuParams
  pub label_byte_count : ℕ
  pub nonce_byte_count : ℕ
  pub item_count : ℕ
  pub compressed : Bool
  pub stripped : Bool
  pub hashed_items : List Item
  pub bin_bundles : List (List (BinBundle F))
  pub oprf_key : K

-- `bb.regen_cache()` for each of the bundles, or `bb.strip()`.
unfoldable pub each_bundle :
    {F : Type 0}
    → (BinBundle F → Result (BinBundle F))
    → List (BinBundle F)
    → Result (List (BinBundle F))
each_bundle f [] = ok []
each_bundle f (b ∷ bundles) = f b >>= λ b'. each_bundle f bundles >>= λ rest. ok (b' ∷ rest)

unfoldable pub each_set :
    {F : Type 0}
    → (BinBundle F → Result (BinBundle F))
    → List (List (BinBundle F))
    → Result (List (List (BinBundle F)))
unfolding each_bundle
each_set f [] = ok []
each_set f (s ∷ sets) = each_bundle f s >>= λ s'. each_set f sets >>= λ rest. ok (s' ∷ rest)

unfoldable pub collect_caches : {F : Type 0} → List (BinBundle F) → Result (List FeltCache)
collect_caches [] = ok []
collect_caches (b ∷ bundles) = get_cache b >>= λ c. collect_caches bundles >>= λ rest. ok (c ∷ rest)

-- The arguments of dispatch_insert_or_assign, for a label size.
abbrev pub layout_of : PsuParams → ℕ → Layout
layout_of params label_size = record {
  bins_per_bundle = params.bins_per_bundle;
  label_size = label_size;
  max_bin_size = params.table_params.max_items_per_bin;
  ps_low_degree = params.query_params.ps_low_degree;
}

unfoldable pub total_size : {F : Type 0} → List (List (BinBundle F)) → ℕ
total_size [] = 0
total_size (s ∷ sets) = length s + total_size sets

module _ {F : Type 0} (ops : FilterOps F) (m : Modulus) (location : ℕ → ℕ → Item → ℕ) where
  -- The dispatch of some labeled data, if there is any.
  unfoldable pub dispatch_labeled :
      Bool
      → ℕ
      → PsuParams
      → List (Item × List ℕ)
      → List (List (BinBundle F))
      → Result (List (List (BinBundle F)))
  dispatch_labeled overwrite label_size params [] sets = ok sets
  dispatch_labeled overwrite label_size params (x ∷ entries) sets =
      preprocess_labeled_data m location (x ∷ entries) params >>= λ data_with_indices.
      dispatch_insert_or_assign ops (labeled_calls ops) (layout_of params label_size) overwrite
        data_with_indices sets

module _ {F K : Type 0} where
  abbrev pub is_labeled : ReceiverDb F K → Bool
  is_labeled db = not (db.label_byte_count == 0)

  -- `bin_bundles_.at(bundle_idx)`
  abbrev pub bundles_at : ReceiverDb F K → ℕ → Result (List (BinBundle F))
  bundles_at db bundle_idx = elim (get_elem? db.bin_bundles bundle_idx) [
    | none ↦ err out_of_range
    | some s ↦ ok s
  ]

  -- The two overloads of get_bin_bundle_count.
  unfoldable pub get_bin_bundle_count_at : ReceiverDb F K → ℕ → Result ℕ
  get_bin_bundle_count_at db bundle_idx = bundles_at db bundle_idx >>= λ s. ok (length s)

  unfoldable pub get_bin_bundle_count : ReceiverDb F K → ℕ
  unfolding total_size
  get_bin_bundle_count db = total_size db.bin_bundles

  -- `clear`, whose body is `clear_internal`.
  unfoldable pub clear_internal : ReceiverDb F K → ReceiverDb F K
  clear_internal db = record db {
    hashed_items = [];
    item_count = 0;
    bin_bundles = replicate db.params.bundle_idx_count [];
    stripped = false;
  }

  -- The constructor with the given key.
  unfoldable pub receiver_db : PsuParams → K → ℕ → ℕ → Bool → Result (ReceiverDb F K)
  unfolding clear_internal
  receiver_db params oprf_key label_byte_count nonce_byte_count compressed =
      let nonce_bytes : ℕ = if label_byte_count == 0 then 0 else nonce_byte_count in
      throw_if (ltb 1024 label_byte_count) invalid_argument
      >> (throw_if (ltb max_nonce_byte_count nonce_bytes) invalid_argument
          >> ok (
              clear_internal (record {
                params = params;
                label_byte_count = label_byte_count;
                nonce_byte_count = nonce_bytes;
                item_count = 0;
                compressed = compressed;
                stripped = false;
                hashed_items = [];
                bin_bundles = [];
                oprf_key = oprf_key;
              })))

  unfoldable pub get_cache_at : ReceiverDb F K → ℕ → Result (List FeltCache)
  unfolding collect_caches
  get_cache_at db bundle_idx = bundles_at db bundle_idx >>= λ s. collect_caches s

  unfoldable pub get_oprf_key : ReceiverDb F K → Result K
  get_oprf_key db = throw_if db.stripped logic_error >> ok db.oprf_key

  unfoldable pub has_item : ReceiverDb F K → Item → Result Bool
  unfolding change_hashed_item
  has_item db item = throw_if db.stripped logic_error >> (elim (change_hashed_item (item ∷ [])) [
    | [] ↦ ok false
    | hashed ∷ rest ↦ ok (has db.hashed_items hashed)
  ])

  module _ (m : Modulus) where
    unfoldable pub generate_caches : ReceiverDb F K → Result (ReceiverDb F K)
    unfolding each_set
    generate_caches db =
        each_set (regen_cache m) db.bin_bundles >>= λ sets. ok (record db { bin_bundles = sets })

    -- The key and the stripped database; `no_key` is a cleared key.
    unfoldable pub strip_db : K → ReceiverDb F K → Result (K × ReceiverDb F K)
    unfolding each_set
    strip_db no_key db = each_set (strip m) db.bin_bundles >>= λ sets.
        let r : Result (K × ReceiverDb F K) = ok (
          db.oprf_key,
          record db { stripped = true; oprf_key = no_key; hashed_items = []; bin_bundles = sets },
        ) in
        r

  module _ (ops : FilterOps F) (m : Modulus) (location : ℕ → ℕ → Item → ℕ) where
    -- The overload for items without labels.
    unfoldable pub insert_or_assign : List Item → ReceiverDb F K → Result (ReceiverDb F K)
    unfolding change_hashed_item split_new generate_caches
    insert_or_assign entries db =
        let s = split_new (λ x. x) db.hashed_items db.item_count (change_hashed_item entries) in
        throw_if db.stripped logic_error
        >> (throw_if (is_labeled db) logic_error
            >> (preprocess_unlabeled_data m location s.front db.params >>= λ data_with_indices.
                dispatch_insert_or_assign ops (unlabeled_calls ops) (layout_of db.params 0) false
                  data_with_indices db.bin_bundles
                >>= λ sets. generate_caches m (record db {
                  hashed_items = s.items;
                  item_count = s.count;
                  bin_bundles = sets;
                })))

    -- The overload for items with labels, of type `L`. The standard leaves open which values
    -- stand behind the range that `remove_if` keeps; `tail` gives them.
    unfoldable pub insert_or_assign_labeled :
        {L : Type 0}
        → (List (Item × L) → K → ℕ → ℕ → List (Item × List ℕ))
        → (List (Item × List ℕ) → List (Item × List ℕ))
        → List (Item × L)
        → ReceiverDb F K
        → Result (ReceiverDb F K)
    unfolding split_new compute_label_size dispatch_labeled generate_caches
    insert_or_assign_labeled compute_hashes tail entries db =
        let hashed_data =
          compute_hashes entries db.oprf_key db.label_byte_count db.nonce_byte_count in
        let s = split_new (λ (x : Item × List ℕ). x.0) db.hashed_items db.item_count hashed_data in
        let label_size = compute_label_size (db.nonce_byte_count + db.label_byte_count) db.params in
        throw_if db.stripped logic_error
        >> (throw_if (not (is_labeled db)) logic_error
            >> (dispatch_labeled ops m location true label_size db.params (tail hashed_data)
                  db.bin_bundles
                >>= λ sets.
                    dispatch_labeled ops m location false label_size db.params s.front sets
                    >>= λ sets'. generate_caches m (record db {
                      hashed_items = s.items;
                      item_count = s.count;
                      bin_bundles = sets';
                    })))

    -- The values behind the range that `remove_if` keeps, which `tail` gives, are not erased.
    unfoldable pub remove :
        (List Item → List Item) → List Item → ReceiverDb F K → Result (ReceiverDb F K)
    unfolding change_hashed_item split_existing generate_caches
    remove tail entries db =
        let hashed_data = change_hashed_item entries in
        let s = split_existing db.hashed_items db.item_count hashed_data in
        throw_if db.stripped logic_error
        >> (preprocess_unlabeled_data m location (s.front ++ tail hashed_data) db.params
            >>= λ data_with_indices.
                dispatch_remove ops db.params.bins_per_bundle data_with_indices db.bin_bundles
                >>= λ sets. generate_caches m (record db {
                  hashed_items = s.items;
                  item_count = s.count;
                  bin_bundles = sets;
                }))
