-- ===== src/ReceiverDb/Prepare.antt =====
-- The data of a database before it is dispatched, of receiver/apsu/receiver_db.cpp: the locations,
-- the elements, and which items are new.
use u_psu.Common.{
  ℕ, zero, suc, ◌+◌, ◌-◌, ◌*◌, ◌/◌, Bool, false, ◌||◌, List, [], ◌∷◌, ◌++◌, ◌==◌, if◌then◌else◌,
}
use u_psu.Common.Sets.{contains}
use u_psu.Common.Results.{Result, ok, ◌>>=◌}
use u_psu.PsuParams.{PsuParams}
use u_psu.Interpolate.{Modulus}
use u_psu.DbEncoding.{Item, same_item, algebraize_item, algebraize_item_label}
use u_psu.BinBundle.{ItemLabels}

-- `hashed_items_.find(item) != hashed_items_.end()`
abbrev pub has : List Item → Item → Bool
has [] x = false
has (y ∷ items) x = same_item y x || has items x

-- `hashed_items_.erase(item)`
unfoldable pub erase_item : Item → List Item → List Item
erase_item x [] = []
erase_item x (y ∷ items) = let rest = erase_item x items in if same_item y x then rest else y ∷ rest

-- The locations under `count` hash functions from function `i` on, in the order of the functions.
unfoldable pub all_locations : (ℕ → ℕ → Item → ℕ) → ℕ → ℕ → ℕ → Item → List ℕ
all_locations location table_size zero i item = []
all_locations location table_size (suc count) i item =
    let rest = all_locations location table_size count (i + 1) item in
    let here : ℕ = location table_size i item in if contains rest here then rest else here ∷ rest

unfoldable pub compute_label_size : ℕ → PsuParams → ℕ
compute_label_size label_byte_count params =
    (label_byte_count * 8 + params.item_bit_count - 1) / params.item_bit_count

-- The data with the index of the first bin at each location.
unfoldable pub place : {T : Type 0} → T → ℕ → List ℕ → List (T × ℕ)
place d bins_per_item [] = []
place d bins_per_item (l ∷ locations) = (d, l * bins_per_item) ∷ place d bins_per_item locations

module _ (m : Modulus) (location : ℕ → ℕ → Item → ℕ) where
  unfoldable pub preprocess_unlabeled_data : List Item → PsuParams → Result (List (List ℕ × ℕ))
  unfolding place all_locations
  preprocess_unlabeled_data [] params = ok []
  preprocess_unlabeled_data (item ∷ items) params =
      algebraize_item item params.item_bit_count (m.value == 0)
        params.seal_params.plain_modulus_bit_count
      >>= λ alg_item. preprocess_unlabeled_data items params >>= λ rest. ok (
          place alg_item params.item_params.felts_per_item (
            all_locations location params.table_params.table_size
              params.table_params.hash_func_count 0 item)
          ++ rest)

  unfoldable pub preprocess_labeled_data :
      List (Item × List ℕ) → PsuParams → Result (List (ItemLabels × ℕ))
  unfolding place all_locations
  preprocess_labeled_data [] params = ok []
  preprocess_labeled_data ((item, label) ∷ items) params =
      algebraize_item_label item label params.item_bit_count (m.value == 0)
        params.seal_params.plain_modulus_bit_count
      >>= λ alg_item_label. preprocess_labeled_data items params >>= λ rest. ok (
          place alg_item_label params.item_params.felts_per_item (
            all_locations location params.table_params.table_size
              params.table_params.hash_func_count 0 item)
          ++ rest)

-- Each task copies the words of its items.
unfoldable pub change_hashed_item : List Item → List Item
change_hashed_item [] = []
change_hashed_item ((lw, hw) ∷ origin_item) = (lw, hw) ∷ change_hashed_item origin_item

-- What a call of `remove_if` does to the items and their number, and what it moves to the front.
pub record Split (T : Type 0) : Type 0 where
  pub front : List T
  pub items : List Item
  pub count : ℕ

-- The call in insert_or_assign: the items that are not found are inserted and stay.
unfoldable pub split_new : {T : Type 0} → (T → Item) → List Item → ℕ → List T → Split T
split_new key items count [] = record { front = []; items = items; count = count }
split_new key items count (x ∷ entries) =
    let found = has items (key x) in
    let rest =
      split_new key (if found then items else key x ∷ items) (if found then count else count + 1)
        entries in
    if found then rest else record rest { front = x ∷ rest.front }

-- The call in remove: the items that are found are erased and stay.
unfoldable pub split_existing : List Item → ℕ → List Item → Split Item
unfolding erase_item
split_existing items count [] = record { front = []; items = items; count = count }
split_existing items count (x ∷ entries) =
    let found = has items x in
    let rest =
      split_existing (if found then erase_item x items else items)
        (if found then count - 1 else count) entries in
    if found then record rest { front = x ∷ rest.front } else rest
