-- ===== src/Tests/ReceiverDb.antt =====
-- A database of two bundle indices with two items each.
use native.Mathlib.Nat.{mod-lt}
use u_psu.Common.{
  ℕ, zero, suc, ◌+◌, ◌-◌, ◌*◌, ◌%◌, ◌^◌, ◌≡◌, ◌≤◌, ◌↔◌, ◌⊎◌, ◌||◌, refl, true, false, List, [], ◌∷◌,
  arith, get_or,
}
use u_psu.Common.Results.{ok, err, logic_error, ◌>>=◌}
use u_psu.PsuParams.{PsuParams, initialize}
use u_psu.Interpolate.{Modulus}
use u_psu.DbEncoding.{Item, algebraize_item, write_u64_little_endian}
use u_psu.Workers.{unpack_cuckoo_idx, dispatch_remove}
use u_psu.Workers.Dispatch.{AllSets}
use u_psu.ReceiverDb.{
  ReceiverDb, layout_of, receiver_db, has_item, get_oprf_key, strip_db, insert_or_assign,
  insert_or_assign_labeled, remove,
}
use u_psu.ReceiverDb.Prepare.{has, preprocess_unlabeled_data}
use u_psu.ReceiverDb.Locations.{IsSetup}
use u_psu.ReceiverDb.Caches.{AllValid}
use u_psu.ReceiverDb.Insert.{IsDatabase, insert_or_assign_lem}
use u_psu.ReceiverDb.Create.{receiver_db-IsDatabase, receiver_db_iff}
use u_psu.ReceiverDb.Strip.{strip_db_lem}
use u_psu.Tests.BinBundle.{ops}

-- A prime of 41 bits.
abbrev prime : ℕ
prime = 1099511627791

abbrev modulus : Modulus
modulus = record {
  value = prime;
  is_prime = true;
  add = λ a b. (a + b) % prime;
  subtract = λ a b. (a + (prime - b)) % prime;
  exponentiate = λ a n. a ^ n % prime;
  negate = λ a. (prime - a) % prime;
  multiply = λ a b. a * b % prime;
  multiply_add = λ a b c. (a * b + c) % prime;
}

abbrev location : ℕ → ℕ → Item → ℕ
location n i item = (item.0 + i) % n

abbrev params : PsuParams
params = record {
  item_params = record { felts_per_item = 2 };
  table_params = record { table_size = 4; max_items_per_bin = 3; hash_func_count = 2 };
  query_params = record { ps_low_degree = 0; query_powers = 1 ∷ [] };
  seal_params = record {
    parameters_set = true;
    using_batching = true;
    plain_modulus_bit_count = 41;
    poly_modulus_degree = 4;
  };
  items_per_bundle = 2;
  bins_per_bundle = 4;
  bundle_idx_count = 2;
  item_bit_count = 80;
  item_bit_count_per_felt = 40;
}

setup : IsSetup modulus location params
unfolding initialize
setup = record {
  laws = record {
    negate_lem = λ a lt. omega arith;
    multiply_lem = λ a b. refl;
    multiply_add_lem = λ a b c. refl;
  };
  large = omega arith;
  locates = λ n i item pos. mod-lt (item.0 + i) pos;
  item_params = params.item_params;
  table_params = params.table_params;
  query_params = params.query_params;
  seal_params = params.seal_params;
  built = refl;
  bit_count = (omega arith, omega arith);
  some_room = omega arith;
  small = omega arith;
}

abbrev empty_db : ReceiverDb (List ℕ) ℕ
empty_db = record {
  params = params;
  label_byte_count = 0;
  nonce_byte_count = 0;
  item_count = 0;
  compressed = true;
  stripped = false;
  hashed_items = [];
  bin_bundles = [] ∷ [] ∷ [];
  oprf_key = 9;
}

empty_db-IsDatabase : IsDatabase modulus location empty_db
empty_db-IsDatabase = record {
  setup = setup;
  unlabeled = refl;
  open_ = refl;
  sets = none_yet;
  size = refl;
  counted = refl;
  held = λ x d l h. cc h;
}
  where
    none_yet : AllSets {F = List ℕ} (layout_of params 0) ([] ∷ [] ∷ [])
    none_yet zero = tt
    none_yet (suc zero) = tt
    none_yet (suc (suc j)) = tt

receiver_db-IsDatabase_example :
    (db : ReceiverDb (List ℕ) ℕ) × (receiver_db params 9 0 5 true ≡ ok db)
    × IsDatabase modulus location db
    × ((x : Item) → has_item db x ≡ ok false)
receiver_db-IsDatabase_example = receiver_db-IsDatabase modulus location params 9 5 true setup

abbrev entries : List Item
entries = (5, 6) ∷ (6, 7) ∷ (5, 6) ∷ []

insert_or_assign_lem_example :
    (db' : ReceiverDb (List ℕ) ℕ) × (insert_or_assign ops modulus location entries empty_db
      ≡ ok db')
    × IsDatabase modulus location db'
    × ((j : ℕ) → AllValid (get_or db'.bin_bundles j []))
    × ((x : Item) → has_item db' x ≡ (has_item empty_db x >>= λ old. ok (old || has entries x)))
insert_or_assign_lem_example =
    insert_or_assign_lem ops modulus location entries empty_db empty_db-IsDatabase

receiver_db_iff_example :
    ((1025 ≤ 1024) × ((◌≡◌ {A = ℕ} 1025 0) ⊎ (16 ≤ 16)))
    ↔ ((db : ReceiverDb (List ℕ) ℕ) × (receiver_db params 9 1025 16 true ≡ ok db))
receiver_db_iff_example = receiver_db_iff (List ℕ) params 9 1025 16 true

abbrev stripped_db : ReceiverDb (List ℕ) ℕ
stripped_db = record empty_db { stripped = true; oprf_key = 0 }

strip_run : strip_db modulus 0 empty_db ≡ ok (9, stripped_db)
unfolding strip_db
strip_run = refl

strip_db_lem_example :
    (◌≡◌ {A = ℕ} 9 9)
    × (◌≡◌ {A = ℕ} 0 0)
    × (get_oprf_key stripped_db ≡ err logic_error)
    × (has_item stripped_db (5, 6) ≡ err logic_error)
    × (insert_or_assign ops modulus location entries stripped_db ≡ err logic_error)
    × (insert_or_assign_labeled ops modulus location {L = ℕ}
          (λ hashed k l n. [])
          (λ xs. xs)
          (((5, 6), 7) ∷ [])
          stripped_db
        ≡ err logic_error)
    × (remove ops modulus location (λ xs. []) entries stripped_db ≡ err logic_error)
strip_db_lem_example =
    strip_db_lem ops modulus location 0 9 empty_db stripped_db entries (5, 6) (λ xs. [])
      (λ hashed k l n. []) (λ xs. xs) (((5, 6), 7) ∷ []) strip_run

-- A missing item is not ignored: it stays behind the range that `remove_if` keeps.
remove_missing : remove ops modulus location (λ xs. xs) ((5, 6) ∷ []) empty_db ≡ err logic_error
unfolding remove preprocess_unlabeled_data algebraize_item write_u64_little_endian dispatch_remove
    unpack_cuckoo_idx
remove_missing = refl
