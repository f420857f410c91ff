-- ===== src/Tests/Query.antt =====
-- The powers set and a query for it.
use u_psu.Common.{
  ℕ, zero, suc, ◌-◌, ◌^◌, ◌≡◌, refl, true, false, none, some, List, [], ◌∷◌, arith, Bool, ◌↔◌, ◌⊎◌,
  false,
}
use u_psu.Common.Sets.{contains, IsAscending, FitsIn32}
use u_psu.Common.Results.{ok, err, Exception, logic_error}
use u_psu.Powers.{PowersDag, configure}
use u_psu.Powers.Validity.{HasParents, IsValid}
use u_psu.PowersSet.{create_powers_set}
use u_psu.PowersSet.Members.{IsPower, create_powers_set_lem}
use u_psu.PowersSet.Endless.{create_powers_set_endless}
use u_psu.PsuParams.{PsuParams, ItemParams, TableParams, QueryParams, SealParams, initialize}
use u_psu.PsuParams.Valid.{IsAllowed, IsQueryPower}
use u_psu.PsuParams.Init.{IsInitialized, initialize_iff}
use u_psu.Query.{
  Seal, empty, local_object, serializable, extract_object, Query, QueryRequest, new, fresh_dag,
}
use u_psu.Query.Extract.{KeysFail, EntriesFail}
use u_psu.Query.Dag.{query_dag-HasParents}
use u_psu.Query.Valid.{IsReady, IsServable, new-IsServable}

set_of_nine : create_powers_set 20 2 9 ≡ some (ok (1 ∷ 2 ∷ 3 ∷ 6 ∷ 9 ∷ []))
unfolding create_powers_set
set_of_nine = refl

create_powers_set_lem_example :
    (s : List ℕ) × (create_powers_set 20 2 9 ≡ some (ok s))
    × IsAscending s
    × FitsIn32 s
    × ((x : ℕ) → (contains s x ≡ true) ↔ IsPower 2 9 x)
create_powers_set_lem_example =
    create_powers_set_lem 20 2 9 (omega arith) (omega arith) (omega arith) (omega arith)

abbrev powers : List ℕ
powers = 1 ∷ 3 ∷ []

powers_within : (p : ℕ) → contains powers p ≡ true → IsQueryPower 2 9 p
powers_within p m = ground arith

query_dag-HasParents_example :
    (targets : List ℕ) × (d : PowersDag) × (create_powers_set 11 2 9 ≡ some (ok targets))
    × (configure fresh_dag powers targets ≡ some (d, true))
    × (d.targets ≡ targets)
    × ((x : ℕ) → (contains targets x ≡ true) ↔ IsPower 2 9 x)
    × IsValid powers targets d.nodes
    × ((q : ℕ)
        → contains targets q ≡ true
        → contains powers q ≡ false
        → HasParents targets d.nodes q)
query_dag-HasParents_example =
    query_dag-HasParents fresh_dag 2 9 powers (omega arith) (omega arith) (omega arith)
      (omega arith) refl refl powers_within refl

abbrev item_params : ItemParams
item_params = record { felts_per_item = 5 }

abbrev table_params : TableParams
table_params = record { table_size = 409; max_items_per_bin = 9; hash_func_count = 3 }

abbrev query_params : QueryParams
query_params = record { ps_low_degree = 2; query_powers = powers }

abbrev seal_params : SealParams
seal_params = record {
  parameters_set = true;
  using_batching = true;
  plain_modulus_bit_count = 22;
  poly_modulus_degree = 2048;
}

abbrev params : PsuParams
params = record {
  item_params = item_params;
  table_params = table_params;
  query_params = query_params;
  seal_params = seal_params;
  items_per_bundle = 409;
  bins_per_bundle = 2045;
  bundle_idx_count = 1;
  item_bit_count = 105;
  item_bit_count_per_felt = 21;
}

params_run : initialize item_params table_params query_params seal_params ≡ ok params
unfolding initialize
params_run = refl

initialize_iff_example : IsAllowed item_params table_params query_params seal_params ↔ (
    (p : PsuParams) × (initialize item_params table_params query_params seal_params ≡ ok p)
    × IsInitialized item_params table_params query_params seal_params p)
initialize_iff_example = initialize_iff item_params table_params query_params seal_params

-- Ciphertexts are numbers, of which 0 is invalid; what is stored is loaded as it is.
abbrev seal : Seal
seal = record {
  StoredCiphertext = ℕ;
  Ciphertext = ℕ;
  StoredKeys = Bool;
  Keys = Bool;
  using_keyswitching = true;
  load_keys = λ k. ok k;
  keys_valid = λ k. k;
  load_ciphertext = λ c. ok c;
  ciphertext_valid = λ c. elim c [ zero ↦ false | suc n ↦ true ];
}

abbrev request : QueryRequest seal
request = record {
  relin_keys = serializable true;
  entries = (1, serializable 10 ∷ []) ∷ (3, local_object 30 ∷ []) ∷ [];
}

-- An object that was extracted before is empty.
without_keys :
    new seal (some (record request { relin_keys = empty })) (some params) ≡ some (err logic_error)
unfolding new extract_object
without_keys = refl

ready : IsReady seal params
ready = record {
  ascending = omega arith;
  low = omega arith;
  pos = omega arith;
  wrap = omega arith;
  no_zero = refl;
  one = refl;
  within = powers_within;
}

new-IsServable_example :
    ((e : Exception) × (new seal (some request) (some params) ≡ some (err e))
      × (KeysFail seal e request.relin_keys ⊎ EntriesFail seal e request.entries))
    ⊎ ((q : Query seal) × (new seal (some request) (some params) ≡ some (ok q))
        × ((q.valid ≡ true) ↔ IsServable seal params request q))
new-IsServable_example = new-IsServable seal request params ready (refl, (refl, tt))

create_powers_set_endless_example : create_powers_set 1000 0 (2 ^ 32 - 1) ≡ none
create_powers_set_endless_example = create_powers_set_endless 1000
