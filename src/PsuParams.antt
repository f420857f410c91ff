-- ===== src/PsuParams.antt =====
-- PSUParams of common/apsu/psu_params.h and common/apsu/psu_params.cpp: the checks and the derived
-- sizes of `initialize`. Of the SEAL parameters the record holds the values that the function
-- reads from SEAL.
pub mod Valid
pub mod Init
use u_psu.Common.{
  ℕ, ◌*◌, ◌/◌, ◌%◌, ◌^◌, Bool, true, false, ◌||◌, ◌&&◌, not, List, [], ◌∷◌, ltb, ◌==◌,
  if◌then◌else◌, length,
}
use u_psu.Common.Sets.{contains}
use u_psu.Common.Words.{add32, sub32, mul32}
use u_psu.Common.Results.{Result, ok, err, invalid_argument, ◌>>=◌, ◌>>◌, throw_if}

pub record ItemParams : Type 0 where
  pub felts_per_item : ℕ

pub record TableParams : Type 0 where
  pub table_size : ℕ
  pub max_items_per_bin : ℕ
  pub hash_func_count : ℕ

pub record QueryParams : Type 0 where
  pub ps_low_degree : ℕ
  pub query_powers : List ℕ

-- What SEAL says of its parameters: `parameters_set()`, `qualifiers().using_batching`,
-- `plain_modulus().bit_count()` and `poly_modulus_degree()`.
pub record SealParams : Type 0 where
  pub parameters_set : Bool
  pub using_batching : Bool
  pub plain_modulus_bit_count : ℕ
  pub poly_modulus_degree : ℕ

pub record PsuParams : Type 0 where
  pub item_params : ItemParams
  pub table_params : TableParams
  pub query_params : QueryParams
  pub seal_params : SealParams
  pub items_per_bundle : ℕ
  pub bins_per_bundle : ℕ
  pub bundle_idx_count : ℕ
  pub item_bit_count : ℕ
  pub item_bit_count_per_felt : ℕ

abbrev pub item_bit_count_min : ℕ
item_bit_count_min = 80

abbrev pub item_bit_count_max : ℕ
item_bit_count_max = 128

abbrev pub felts_per_item_max : ℕ
felts_per_item_max = 32

abbrev pub felts_per_item_min : ℕ
felts_per_item_min = 2

abbrev pub hash_func_count_min : ℕ
hash_func_count_min = 1

abbrev pub hash_func_count_max : ℕ
hash_func_count_max = 8

-- The loop over query_powers.
unfoldable pub check_powers : ℕ → ℕ → List ℕ → Result (Unit {0})
check_powers low most [] = ok tt
check_powers low most (p ∷ ps) = do
  throw_if (ltb most p) invalid_argument
  throw_if (ltb low p && not (p % add32 low 1 == 0)) invalid_argument
  check_powers low most ps

unfoldable pub check_tables : ItemParams → TableParams → QueryParams → Result (Unit {0})
unfolding check_powers
check_tables i t q = do
  throw_if (t.table_size == 0) invalid_argument
  throw_if (t.max_items_per_bin == 0) invalid_argument
  throw_if (ltb t.hash_func_count hash_func_count_min || ltb hash_func_count_max t.hash_func_count)
      invalid_argument
  throw_if (ltb i.felts_per_item felts_per_item_min || ltb felts_per_item_max i.felts_per_item)
      invalid_argument
  throw_if (ltb t.max_items_per_bin q.ps_low_degree) invalid_argument
  throw_if (contains q.query_powers 0 || not (contains q.query_powers 1)) invalid_argument
  throw_if (ltb t.max_items_per_bin (length q.query_powers)) invalid_argument
  check_powers q.ps_low_degree t.max_items_per_bin q.query_powers

unfoldable pub check_seal : SealParams → Result (Unit {0})
check_seal s = do
  throw_if (not s.parameters_set) invalid_argument
  throw_if (not s.using_batching) invalid_argument

-- The constructor, whose body is `initialize`.
unfoldable pub initialize : ItemParams → TableParams → QueryParams → SealParams → Result PsuParams
unfolding check_tables check_seal
initialize i t q s =
    let per_felt = sub32 s.plain_modulus_bit_count 1 in
    let bits = mul32 per_felt i.felts_per_item in
    let items_per_bundle = s.poly_modulus_degree % 2 ^ 32 / i.felts_per_item in
    let bins_per_bundle = mul32 items_per_bundle i.felts_per_item in
    do
      check_tables i t q
      check_seal s
      throw_if (ltb bits item_bit_count_min || ltb item_bit_count_max bits) invalid_argument
      throw_if (items_per_bundle == 0) invalid_argument
      throw_if (not (t.table_size % items_per_bundle == 0)) invalid_argument
      ok (record {
        item_params = i;
        table_params = t;
        query_params = q;
        seal_params = s;
        items_per_bundle = items_per_bundle;
        bins_per_bundle = bins_per_bundle;
        bundle_idx_count = t.table_size / items_per_bundle;
        item_bit_count = bits;
        item_bit_count_per_felt = per_felt;
      })
