-- ===== src/ReceiverDb/Locations.antt =====
-- Where the elements of an item are placed: within a bundle, and within the vector of bundles.
use u_psu.Common.{ℕ, ◌+◌, ◌-◌, ◌*◌, ◌/◌, ◌%◌, ◌^◌, ◌≡◌, ◌<◌, ◌≤◌, refl, sym, ap, ◌∙◌, arith}
use native.Mathlib.Nat.{
  mod-lt, mod-add-div, add-mul-mod_self_left, mod-eq_of_lt, mul-div_cancel_left, div-lt_iff_lt-mul,
  mul-le-mul_right,
}
use u_psu.Common.Words.{sub32, mul32}
use u_psu.Common.Results.{ok}
use u_psu.PsuParams.{ItemParams, TableParams, QueryParams, SealParams, PsuParams, initialize}
use u_psu.PsuParams.Init.{initialize_lem}
use u_psu.Interpolate.{Modulus, IsModulus}
use u_psu.DbEncoding.{Item}
use u_psu.Workers.{unpack_cuckoo_idx}

-- The parameters, as the constructor of PSUParams gives them for tables with room, the modulus of
-- SEAL and the hash functions of Kuku.
pub record IsSetup (m : Modulus) (location : ℕ → ℕ → Item → ℕ) (p : PsuParams) : Type 0 where
  pub laws : IsModulus m
  pub large : 1 < m.value
  pub locates : (n i : ℕ) (item : Item) → 0 < n → location n i item < n
  pub item_params : ItemParams
  pub table_params : TableParams
  pub query_params : QueryParams
  pub seal_params : SealParams
  pub built : initialize item_params table_params query_params seal_params ≡ ok p
  pub bit_count :
      (1 < seal_params.plain_modulus_bit_count) × (seal_params.plain_modulus_bit_count ≤ 60)
  pub some_room : 1 < table_params.max_items_per_bin
  pub small : table_params.max_items_per_bin < 2 ^ 31

-- The sizes that the parameters fix.
pub record IsSized (p : PsuParams) : Type 0 where
  pub felts_pos : 0 < p.item_params.felts_per_item
  pub items_pos : 0 < p.items_per_bundle
  pub table_pos : 0 < p.table_params.table_size
  pub table_eq : p.bundle_idx_count * p.items_per_bundle ≡ p.table_params.table_size
  pub bins_eq : p.bins_per_bundle ≡ p.items_per_bundle * p.item_params.felts_per_item
  pub bits_eq :
      p.item_bit_count
      ≡ mul32 (sub32 p.seal_params.plain_modulus_bit_count 1) p.item_params.felts_per_item
  pub bits_fit : sub32 p.seal_params.plain_modulus_bit_count 1 * p.item_params.felts_per_item ≤ 128
  pub more : 1 < p.seal_params.plain_modulus_bit_count
  pub few : p.seal_params.plain_modulus_bit_count ≤ 64
  pub some_room : 1 < p.table_params.max_items_per_bin
  pub small : p.table_params.max_items_per_bin < 2 ^ 31
  pub low_degree : p.query_params.ps_low_degree ≤ p.table_params.max_items_per_bin

pub IsSetup-IsSized :
    (m : Modulus) (location : ℕ → ℕ → Item → ℕ) (p : PsuParams) → IsSetup m location p → IsSized p
IsSetup-IsSized m location p h =
    let (allowed, sizes) =
      initialize_lem h.item_params h.table_params h.query_params h.seal_params p h.built in
    let felts : p.item_params.felts_per_item ≡ h.item_params.felts_per_item =
      ap (λ (r : ItemParams). r.felts_per_item) sizes.items in
    let table : p.table_params.table_size ≡ h.table_params.table_size =
      ap (λ (r : TableParams). r.table_size) sizes.table in
    let most : p.table_params.max_items_per_bin ≡ h.table_params.max_items_per_bin =
      ap (λ (r : TableParams). r.max_items_per_bin) sizes.table in
    let low : p.query_params.ps_low_degree ≡ h.query_params.ps_low_degree =
      ap (λ (r : QueryParams). r.ps_low_degree) sizes.query in
    let count : p.seal_params.plain_modulus_bit_count ≡ h.seal_params.plain_modulus_bit_count =
      ap (λ (r : SealParams). r.plain_modulus_bit_count) sizes.seal in
    let b : ℕ = sub32 h.seal_params.plain_modulus_bit_count 1 in
    let f : ℕ = h.item_params.felts_per_item in
    let (two, most_felts) = allowed.felts in
    let (more, few) = h.bit_count in
    let (least, bits) = allowed.bits in
    let low_bits : b ≤ 60 = omega arith in
    let least_product : b * f ≤ 60 * f = mul-le-mul_right f low_bits in
    let whole : mul32 b f ≡ b * f = omega arith in
    record {
      felts_pos = rw felts (omega arith);
      items_pos = sizes.items_pos;
      table_pos = rw table allowed.table_pos;
      table_eq = rw table sizes.table_size_eq;
      bins_eq = rw felts sizes.bins_eq;
      bits_eq = rw (felts, count, sizes.bits_eq, sizes.per_felt_eq) refl;
      bits_fit = rw (felts, count) (omega arith);
      more = rw count more;
      few = rw count (omega arith);
      some_room = rw most h.some_room;
      small = rw most h.small;
      low_degree = rw (low, most) allowed.low_degree;
    }

-- A location below the size of the table, in bins.
pub unpack_lem :
    (felts items bins count l : ℕ)
    → 0 < felts
    → 0 < items
    → bins ≡ items * felts
    → l < count * items
    → ((unpack_cuckoo_idx (l * felts) bins).0 + felts ≤ bins)
      × ((unpack_cuckoo_idx (l * felts) bins).1 < count)
unfolding unpack_cuckoo_idx
unpack_lem felts items bins count l felts_pos items_pos bins_eq below =
    let r : ℕ = l % items in
    let q : ℕ = l / items in
    let split : r + items * q ≡ l = mod-add-div l items in
    let next : (r + 1) * felts ≤ items * felts =
      mul-le-mul_right felts (let low = mod-lt l items_pos in omega arith) in
    let step : (r + 1) * felts ≡ r * felts + felts = grind arith in
    let some_felts : 0 < items * felts = omega arith in
    let whole : l * felts ≡ r * felts + items * felts * q =
      ap (λ (z : ℕ). z * felts) (sym split) ∙ grind arith in
    let rem : l * felts % (items * felts) ≡ r * felts =
      ap (λ (z : ℕ). z % (items * felts)) whole
      ∙ add-mul-mod_self_left (r * felts) (items * felts) q
      ∙ mod-eq_of_lt (omega arith) in
    let above : l * felts - r * felts ≡ items * felts * q = omega arith in
    let quotient : (l * felts - r * felts) / (items * felts) ≡ q =
      ap (λ (z : ℕ). z / (items * felts)) above ∙ mul-div_cancel_left q some_felts in
    rw (bins_eq, rem, quotient) (omega arith, (div-lt_iff_lt-mul items_pos).1 below)
