-- ===== src/PsuParams/Init.antt =====
-- `initialize` accepts the allowed parameters and no others, and derives consistent sizes.
use native.Mathlib.Nat.{div-mul-le_self}
use u_psu.Common.{
  ◌↔◌, ℕ, ◌*◌, ◌/◌, ◌%◌, ◌^◌, ◌≤◌, ◌<◌, ◌≡◌, refl, true, false, ◌||◌, not, ltb, ◌==◌, arith,
  le→ltb_false, zero, suc,
}
use u_psu.Common.Words.{sub32, mul32}
use u_psu.Common.Results.{ok, invalid_argument, >>-eq-ok, throw_if->>-eq-ok}
use u_psu.PsuParams.{
  ItemParams, TableParams, QueryParams, SealParams, PsuParams, check_tables, check_seal, initialize,
  felts_per_item_min, felts_per_item_max, hash_func_count_min, hash_func_count_max,
  item_bit_count_min, item_bit_count_max,
}
use u_psu.PsuParams.Valid.{
  IsAllowed, check_tables_sound, check_powers_complete, outside, ==_false_zero,
}

whole_div : (a n : ℕ) → a % n ≡ 0 → a / n * n ≡ a
whole_div a n h = grind arith

room_of_div : (a f : ℕ) → 0 < f → 0 < a / f → f ≤ a
room_of_div a f p h = grind arith

div_of_room : (a f : ℕ) → 0 < f → f ≤ a → 0 < a / f
div_of_room a f p h = grind arith

pos_of_mul : (a b : ℕ) → 0 < a * b → 0 < a
pos_of_mul zero b h = omega arith
pos_of_mul (suc a) b h = omega arith

ne_==_zero : (n : ℕ) → 0 < n → (n == 0) ≡ false
ne_==_zero n h = ground arith

not_==_zero : (n : ℕ) → not (n == 0) ≡ false → n ≡ 0
not_==_zero n h = ground arith

seal_sound :
    (s : SealParams) → check_seal s ≡ ok tt → (s.parameters_set ≡ true) × (s.using_batching ≡ true)
unfolding check_seal
seal_sound s h =
    let (e1, h1) = throw_if->>-eq-ok (not s.parameters_set) invalid_argument _ h in
    (ground arith, ground arith)

module _ (i : ItemParams) (t : TableParams) (q : QueryParams) (s : SealParams) where
  -- The sizes fit together.
  pub record IsInitialized (p : PsuParams) : Type 0 where
    pub items : p.item_params ≡ i
    pub table : p.table_params ≡ t
    pub query : p.query_params ≡ q
    pub seal : p.seal_params ≡ s
    pub items_pos : 0 < p.items_per_bundle
    pub bundles_pos : 0 < p.bundle_idx_count
    pub table_size_eq : p.bundle_idx_count * p.items_per_bundle ≡ t.table_size
    pub bins_eq : p.bins_per_bundle ≡ p.items_per_bundle * i.felts_per_item
    pub bins_fit : p.bins_per_bundle ≤ s.poly_modulus_degree % 2 ^ 32
    pub bits_eq : p.item_bit_count ≡ mul32 p.item_bit_count_per_felt i.felts_per_item
    pub per_felt_eq : p.item_bit_count_per_felt ≡ sub32 s.plain_modulus_bit_count 1
    pub bits : (80 ≤ p.item_bit_count) × (p.item_bit_count ≤ 128)

  abbrev per_bundle : ℕ
  per_bundle = s.poly_modulus_degree % 2 ^ 32 / i.felts_per_item

  abbrev bit_total : ℕ
  bit_total = mul32 (sub32 s.plain_modulus_bit_count 1) i.felts_per_item

  abbrev built : PsuParams
  built = record {
    item_params = i;
    table_params = t;
    query_params = q;
    seal_params = s;
    items_per_bundle = per_bundle;
    bins_per_bundle = mul32 per_bundle i.felts_per_item;
    bundle_idx_count = t.table_size / per_bundle;
    item_bit_count = bit_total;
    item_bit_count_per_felt = sub32 s.plain_modulus_bit_count 1;
  }

  built-IsInitialized : IsAllowed i t q s → 0 < per_bundle → IsInitialized built
  built-IsInitialized h pos =
      let fits = div-mul-le_self (s.poly_modulus_degree % 2 ^ 32) i.felts_per_item in
      let whole = whole_div t.table_size per_bundle h.whole in
      let bins : mul32 per_bundle i.felts_per_item ≡ per_bundle * i.felts_per_item = omega arith in
      record {
        items = refl;
        table = refl;
        query = refl;
        seal = refl;
        items_pos = pos;
        bundles_pos = pos_of_mul _ per_bundle (rw whole h.table_pos);
        table_size_eq = whole;
        bins_eq = bins;
        bins_fit = rw bins fits;
        bits_eq = refl;
        per_felt_eq = refl;
        bits = h.bits;
      }

  pub initialize_lem :
      (p : PsuParams) → initialize i t q s ≡ ok p → IsAllowed i t q s × IsInitialized p
  unfolding initialize
  initialize_lem p h0 =
      let x = invalid_argument in
      let (a, h1) = >>-eq-ok (check_tables i t q) _ h0 in
      let (b, h2) = >>-eq-ok (check_seal s) _ h1 in
      let (e1, h3) =
        throw_if->>-eq-ok (ltb bit_total item_bit_count_min || ltb item_bit_count_max bit_total) x _
          h2 in
      let (e2, h4) = throw_if->>-eq-ok (per_bundle == 0) x _ h3 in
      let (e3, h5) = throw_if->>-eq-ok (not (t.table_size % per_bundle == 0)) x _ h4 in
      let same : built ≡ p = cc h5 in
      let (c1, c2, c3, c4, c5, c6, c7, c8, c9) = check_tables_sound i t q s a in
      let pos : 0 < per_bundle = ==_false_zero _ e2 in
      let allowed : IsAllowed i t q s = record {
        table_pos = c1;
        bins_pos = c2;
        hash_funcs = c3;
        felts = c4;
        low_degree = c5;
        no_zero = c6;
        one = c7;
        few = c8;
        powers = c9;
        seal_set = (seal_sound s b).0;
        seal_batching = (seal_sound s b).1;
        bits = outside _ _ _ e1;
        room = room_of_div _ _ (omega arith) pos;
        whole = not_==_zero _ e3;
      } in
      (allowed, rw (← same) (built-IsInitialized allowed pos))

  check_tables_complete : IsAllowed i t q s → check_tables i t q ≡ ok tt
  unfolding check_tables
  check_tables_complete h = rw (
    ne_==_zero _ h.table_pos,
    ne_==_zero _ h.bins_pos,
    le→ltb_false t.hash_func_count hash_func_count_min h.hash_funcs.0,
    le→ltb_false hash_func_count_max t.hash_func_count h.hash_funcs.1,
    le→ltb_false i.felts_per_item felts_per_item_min h.felts.0,
    le→ltb_false felts_per_item_max i.felts_per_item h.felts.1,
    le→ltb_false _ _ h.low_degree,
    h.no_zero,
    h.one,
    le→ltb_false _ _ h.few,
    check_powers_complete _ _ _ h.powers,
  )

  initialize_complete : IsAllowed i t q s → initialize i t q s ≡ ok built
  unfolding initialize check_seal
  initialize_complete h =
      let pos : 0 < per_bundle = div_of_room _ _ (omega arith) h.room in
      rw (
        check_tables_complete h,
        h.seal_set,
        h.seal_batching,
        le→ltb_false bit_total item_bit_count_min h.bits.0,
        le→ltb_false item_bit_count_max bit_total h.bits.1,
        ne_==_zero _ pos,
        h.whole,
      )

-- `initialize` returns exactly on the allowed parameters; the sizes that it then derives fit
-- together: the bundles' items make up the table, a bundle's bins fit the polynomial, and the
-- items have 80 to 128 bits.
pub initialize_iff :
    (i : ItemParams) (t : TableParams) (q : QueryParams) (s : SealParams)
    → IsAllowed i t q s ↔ ((p : PsuParams) × (initialize i t q s ≡ ok p) × IsInitialized i t q s p)
initialize_iff i t q s = (
  λ h. let e = initialize_complete i t q s h in (built i t q s, e, (initialize_lem i t q s _ e).1),
  λ r. (initialize_lem i t q s r.0 r.1).0,
)
