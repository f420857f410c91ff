-- ===== src/PsuParams/Valid.antt =====
-- What holds of the parameters that `initialize` accepts.
use u_psu.Common.{
  ℕ, ◌/◌, ◌%◌, ◌^◌, ◌≤◌, ◌<◌, ◌≡◌, refl, ◌⊎◌, inl, inr, Bool, true, false, ◌||◌, ◌&&◌, not, List,
  [], ◌∷◌, ltb, ◌==◌, length, arith, Bool-cases, ltb→ge, le→ltb_false,
}
use u_psu.Common.Sets.{contains, contains-cons, contains-head, contains-tail}
use u_psu.Common.Words.{add32, sub32, mul32}
use u_psu.Common.Results.{
  ok, invalid_argument, throw_if, >>-eq-ok, throw_if-eq-ok, throw_if->>-eq-ok,
}
use u_psu.PsuParams.{
  ItemParams, TableParams, QueryParams, SealParams, check_powers, check_tables, felts_per_item_min,
  felts_per_item_max, hash_func_count_min, hash_func_count_max,
}

-- A query power is within the bins and, above ps_low_degree, a multiple of ps_low_degree + 1.
abbrev pub IsQueryPower : ℕ → ℕ → ℕ → Type 0
IsQueryPower low most p = (p ≤ most) × ((p ≤ low) ⊎ (p % add32 low 1 ≡ 0))

guard_or : (low q m : ℕ) → (ltb low q && not (q % m == 0)) ≡ false → (q ≤ low) ⊎ (q % m ≡ 0)
guard_or low q m h = elim (Bool-cases (ltb low q)) [
  | inl e ↦ inr (ground arith)
  | inr e ↦ inl (ground arith)
]

guard_or_back : (low q m : ℕ) → (q ≤ low) ⊎ (q % m ≡ 0) → (ltb low q && not (q % m == 0)) ≡ false
guard_or_back low q m h = ground arith

check_powers_sound :
    (low most : ℕ) (ps : List ℕ)
    → check_powers low most ps ≡ ok tt
    → (p : ℕ) → contains ps p ≡ true
    → IsQueryPower low most p
unfolding check_powers
check_powers_sound low most [] h p m = cc
check_powers_sound low most (q ∷ ps) h p m =
    let (first, more) = >>-eq-ok (throw_if (ltb most q) invalid_argument) _ h in
    let (second, rest) =
      >>-eq-ok (throw_if (ltb low q && not (q % add32 low 1 == 0)) invalid_argument) _ more in
    let within = ltb→ge most q (throw_if-eq-ok _ _ first) in
    let multiple = guard_or low q _ (throw_if-eq-ok _ _ second) in
    elim (contains-cons q p ps m) [
      | inr later ↦ check_powers_sound low most ps rest p later
      | inl same ↦ rw (← same) (within, multiple)
    ]

pub check_powers_complete :
    (low most : ℕ) (ps : List ℕ)
    → ((p : ℕ) → contains ps p ≡ true → IsQueryPower low most p)
    → check_powers low most ps ≡ ok tt
unfolding check_powers
check_powers_complete low most [] h = refl
check_powers_complete low most (q ∷ ps) h =
    let (within, multiple) = h q (contains-head q ps) in
    rw (
      le→ltb_false most q within,
      guard_or_back low q _ multiple,
      check_powers_complete low most ps (λ p m. h p (contains-tail q p ps m)),
    )

-- What the comments of the header ask of the parameters, and what SEAL has to offer.
pub record IsAllowed (i : ItemParams) (t : TableParams) (q : QueryParams) (s : SealParams)
    : Type 0 where
  pub table_pos : 0 < t.table_size
  pub bins_pos : 0 < t.max_items_per_bin
  pub hash_funcs : (1 ≤ t.hash_func_count) × (t.hash_func_count ≤ 8)
  pub felts : (2 ≤ i.felts_per_item) × (i.felts_per_item ≤ 32)
  pub low_degree : q.ps_low_degree ≤ t.max_items_per_bin
  pub no_zero : contains q.query_powers 0 ≡ false
  pub one : contains q.query_powers 1 ≡ true
  pub few : length q.query_powers ≤ t.max_items_per_bin
  pub powers :
      (p : ℕ)
      → contains q.query_powers p ≡ true
      → IsQueryPower q.ps_low_degree t.max_items_per_bin p
  pub seal_set : s.parameters_set ≡ true
  pub seal_batching : s.using_batching ≡ true
  pub bits :
      (80 ≤ mul32 (sub32 s.plain_modulus_bit_count 1) i.felts_per_item)
      × (mul32 (sub32 s.plain_modulus_bit_count 1) i.felts_per_item ≤ 128)
  pub room : i.felts_per_item ≤ s.poly_modulus_degree % 2 ^ 32
  pub whole : t.table_size % (s.poly_modulus_degree % 2 ^ 32 / i.felts_per_item) ≡ 0

pub ==_false_zero : (n : ℕ) → (n == 0) ≡ false → 0 < n
==_false_zero n h = ground arith

pub outside : (n lo hi : ℕ) → (ltb n lo || ltb hi n) ≡ false → (lo ≤ n) × (n ≤ hi)
outside n lo hi h = ground arith

no_zero_one : (a b : Bool) → (a || not b) ≡ false → a ≡ false
no_zero_one a b h = ground arith

zero_one : (a b : Bool) → (a || not b) ≡ false → b ≡ true
zero_one a b h = ground arith

pub check_tables_sound :
    (i : ItemParams) (t : TableParams) (q : QueryParams) (s : SealParams)
    → check_tables i t q ≡ ok tt
    → (0 < t.table_size)
      × (0 < t.max_items_per_bin)
      × ((1 ≤ t.hash_func_count) × (t.hash_func_count ≤ 8))
      × ((2 ≤ i.felts_per_item) × (i.felts_per_item ≤ 32))
      × (q.ps_low_degree ≤ t.max_items_per_bin)
      × (contains q.query_powers 0 ≡ false)
      × (contains q.query_powers 1 ≡ true)
      × (length q.query_powers ≤ t.max_items_per_bin)
      × ((p : ℕ)
          → contains q.query_powers p ≡ true
          → IsQueryPower q.ps_low_degree t.max_items_per_bin p)
unfolding check_tables
check_tables_sound i t q s h0 =
    let x = invalid_argument in
    let (e1, h1) = throw_if->>-eq-ok (t.table_size == 0) x _ h0 in
    let (e2, h2) = throw_if->>-eq-ok (t.max_items_per_bin == 0) x _ h1 in
    let (e3, h3) =
      throw_if->>-eq-ok
        (ltb t.hash_func_count hash_func_count_min || ltb hash_func_count_max t.hash_func_count) x _
        h2 in
    let (e4, h4) =
      throw_if->>-eq-ok
        (ltb i.felts_per_item felts_per_item_min || ltb felts_per_item_max i.felts_per_item) x _
        h3 in
    let (e5, h5) = throw_if->>-eq-ok (ltb t.max_items_per_bin q.ps_low_degree) x _ h4 in
    let (e6, h6) =
      throw_if->>-eq-ok (contains q.query_powers 0 || not (contains q.query_powers 1)) x _ h5 in
    let (e7, h7) = throw_if->>-eq-ok (ltb t.max_items_per_bin (length q.query_powers)) x _ h6 in
    (
      ==_false_zero _ e1,
      ==_false_zero _ e2,
      outside _ _ _ e3,
      outside _ _ _ e4,
      ltb→ge _ _ e5,
      no_zero_one _ _ e6,
      zero_one _ _ e6,
      ltb→ge _ _ e7,
      check_powers_sound _ _ _ h7,
    )
