-- ===== src/ReceiverDb/Create.antt =====
-- The constructor of ReceiverDB.
use u_psu.Common.{
  ℕ, ◌≡◌, ◌≤◌, refl, sym, ◌∙◌, ◌↔◌, ◌⊎◌, inl, inr, Bool, false, List, [], ltb, ◌==◌, replicate,
  arith, Bool-cases, ==→eq, ltb→ge, le→ltb_false, get_or-replicate_self, length-replicate,
}
use mathlib.Core.Path.{subst}
use u_psu.Common.Results.{ok, invalid_argument, throw_if, throw_if->>-eq-ok, ◌>>◌}
use u_psu.PsuParams.{PsuParams}
use u_psu.Interpolate.{Modulus}
use u_psu.DbEncoding.{Item}
use u_psu.BinBundle.{BinBundle}
use u_psu.Workers.Insertion.{AllBundles}
use u_psu.ReceiverDb.{
  ReceiverDb, layout_of, max_nonce_byte_count, has_item, clear_internal, receiver_db,
}
use u_psu.ReceiverDb.Locations.{IsSetup}
use u_psu.ReceiverDb.Insert.{IsDatabase, has_item_lem}

-- The constructor for a database without labels, with the parameters that the constructor of
-- PSUParams gives, ends without an exception. The bundles are well-formed, the number of items is
-- right, and no item is found.
pub receiver_db-IsDatabase :
    {F K : Type 0} (m : Modulus) (location : ℕ → ℕ → Item → ℕ) (params : PsuParams) (key : K)
    (nonce_byte_count : ℕ) (compressed : Bool)
    → IsSetup m location params
    → (db : ReceiverDb F K) × (receiver_db params key 0 nonce_byte_count compressed ≡ ok db)
      × IsDatabase m location db
      × ((x : Item) → has_item db x ≡ ok false)
unfolding receiver_db clear_internal
receiver_db-IsDatabase {F = F} {K = K} m location params key nonce_byte_count compressed setup =
    let db : ReceiverDb F K = record {
      params = params;
      label_byte_count = 0;
      nonce_byte_count = 0;
      item_count = 0;
      compressed = compressed;
      stripped = false;
      hashed_items = [];
      bin_bundles = replicate params.bundle_idx_count [];
      oprf_key = key;
    } in
    (
      db,
      refl,
      record {
        setup = setup;
        unlabeled = refl;
        open_ = refl;
        sets = λ j.
            subst (λ (b : List (BinBundle F)). AllBundles (layout_of params 0) b)
              (sym (get_or-replicate_self params.bundle_idx_count j [])) tt;
        size = length-replicate params.bundle_idx_count [];
        counted = refl;
        held = λ x d l h. cc h;
      },
      λ x. has_item_lem db x refl,
    )

-- What the constructor returns.
abbrev fresh : {F K : Type 0} → PsuParams → K → ℕ → ℕ → Bool → ReceiverDb F K
fresh params key labels nonces compressed = record {
  params = params;
  label_byte_count = labels;
  nonce_byte_count = nonces;
  item_count = 0;
  compressed = compressed;
  stripped = false;
  hashed_items = [];
  bin_bundles = replicate params.bundle_idx_count [];
  oprf_key = key;
}

-- The constructor returns exactly if a label has at most 1024 bytes, and there are no labels or a
-- nonce has at most 16 bytes.
pub receiver_db_iff :
    {K : Type 0} (F : Type 0) (params : PsuParams) (key : K) (label_byte_count nonce_byte_count : ℕ)
    (compressed : Bool)
    → ((label_byte_count ≤ 1024) × ((label_byte_count ≡ 0) ⊎ (nonce_byte_count ≤ 16))) ↔ (
        (db : ReceiverDb F K) × (receiver_db params key label_byte_count nonce_byte_count compressed
          ≡ ok db))
unfolding receiver_db clear_internal
receiver_db_iff {K = K} F params key labels nonces compressed = elim (Bool-cases (labels == 0)) [
  | inl t ↦
      let built : ReceiverDb F K = fresh params key labels 0 compressed in
      (
        λ h. (built, rw (t, le→ltb_false 1024 labels h.0) refl),
        λ r.
            let (e, rest) =
              throw_if->>-eq-ok (ltb 1024 labels) invalid_argument
                (throw_if (ltb max_nonce_byte_count 0) invalid_argument >> ok built)
                (sym (rw t refl) ∙ r.1) in
            (ltb→ge 1024 labels e, inl (==→eq labels 0 t)),
      )
  | inr n ↦
      let built : ReceiverDb F K = fresh params key labels nonces compressed in
      (
        λ h. elim h.1 [
          | inl e ↦ absurd (ground arith)
          | inr le ↦ (built, rw (n, le→ltb_false 1024 labels h.0, le→ltb_false 16 nonces le) refl)
        ],
        λ r.
            let (e, rest) =
              throw_if->>-eq-ok (ltb 1024 labels) invalid_argument
                (throw_if (ltb max_nonce_byte_count nonces) invalid_argument >> ok built)
                (sym (rw n refl) ∙ r.1) in
            let (e', done) =
              throw_if->>-eq-ok (ltb max_nonce_byte_count nonces) invalid_argument (ok built)
                rest in
            (ltb→ge 1024 labels e, inr (ltb→ge 16 nonces e')),
      )
]
