-- ===== src/Query.antt =====
-- Query of receiver/apsu/query.h and receiver/apsu/query.cpp: the constructor that extracts and
-- validates a query request. Ciphertexts and relinearisation keys belong to SEAL.
pub mod Dag
pub mod Keys
pub mod Extract
pub mod Valid
use u_psu.Common.{
  ℕ, ◌+◌, Bool, true, false, Option, none, some, List, [], ◌∷◌, ◌==◌, ◌&&◌, not, if◌then◌else◌,
  length,
}
use u_psu.Common.Sets.{contains}
use u_psu.Common.Results.{
  Result, ok, err, Exception, invalid_argument, logic_error, out_of_range, ◌>>=◌,
}
use u_psu.Powers.{PowersDag, configure}
use u_psu.PowersSet.{create_powers_set}
use u_psu.PsuParams.{PsuParams}

-- SEALObject of common/apsu/seal_object.h: at most one of the two pointers is set, as each setter
-- resets the other one.
pub data SealObject (S L : Type 0) : Type 0 where
  empty : SealObject S L
  local_object : L → SealObject S L
  serializable : S → SealObject S L

-- `extract`, for a context that is not null; `load` is SEAL's saving and loading.
unfoldable pub extract_object : {S L : Type 0} → (S → Result L) → SealObject S L → Result L
extract_object load empty = err logic_error
extract_object load (local_object l) = ok l
extract_object load (serializable s) = load s

-- What the constructor asks of SEAL, for the context of the receiver's database.
pub record Seal : Type 1 where
  pub StoredCiphertext : Type 0
  pub Ciphertext : Type 0
  pub StoredKeys : Type 0
  pub Keys : Type 0
  pub using_keyswitching : Bool
  pub load_keys : StoredKeys → Result Keys
  pub keys_valid : Keys → Bool
  pub load_ciphertext : StoredCiphertext → Result Ciphertext
  pub ciphertext_valid : Ciphertext → Bool

abbrev pub RawCiphertext : Seal → Type 0
RawCiphertext seal = SealObject seal.StoredCiphertext seal.Ciphertext

abbrev pub RawKeys : Seal → Type 0
RawKeys seal = SealObject seal.StoredKeys seal.Keys

-- `std::unordered_map<uint32_t, vector<...>>` as an association list.
pub record QueryRequest (seal : Seal) : Type 0 where
  pub relin_keys : RawKeys seal
  pub entries : List (ℕ × List (RawCiphertext seal))

pub record Query (seal : Seal) : Type 0 where
  pub relin_keys : Option seal.Keys
  pub entries : List (ℕ × List seal.Ciphertext)
  pub pd : PowersDag
  pub valid : Bool

abbrev pub fresh_dag : PowersDag
fresh_dag = record { nodes = []; configured = false; targets = []; depth = 0; source_count = 0 }

module _ (seal : Seal) where
  abbrev pub extract : RawCiphertext seal → Result seal.Ciphertext
  extract c = extract_object seal.load_ciphertext c

  -- The inner loop; `none` is the early return at an invalid ciphertext.
  unfoldable pub extract_all : List (RawCiphertext seal) → Result (Option (List seal.Ciphertext))
  extract_all [] = ok (some [])
  extract_all (c ∷ cs) =
      let rest = extract_all cs in
      extract c >>= λ ct.
      if not (seal.ciphertext_valid ct)
      then ok none
      else (rest >>= λ found. ok (elim found [ none ↦ none | some cts ↦ some (ct ∷ cts) ]))

  -- What `data_` holds behind the loop over the entries, and whether the loop ran to its end.
  pub record Extracted : Type 0 where
    pub data_ : List (ℕ × List seal.Ciphertext)
    pub whole : Bool

  -- The loop over the request's entries.
  unfoldable pub extract_entries : List (ℕ × List (RawCiphertext seal)) → Result Extracted
  unfolding extract_all
  extract_entries [] = ok (record { data_ = []; whole = true })
  extract_entries ((p, raw) ∷ rest) =
      let more = extract_entries rest in
      extract_all raw >>= λ found. elim found [
        | none ↦ ok (record { data_ = []; whole = false })
        | some cts ↦ (more >>= λ m. ok (record { data_ = (p, cts) ∷ m.data_; whole = m.whole }))
      ]

  -- The last loop: each entry has a ciphertext for each bundle index, at a query power.
  unfoldable pub check_entries : ℕ → List ℕ → List (ℕ × List seal.Ciphertext) → Bool
  check_entries bundles powers [] = true
  check_entries bundles powers ((p, cts) ∷ rest) =
      (length cts == bundles) && contains powers p && check_entries bundles powers rest

  -- The keys, where the context uses them.
  unfoldable pub extract_keys : RawKeys seal → Result (Option seal.Keys)
  extract_keys raw =
      if seal.using_keyswitching
      then (extract_object seal.load_keys raw >>= λ k. ok (some k))
      else ok none

  abbrev pub keys_accepted : Option seal.Keys → Bool
  keys_accepted none = true
  keys_accepted (some k) = seal.keys_valid k

  abbrev pub built :
      Option seal.Keys
      → List (ℕ × List seal.Ciphertext)
      → PowersDag
      → Bool
      → Option (Result (Query seal))
  built keys entries d good =
      some (ok (record { relin_keys = keys; entries = entries; pd = d; valid = good }))

  -- The part behind the extraction of the ciphertexts.
  unfoldable pub validate :
      PsuParams → Option seal.Keys → List (ℕ × List seal.Ciphertext) → Option (Result (Query seal))
  unfolding check_entries create_powers_set configure
  validate params keys entries =
      let powers = params.query_params.query_powers in
      let most = params.table_params.max_items_per_bin in
      elim (create_powers_set (most + 2) params.query_params.ps_low_degree most) [
        | none ↦ none
        | some (err e) ↦ some (err e)
        | some (ok targets) ↦ elim (configure fresh_dag powers targets) [
          | none ↦ some (err out_of_range)
          | some (d, _) ↦ built keys entries d (
              d.configured
              && (length entries == length powers)
              && check_entries params.bundle_idx_count powers entries)
        ]
      ]

  -- The part behind the extraction of the keys.
  unfoldable pub with_entries :
      PsuParams
      → Option seal.Keys
      → List (ℕ × List (RawCiphertext seal))
      → Option (Result (Query seal))
  unfolding extract_entries validate
  with_entries params keys entries = elim (extract_entries entries) [
    | err e ↦ some (err e)
    | ok r ↦ if r.whole then validate params keys r.data_ else built keys r.data_ fresh_dag false
  ]

  -- A null pointer is `none`. The result is `none` if create_powers_set does not end.
  unfoldable pub new : Option (QueryRequest seal) → Option PsuParams → Option (Result (Query seal))
  unfolding extract_keys with_entries
  new request none = some (err invalid_argument)
  new none (some params) = some (err invalid_argument)
  new (some request) (some params) = elim (extract_keys request.relin_keys) [
    | err e ↦ some (err e)
    | ok keys ↦
        let rest = with_entries params keys request.entries in
        if keys_accepted keys then rest else built keys [] fresh_dag false
  ]
