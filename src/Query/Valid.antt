-- ===== src/Query/Valid.antt =====
-- What a query that the constructor declares valid holds.
use u_psu.Common.{
  ℕ, suc, ◌+◌, ◌^◌, ◌≤◌, ◌<◌, ◌≡◌, refl, sym, ◌↔◌, ◌⊎◌, inl, inr, true, false, Option, some, List,
  [], ◌∷◌, arith, ◌∙◌, ap, ◌==◌, ==→eq, ==_refl, false, length, ◌&&◌,
}
use u_psu.Common.Sets.{contains, IsAscending, contains-cons}
use u_psu.Common.Results.{ok, err, Exception}
use u_psu.Powers.Validity.{HasParents, IsValid}
use u_psu.PsuParams.{PsuParams}
use u_psu.PsuParams.Valid.{IsQueryPower}
use u_psu.Query.{
  Seal, RawCiphertext, Query, QueryRequest, validate, with_entries, check_entries, fresh_dag, new,
}
use u_psu.Query.Dag.{query_dag-HasParents}
use u_psu.Query.Extract.{
  KeysTaken, KeysFail, EntriesTaken, EntriesFail, extract_keys_lem, extract_entries_lem,
}
use u_psu.Query.Keys.{IsDistinct, pigeonhole}

module _ (seal : Seal) where
  abbrev pub keys : List (ℕ × List seal.Ciphertext) → List ℕ
  keys [] = []
  keys ((p, cts) ∷ rest) = p ∷ keys rest

  -- The entry of a power has a ciphertext for each bundle index.
  abbrev pub HasEntry : ℕ → ℕ → List (ℕ × List seal.Ciphertext) → Type 0
  HasEntry bundles p [] = ⊥
  HasEntry bundles p ((q, cts) ∷ rest) =
      ((q ≡ p) × (length cts ≡ bundles)) ⊎ HasEntry bundles p rest

  length-keys : (es : List (ℕ × List seal.Ciphertext)) → length (keys es) ≡ length es
  length-keys [] = refl
  length-keys ((p, cts) ∷ es) = ap suc (length-keys es)

  check_entries-keys :
      (bundles : ℕ) (powers : List ℕ) (es : List (ℕ × List seal.Ciphertext)) (k : ℕ)
      → check_entries seal bundles powers es ≡ true
      → contains (keys es) k ≡ true
      → contains powers k ≡ true
  unfolding check_entries
  check_entries-keys bundles powers [] k h m = cc
  check_entries-keys bundles powers ((p, cts) ∷ es) k h m = elim (contains-cons p k (keys es) m) [
    | inl same ↦ rw (← same) (ground arith)
    | inr later ↦ check_entries-keys bundles powers es k (ground arith) later
  ]

  check_entries_entry :
      (bundles : ℕ) (powers : List ℕ) (es : List (ℕ × List seal.Ciphertext)) (k : ℕ)
      → check_entries seal bundles powers es ≡ true
      → contains (keys es) k ≡ true
      → HasEntry bundles k es
  unfolding check_entries
  check_entries_entry bundles powers [] k h m = cc
  check_entries_entry bundles powers ((p, cts) ∷ es) k h m = elim (contains-cons p k (keys es) m) [
    | inl same ↦ inl (same, ground arith)
    | inr later ↦ inr (check_entries_entry bundles powers es k (ground arith) later)
  ]

  abbrev pub request_keys : List (ℕ × List (RawCiphertext seal)) → List ℕ
  request_keys [] = []
  request_keys ((p, raw) ∷ rest) = p ∷ request_keys rest

  -- The limits that PSUParams checks, and that 32 bits hold the powers.
  pub record IsReady (params : PsuParams) : Type 0 where
    pub ascending : IsAscending params.query_params.query_powers
    pub low : params.query_params.ps_low_degree ≤ params.table_params.max_items_per_bin
    pub pos : 0 < params.table_params.max_items_per_bin
    pub wrap :
        params.table_params.max_items_per_bin + params.query_params.ps_low_degree + 1 < 2 ^ 32
    pub no_zero : contains params.query_params.query_powers 0 ≡ false
    pub one : contains params.query_params.query_powers 1 ≡ true
    pub within :
        (p : ℕ)
        → contains params.query_params.query_powers p ≡ true
        → IsQueryPower params.query_params.ps_low_degree params.table_params.max_items_per_bin p

  -- Each entry has a ciphertext for each bundle index, at a query power.
  abbrev pub AllFit : ℕ → List ℕ → List (ℕ × List seal.Ciphertext) → Type 0
  AllFit bundles powers [] = Unit
  AllFit bundles powers ((p, cts) ∷ es) =
      (length cts ≡ bundles) × (contains powers p ≡ true) × AllFit bundles powers es

  check_entries-AllFit :
      (bundles : ℕ) (powers : List ℕ) (es : List (ℕ × List seal.Ciphertext))
      → check_entries seal bundles powers es ≡ true
      → AllFit bundles powers es
  unfolding check_entries
  check_entries-AllFit bundles powers [] h = tt
  check_entries-AllFit bundles powers ((p, cts) ∷ es) h =
      let fits : length cts ≡ bundles = ==→eq _ _ (ground arith) in
      (fits, ground arith, check_entries-AllFit bundles powers es (ground arith))

  AllFit-check_entries :
      (bundles : ℕ) (powers : List ℕ) (es : List (ℕ × List seal.Ciphertext))
      → AllFit bundles powers es
      → check_entries seal bundles powers es ≡ true
  unfolding check_entries
  AllFit-check_entries bundles powers [] h = refl
  AllFit-check_entries bundles powers ((p, cts) ∷ es) (e, m, h) =
      rw (e, ==_refl bundles, m) (AllFit-check_entries bundles powers es h)

  -- The receiver has the keys and ciphertexts of the request, all of them valid for the context,
  -- and can compute every target power from them.
  pub record IsServable (params : PsuParams) (request : QueryRequest seal) (q : Query seal)
      : Type 0 where
    pub keys_taken : KeysTaken seal request.relin_keys q.relin_keys
    pub taken : EntriesTaken seal request.entries q.entries
    pub as_many : length q.entries ≡ length params.query_params.query_powers
    pub fit : AllFit params.bundle_idx_count params.query_params.query_powers q.entries
    pub sources :
        (p : ℕ)
        → contains params.query_params.query_powers p ≡ true
        → HasEntry params.bundle_idx_count p q.entries
    pub configured : q.pd.configured ≡ true
    pub dag : IsValid params.query_params.query_powers q.pd.targets q.pd.nodes
    pub computed :
        (p : ℕ)
        → contains q.pd.targets p ≡ true
        → contains params.query_params.query_powers p ≡ false
        → HasParents q.pd.targets q.pd.nodes p

  abbrev IsJudged : PsuParams → QueryRequest seal → Query seal → Type 0
  IsJudged params request q = (q.valid ≡ true) ↔ IsServable params request q

  keys-request_keys :
      (raw : List (ℕ × List (RawCiphertext seal))) (es : List (ℕ × List seal.Ciphertext))
      → EntriesTaken seal raw es
      → keys es ≡ request_keys raw
  keys-request_keys [] [] h = refl
  keys-request_keys [] (e ∷ es) h = absurd h
  keys-request_keys ((p, cs) ∷ raw) [] h = absurd h
  keys-request_keys ((p, cs) ∷ raw) ((q, cts) ∷ es) (same, t, h) =
      rw (same, keys-request_keys raw es h) refl

  validate_lem :
      (params : PsuParams) (request : QueryRequest seal) (ks : Option seal.Keys)
      (es : List (ℕ × List seal.Ciphertext))
      → IsReady params
      → IsDistinct (keys es)
      → KeysTaken seal request.relin_keys ks
      → EntriesTaken seal request.entries es
      → (q : Query seal) × (validate seal params ks es ≡ some (ok q)) × IsJudged params request q
  unfolding validate
  validate_lem params request ks es ready distinct keys_taken taken =
      let powers = params.query_params.query_powers in
      let bundles : ℕ = params.bundle_idx_count in
      let (targets, d, e1, e2, same, _, valid, h) =
        query_dag-HasParents fresh_dag params.query_params.ps_low_degree
          params.table_params.max_items_per_bin powers ready.ascending ready.low ready.pos
          ready.wrap ready.no_zero ready.one ready.within refl in
      let q : Query seal = record {
        relin_keys = ks;
        entries = es;
        pd = d;
        valid =
            d.configured && (length es == length powers) && check_entries seal bundles powers es;
      } in
      rw (validate, e1, e2)
        (
          q,
          refl,
          (
            λ v.
                let good : check_entries seal bundles powers es ≡ true = ground arith in
                let count : length es ≡ length powers = ==→eq _ _ (ground arith) in
                record {
                  keys_taken = keys_taken;
                  taken = taken;
                  as_many = count;
                  fit = check_entries-AllFit bundles powers es good;
                  sources = λ p m. check_entries_entry bundles powers es p good (
                      pigeonhole (keys es) powers p distinct
                        (λ k mk. check_entries-keys bundles powers es k good mk)
                        (length-keys es ∙ count) m);
                  configured = ground arith;
                  dag = rw same valid;
                  computed = λ p t s. rw same (h p (rw (← same) t) s);
                },
            λ s.
                let good = AllFit-check_entries bundles powers es s.fit in
                rw (s.configured, s.as_many, ==_refl (length powers), good) refl,
          ),
        )

  rejected :
      (params : PsuParams) (request : QueryRequest seal) (q : Query seal)
      → q.valid ≡ false
      → ¬ IsServable params request q
      → IsJudged params request q
  rejected params request q bad never =
      (λ v. let e : false ≡ true = sym bad ∙ v in cc e, λ s. absurd (never s))

  -- The part behind the keys.
  with_entries_lem :
      (params : PsuParams) (request : QueryRequest seal) (ks : Option seal.Keys)
      → IsReady params
      → IsDistinct (request_keys request.entries)
      → KeysTaken seal request.relin_keys ks
      → ((e : Exception) × (with_entries seal params ks request.entries ≡ some (err e))
          × EntriesFail seal e request.entries)
        ⊎ ((q : Query seal) × (with_entries seal params ks request.entries ≡ some (ok q))
            × IsJudged params request q)
  unfolding with_entries
  with_entries_lem params request ks ready distinct keys_taken =
      elim (extract_entries_lem seal request.entries) [
        | inl (e, run, fails) ↦ inl (e, rw (run, with_entries) refl, fails)
        | inr (r, run, how) ↦ elim how [
          | inl (whole, taken) ↦
              let distinct' : IsDistinct (keys r.data_) =
                rw (keys-request_keys request.entries r.data_ taken) distinct in
              let (q, run', judged) =
                validate_lem params request ks r.data_ ready distinct' keys_taken taken in
              inr (q, rw (run, whole, with_entries) run', judged)
          | inr (cut, never) ↦
              let q : Query seal = record {
                relin_keys = ks;
                entries = r.data_;
                pd = fresh_dag;
                valid = false;
              } in
              inr (
                q,
                rw (run, cut, with_entries) refl,
                rejected params request q refl (λ s. never r.data_ s.taken),
              )
        ]
      ]

-- For parameters within the limits and a request whose entries have distinct powers, the
-- constructor ends. It throws only what the extraction of an object of the request throws.
-- Otherwise it declares the query valid exactly if the query can be served: its keys and
-- ciphertexts are those of the request, all valid for the context, each query power came with a
-- ciphertext for each bundle index, and no other power came; the PowersDag is configured and in a
-- valid state, and each other target power has parents.
pub new-IsServable :
    (seal : Seal) (request : QueryRequest seal) (params : PsuParams)
    → IsReady seal params
    → IsDistinct (request_keys seal request.entries)
    → ((e : Exception) × (new seal (some request) (some params) ≡ some (err e))
        × (KeysFail seal e request.relin_keys ⊎ EntriesFail seal e request.entries))
      ⊎ ((q : Query seal) × (new seal (some request) (some params) ≡ some (ok q))
          × ((q.valid ≡ true) ↔ IsServable seal params request q))
unfolding new
new-IsServable seal request params ready distinct =
    elim (extract_keys_lem seal request.relin_keys) [
      | inl (e, run, fails) ↦ inl (e, rw (run, new) refl, inl fails)
      | inr (ks, run, how) ↦ elim how [
        | inl (good, taken) ↦ elim (with_entries_lem seal params request ks ready distinct taken) [
          | inl (e, run', fails) ↦ inl (e, rw (run, good, new) run', inr fails)
          | inr (q, run', judged) ↦ inr (q, rw (run, good, new) run', judged)
        ]
        | inr (bad, never) ↦
            let q : Query seal = record {
              relin_keys = ks;
              entries = [];
              pd = fresh_dag;
              valid = false;
            } in
            inr (
              q,
              rw (run, bad, new) refl,
              rejected seal params request q refl (λ s. never s.keys_taken),
            )
      ]
    ]
