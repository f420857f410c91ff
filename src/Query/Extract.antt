-- ===== src/Query/Extract.antt =====
-- What the constructor of Query extracts from a request.
use u_psu.Common.{
  ℕ, ◌≡◌, refl, sym, ap, ◌∙◌, ◌⊎◌, inl, inr, true, false, Option, none, some, List, [], ◌∷◌,
  Bool-cases,
}
use u_psu.Common.Results.{Result, ok, err, Exception, ok_injective}
use u_psu.Query.{
  Seal, RawCiphertext, RawKeys, Extracted, extract_object, extract, extract_all, extract_entries,
  extract_keys, keys_accepted,
}

Result-cases {ℓ} :
    {A : Type ℓ} (r : Result A) → ((e : Exception) × (r ≡ err e)) ⊎ ((a : A) × (r ≡ ok a))
Result-cases (err e) = inl (e, refl)
Result-cases (ok a) = inr (a, refl)

module _ (seal : Seal) where
  -- The ciphertexts are the extracted ones, all valid for the context.
  abbrev pub AllTaken : List (RawCiphertext seal) → List seal.Ciphertext → Type 0
  AllTaken [] [] = Unit
  AllTaken [] (t ∷ ts) = ⊥
  AllTaken (c ∷ cs) [] = ⊥
  AllTaken (c ∷ cs) (t ∷ ts) =
      (extract seal c ≡ ok t) × (seal.ciphertext_valid t ≡ true) × AllTaken cs ts

  abbrev pub EntriesTaken :
      List (ℕ × List (RawCiphertext seal)) → List (ℕ × List seal.Ciphertext) → Type 0
  EntriesTaken [] [] = Unit
  EntriesTaken [] (e ∷ es) = ⊥
  EntriesTaken (r ∷ raw) [] = ⊥
  EntriesTaken ((p, cs) ∷ raw) ((q, ts) ∷ es) = (q ≡ p) × AllTaken cs ts × EntriesTaken raw es

  -- The extraction of some ciphertext throws.
  abbrev pub SomeFails : Exception → List (RawCiphertext seal) → Type 0
  SomeFails e [] = ⊥
  SomeFails e (c ∷ cs) = (extract seal c ≡ err e) ⊎ SomeFails e cs

  abbrev pub EntriesFail : Exception → List (ℕ × List (RawCiphertext seal)) → Type 0
  EntriesFail e [] = ⊥
  EntriesFail e ((p, cs) ∷ raw) = SomeFails e cs ⊎ EntriesFail e raw

  -- The keys are the extracted ones, valid for the context, where it uses keys.
  abbrev pub KeysTaken : RawKeys seal → Option seal.Keys → Type 0
  KeysTaken raw none = seal.using_keyswitching ≡ false
  KeysTaken raw (some k) =
      (seal.using_keyswitching ≡ true)
      × (extract_object seal.load_keys raw ≡ ok k)
      × (seal.keys_valid k ≡ true)

  abbrev pub KeysFail : Exception → RawKeys seal → Type 0
  KeysFail e raw = (seal.using_keyswitching ≡ true) × (extract_object seal.load_keys raw ≡ err e)

  extract_all_lem :
      (cs : List (RawCiphertext seal))
      → ((e : Exception) × (extract_all seal cs ≡ err e) × SomeFails e cs)
        ⊎ (((ts : List seal.Ciphertext) × (extract_all seal cs ≡ ok (some ts)) × AllTaken cs ts)
            ⊎ ((extract_all seal cs ≡ ok none) × ((ts : List seal.Ciphertext) → ¬ AllTaken cs ts)))
  unfolding extract_all
  extract_all_lem [] = inr (inl ([], refl, tt))
  extract_all_lem (c ∷ cs) = elim (Result-cases (extract seal c)) [
    | inl (e, run) ↦ inl (e, rw run refl, inl run)
    | inr (t, run) ↦ elim (Bool-cases (seal.ciphertext_valid t)) [
      | inr bad ↦ inr (inr (rw (run, bad) refl, no_head c cs t run bad))
      | inl good ↦ elim (extract_all_lem cs) [
        | inl (e, more, fails) ↦ inl (e, rw (run, good, more) refl, inr fails)
        | inr (inl (ts, more, taken)) ↦
            inr (inl (t ∷ ts, rw (run, good, more) refl, (run, good, taken)))
        | inr (inr (more, never)) ↦ inr (inr (rw (run, good, more) refl, no_tail c cs never))
      ]
    ]
  ]
    where
      no_head :
          (c : RawCiphertext seal) (cs : List (RawCiphertext seal)) (t : seal.Ciphertext)
          → extract seal c ≡ ok t
          → seal.ciphertext_valid t ≡ false
          → (ts : List seal.Ciphertext) → ¬ AllTaken (c ∷ cs) ts
      no_head c cs t run bad [] h = h
      no_head c cs t run bad (u ∷ ts) (run', good, h) =
          let same : t ≡ u = ok_injective (sym run ∙ run') in
          let e : false ≡ true =
            sym bad ∙ ap (λ (z : seal.Ciphertext). seal.ciphertext_valid z) same ∙ good in
          cc e

      no_tail :
          (c : RawCiphertext seal) (cs : List (RawCiphertext seal))
          → ((ts : List seal.Ciphertext) → ¬ AllTaken cs ts)
          → (ts : List seal.Ciphertext) → ¬ AllTaken (c ∷ cs) ts
      no_tail c cs never [] h = h
      no_tail c cs never (u ∷ ts) (run', good, h) = never ts h

  pub extract_entries_lem :
      (raw : List (ℕ × List (RawCiphertext seal)))
      → ((e : Exception) × (extract_entries seal raw ≡ err e) × EntriesFail e raw)
        ⊎ ((r : Extracted seal) × (extract_entries seal raw ≡ ok r)
            × (((r.whole ≡ true) × EntriesTaken raw r.data_)
                ⊎ ((r.whole ≡ false)
                    × ((es : List (ℕ × List seal.Ciphertext)) → ¬ EntriesTaken raw es))))
  unfolding extract_entries
  extract_entries_lem [] = inr (record { data_ = []; whole = true }, refl, inl (refl, tt))
  extract_entries_lem ((p, cs) ∷ raw) = elim (extract_all_lem cs) [
    | inl (e, run, fails) ↦ inl (e, rw run refl, inl fails)
    | inr (inr (run, never)) ↦
        inr (record { data_ = []; whole = false }, rw run refl, inr (refl, no_head p cs raw never))
    | inr (inl (ts, run, taken)) ↦ elim (extract_entries_lem raw) [
      | inl (e, more, fails) ↦ inl (e, rw (run, more) refl, inr fails)
      | inr (r, more, how) ↦
          let r' : Extracted seal = record { data_ = (p, ts) ∷ r.data_; whole = r.whole } in
          inr (
            r',
            rw (run, more) refl,
            elim how [
              | inl (whole, rest) ↦ inl (whole, (refl, taken, rest))
              | inr (cut, never) ↦ inr (cut, no_tail p cs raw never)
            ],
          )
    ]
  ]
    where
      no_head :
          (p : ℕ) (cs : List (RawCiphertext seal)) (raw : List (ℕ × List (RawCiphertext seal)))
          → ((ts : List seal.Ciphertext) → ¬ AllTaken cs ts)
          → (es : List (ℕ × List seal.Ciphertext)) → ¬ EntriesTaken ((p, cs) ∷ raw) es
      no_head p cs raw never [] h = h
      no_head p cs raw never ((q, ts) ∷ es) (same, taken, rest) = never ts taken

      no_tail :
          (p : ℕ) (cs : List (RawCiphertext seal)) (raw : List (ℕ × List (RawCiphertext seal)))
          → ((es : List (ℕ × List seal.Ciphertext)) → ¬ EntriesTaken raw es)
          → (es : List (ℕ × List seal.Ciphertext)) → ¬ EntriesTaken ((p, cs) ∷ raw) es
      no_tail p cs raw never [] h = h
      no_tail p cs raw never ((q, ts) ∷ es) (same, taken, rest) = never es rest

  pub extract_keys_lem :
      (raw : RawKeys seal)
      → ((e : Exception) × (extract_keys seal raw ≡ err e) × KeysFail e raw)
        ⊎ ((ks : Option seal.Keys) × (extract_keys seal raw ≡ ok ks)
            × (((keys_accepted seal ks ≡ true) × KeysTaken raw ks)
                ⊎ ((keys_accepted seal ks ≡ false) × (¬ KeysTaken raw ks))))
  unfolding extract_keys
  extract_keys_lem raw = elim (Bool-cases seal.using_keyswitching) [
    | inr off ↦ inr (none, rw off refl, inl (refl, off))
    | inl on ↦ elim (Result-cases (extract_object seal.load_keys raw)) [
      | inl (e, run) ↦ inl (e, rw (on, run) refl, (on, run))
      | inr (k, run) ↦ inr (
        some k,
        rw (on, run) refl,
        elim (Bool-cases (seal.keys_valid k)) [
          | inl good ↦ inl (good, (on, run, good))
          | inr bad ↦ inr (bad, λ h. let e : false ≡ true = sym bad ∙ h.2 in cc e)
        ],
      )
    ]
  ]
