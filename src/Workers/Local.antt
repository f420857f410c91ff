-- ===== src/Workers/Local.antt =====
-- A worker reads and writes the bundles at its own index only.
use u_psu.Common.{
  ℕ, zero, suc, ◌≡◌, ◌≢◌, ◌<◌, refl, sym, ap, ◌∙◌, inl, inr, List, [], ◌∷◌, ◌==◌, if◌then◌else◌,
  length, get_or, set, arith, length-set, get_or-set_self, Bool-cases, ==→eq,
}
use u_psu.Common.Results.{Result, ok, err, ◌>>=◌}
use u_psu.BinBundle.{BinBundle}
use u_psu.Workers.{unpack_cuckoo_idx, for_bundle}

pub set-get_or {ℓ} : {A : Type ℓ} (xs : List A) (i : ℕ) (d : A) → set xs i (get_or xs i d) ≡ xs
set-get_or [] i d = refl
set-get_or (x ∷ xs) zero d = refl
set-get_or (x ∷ xs) (suc i) d = ap (λ zs. x ∷ zs) (set-get_or xs i d)

pub set-set {ℓ} : {A : Type ℓ} (xs : List A) (i : ℕ) (a b : A) → set (set xs i a) i b ≡ set xs i b
set-set [] i a b = refl
set-set (x ∷ xs) zero a b = refl
set-set (x ∷ xs) (suc i) a b = ap (λ zs. x ∷ zs) (set-set xs i a b)

pub set-swap {ℓ} :
    {A : Type ℓ} (xs : List A) (i j : ℕ) (a b : A)
    → i ≢ j
    → set (set xs i a) j b ≡ set (set xs j b) i a
set-swap [] i j a b h = refl
set-swap (x ∷ xs) zero zero a b h = absurd (h refl)
set-swap (x ∷ xs) zero (suc j) a b h = refl
set-swap (x ∷ xs) (suc i) zero a b h = refl
set-swap (x ∷ xs) (suc i) (suc j) a b h =
    ap (λ zs. x ∷ zs) (set-swap xs i j a b (λ e. h (ap suc e)))

module _ {F T : Type 0} (one : T → ℕ → List (BinBundle F) → Result (List (BinBundle F)))
    (bins bundle_index : ℕ) where
  -- The loop on the bundles at the index of the worker alone.
  unfoldable pub on_set : List (T × ℕ) → List (BinBundle F) → Result (List (BinBundle F))
  on_set [] bundles = ok bundles
  on_set ((d, cuckoo_idx) ∷ rest) bundles =
      (if (unpack_cuckoo_idx cuckoo_idx bins).1 == bundle_index
        then one d (unpack_cuckoo_idx cuckoo_idx bins).0 bundles
        else ok bundles)
      >>= λ bundles'. on_set rest bundles'

  bind-set-set :
      (bin_bundles : List (List (BinBundle F))) (s : List (BinBundle F))
      (r : Result (List (BinBundle F)))
      → (r >>= λ s'. ok (set (set bin_bundles bundle_index s) bundle_index s'))
        ≡ (r >>= λ s'. ok (set bin_bundles bundle_index s'))
  bind-set-set bin_bundles s (err e) = refl
  bind-set-set bin_bundles s (ok s') =
      ap (λ (bs : List (List (BinBundle F))). ok bs) (set-set bin_bundles bundle_index s s')

  -- One entry that belongs to the worker.
  for_bundle_step :
      (items : List (T × ℕ)) (bin_bundles : List (List (BinBundle F)))
      (r : Result (List (BinBundle F)))
      → bundle_index < length bin_bundles
      → ((bs : List (List (BinBundle F)))
          → bundle_index < length bs
          → for_bundle one bins bundle_index items bs
            ≡ (on_set items (get_or bs bundle_index []) >>= λ s. ok (set bs bundle_index s)))
      → ((r >>= λ s. ok (set bin_bundles bundle_index s)) >>= λ bs.
          for_bundle one bins bundle_index items bs)
        ≡ ((r >>= λ s. on_set items s) >>= λ s. ok (set bin_bundles bundle_index s))
  for_bundle_step items bin_bundles (err e) h ih = refl
  for_bundle_step items bin_bundles (ok s) h ih =
      ih (set bin_bundles bundle_index s) (omega (arith, length-set bin_bundles bundle_index s))
      ∙ bind-set-set bin_bundles s
          (on_set items (get_or (set bin_bundles bundle_index s) bundle_index []))
      ∙ ap
          (λ (z : List (BinBundle F)).
            on_set items z >>= λ s'. ok (set bin_bundles bundle_index s'))
          (get_or-set_self bin_bundles bundle_index s [] h)

  pub for_bundle-on_set :
      (items : List (T × ℕ)) (bin_bundles : List (List (BinBundle F)))
      → bundle_index < length bin_bundles
      → for_bundle one bins bundle_index items bin_bundles ≡ (
          on_set items (get_or bin_bundles bundle_index []) >>= λ s.
          ok (set bin_bundles bundle_index s))
  unfolding for_bundle on_set
  for_bundle-on_set [] bin_bundles h =
      ap (λ (bs : List (List (BinBundle F))). ok bs) (sym (set-get_or bin_bundles bundle_index []))
  for_bundle-on_set ((d, c) ∷ items) bin_bundles h =
      let bin_idx = (unpack_cuckoo_idx c bins).0 in
      elim (Bool-cases ((unpack_cuckoo_idx c bins).1 == bundle_index)) [
        | inr other ↦ rw other (for_bundle-on_set items bin_bundles h)
        | inl mine ↦
            let same = ==→eq (unpack_cuckoo_idx c bins).1 bundle_index mine in
            rw (mine, same)
              (for_bundle_step items bin_bundles
                (one d bin_idx (get_or bin_bundles bundle_index [])) h (for_bundle-on_set items))
      ]
