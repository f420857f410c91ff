-- ===== src/BinBundle/Cache/Polynomials.antt =====
-- What the cache of a bundle holds once it is regenerated.
use u_psu.Common.{
  ℕ, zero, suc, ◌+◌, ◌%◌, ◌≡◌, ◌<◌, refl, sym, ap, ◌∙◌, true, false, List, [], ◌∷◌, get_or, length,
  arith, Bool-cases, inl, inr,
}
use mathlib.Core.Path.{subst}
use u_psu.Common.Sets.{contains}
use u_psu.Common.Results.{ok_injective, ok}
use u_psu.Interpolate.{Modulus, IsModulus, polyn_with_roots}
use u_psu.Interpolate.Roots.{value_at, polyn_with_roots_lem, polyn_with_roots-root}
use u_psu.BinBundle.{BinBundle, FeltCache, bin_at}
use u_psu.BinBundle.Edit.{clear_cache, get_cache}
use u_psu.BinBundle.Cache.{matching_polyns, all_interp_polyns, regen_polyns, regen_cache}

module _ {F : Type 0} (m : Modulus) (laws : IsModulus m) (h : 1 < m.value) where
  matching_polyns_lem :
      (b : BinBundle F) (count i : ℕ)
      → (fmps : List (List ℕ)) × (matching_polyns m b count i ≡ ok fmps)
        × (length fmps ≡ count)
        × ((k : ℕ) → k < count → polyn_with_roots m (bin_at b (i + k)) ≡ ok (get_or fmps k []))
  unfolding matching_polyns
  matching_polyns_lem b zero i = ([], refl, refl, λ k lt. absurd (omega arith))
  matching_polyns_lem b (suc count) i =
      let (fmp, run, size, one, value) = polyn_with_roots_lem m (bin_at b i) 0 laws h in
      let (rest, runs, sizes, each) = matching_polyns_lem b count (i + 1) in
      (fmp ∷ rest, rw (run, runs) refl, ap suc sizes, all fmp rest run each)
    where
      all :
          (fmp : List ℕ) (rest : List (List ℕ))
          → polyn_with_roots m (bin_at b i) ≡ ok fmp
          → ((k : ℕ)
              → k < count
              → polyn_with_roots m (bin_at b (i + 1 + k)) ≡ ok (get_or rest k []))
          → (k : ℕ) → k < suc count
          → polyn_with_roots m (bin_at b (i + k)) ≡ ok (get_or (fmp ∷ rest) k [])
      all fmp rest run each zero lt = let e : i + 0 ≡ i = omega arith in rw e run
      all fmp rest run each (suc k) lt =
          let e : i + suc k ≡ i + 1 + k = omega arith in rw e (each k (omega arith))

  regen_polyns_lem :
      (b : BinBundle F)
      → b.label_size ≡ 0
      → (fmps : List (List ℕ)) × (regen_polyns m b
          ≡ ok (record b { cache = record { matching = fmps; interp = [] } }))
        × (length fmps ≡ b.num_bins)
        × ((k : ℕ) → k < b.num_bins → polyn_with_roots m (bin_at b k) ≡ ok (get_or fmps k []))
  unfolding regen_polyns all_interp_polyns
  regen_polyns_lem b unlabeled =
      let (fmps, run, size, each) = matching_polyns_lem b b.num_bins 0 in
      let none : all_interp_polyns m b b.label_size 0 ≡ ok [] =
        ap (λ (n : ℕ). all_interp_polyns m b n 0) unlabeled in
      (
        fmps,
        rw (run, none) refl,
        size,
        λ k lt.
            let e : 0 + k ≡ k = omega arith in
            subst (λ (i : ℕ). polyn_with_roots m (bin_at b i) ≡ ok (get_or fmps k [])) e
              (each k lt),
      )

-- What `regen_cache` keeps.
pub record IsRegenerated {F : Type 0} (b b' : BinBundle F) : Type 0 where
  pub items : b'.item_bins ≡ b.item_bins
  pub labels : b'.label_bins ≡ b.label_bins
  pub filters : b'.filters ≡ b.filters
  pub stripped : b'.stripped ≡ b.stripped
  pub label_size : b'.label_size ≡ b.label_size
  pub max_bin_size : b'.max_bin_size ≡ b.max_bin_size
  pub num_bins : b'.num_bins ≡ b.num_bins
  pub valid : b'.cache_invalid ≡ false

pub regen_cache-IsRegenerated :
    {F : Type 0} (m : Modulus) (b : BinBundle F)
    → IsModulus m
    → 1 < m.value
    → b.label_size ≡ 0
    → (b' : BinBundle F) × (regen_cache m b ≡ ok b') × IsRegenerated b b'
unfolding regen_cache clear_cache
regen_cache-IsRegenerated m b laws h unlabeled = elim (Bool-cases b.cache_invalid) [
  | inr valid ↦ (
    b,
    simp valid,
    record {
      items = refl;
      labels = refl;
      filters = refl;
      stripped = refl;
      label_size = refl;
      max_bin_size = refl;
      num_bins = refl;
      valid = valid;
    },
  )
  | inl stale ↦
      let (fmps, run, size, each) = regen_polyns_lem m laws h (clear_cache b) unlabeled in
      (
        record (clear_cache b) {
          cache = record { matching = fmps; interp = [] };
          cache_invalid = false;
        },
        simp (stale, run),
        record {
          items = refl;
          labels = refl;
          filters = refl;
          stripped = refl;
          label_size = refl;
          max_bin_size = refl;
          num_bins = refl;
          valid = refl;
        },
      )
]

-- Regenerating a stale cache of an unlabeled bundle ends without an exception. The cache can then
-- be read; it has one polynomial for each bin, the one that `polyn_with_roots` gives for the items
-- of the bin, so that each item of the bin below the modulus is a root.
pub regen_cache-get_cache :
    {F : Type 0} (m : Modulus) (b : BinBundle F) (i x : ℕ)
    → IsModulus m
    → 1 < m.value
    → b.cache_invalid ≡ true
    → b.label_size ≡ 0
    → i < b.num_bins
    → contains (bin_at b i) x ≡ true
    → x < m.value
    → (b' : BinBundle F) × (c : FeltCache) × (regen_cache m b ≡ ok b')
      × (get_cache b' ≡ ok c)
      × (length c.matching ≡ b.num_bins)
      × (polyn_with_roots m (bin_at b i) ≡ ok (get_or c.matching i []))
      × (value_at (get_or c.matching i []) x % m.value ≡ 0)
unfolding regen_cache clear_cache get_cache
regen_cache-get_cache m b i x laws h stale unlabeled lt member small =
    let (fmps, run, size, each) = regen_polyns_lem m laws h (clear_cache b) unlabeled in
    let (polyn, made, root) = polyn_with_roots-root m (bin_at b i) x laws h small member in
    let same : polyn ≡ get_or fmps i [] = ok_injective (sym made ∙ each i lt) in
    let cache : FeltCache = record { matching = fmps; interp = [] } in
    (
      record (clear_cache b) { cache = cache; cache_invalid = false },
      cache,
      simp (stale, run),
      refl,
      size,
      each i lt,
      ap (λ (p : List ℕ). value_at p x % m.value) (sym same) ∙ root,
    )
