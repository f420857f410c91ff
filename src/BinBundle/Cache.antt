-- ===== src/BinBundle/Cache.antt =====
-- The polynomials in the cache of a BinBundle, and stripping, of receiver/apsu/bin_bundle.cpp.
-- The tasks of regen_polyns run one after the other. The SEAL plaintexts that regen_plaintexts
-- makes of the polynomials are not modelled.
pub mod Polynomials
use u_psu.Common.{ℕ, zero, suc, ◌+◌, Bool, true, false, List, [], ◌∷◌, if◌then◌else◌, get_or}
use u_psu.Common.Results.{Result, ok, ◌>>=◌}
use u_psu.Interpolate.{Modulus, polyn_with_roots}
use u_psu.Interpolate.Newton.{newton_interpolate_polyn}
use u_psu.BinBundle.{BinBundle, bin_at}
use u_psu.BinBundle.Edit.{clear_cache}

module _ {F : Type 0} (m : Modulus) where
  -- The matching polynomials of `count` bins from bin `i` on.
  unfoldable pub matching_polyns : BinBundle F → ℕ → ℕ → Result (List (List ℕ))
  matching_polyns b zero i = ok []
  matching_polyns b (suc count) i = polyn_with_roots m (bin_at b i) >>= λ fmp.
      matching_polyns b count (i + 1) >>= λ rest. ok (fmp ∷ rest)

  -- The label polynomials of `count` bins from bin `i` on.
  unfoldable pub interp_polyns : BinBundle F → List (List ℕ) → ℕ → ℕ → Result (List (List ℕ))
  interp_polyns b labels zero i = ok []
  interp_polyns b labels (suc count) i =
      newton_interpolate_polyn m (bin_at b i) (get_or labels i []) >>= λ fip.
      interp_polyns b labels count (i + 1) >>= λ rest. ok (fip ∷ rest)

  -- The label polynomials of `count` label parts from part `l` on.
  unfoldable pub all_interp_polyns : BinBundle F → ℕ → ℕ → Result (List (List (List ℕ)))
  unfolding interp_polyns
  all_interp_polyns b zero l = ok []
  all_interp_polyns b (suc count) l =
      interp_polyns b (get_or b.label_bins l []) b.num_bins 0 >>= λ part.
      all_interp_polyns b count (l + 1) >>= λ rest. ok (part ∷ rest)

  unfoldable pub regen_polyns : BinBundle F → Result (BinBundle F)
  unfolding matching_polyns all_interp_polyns
  regen_polyns b = matching_polyns b b.num_bins 0 >>= λ fmps.
      all_interp_polyns b b.label_size 0 >>= λ fips.
      ok (record b { cache = record { matching = fmps; interp = fips } })

  unfoldable pub regen_cache : BinBundle F → Result (BinBundle F)
  unfolding clear_cache regen_polyns
  regen_cache b =
      if b.cache_invalid
      then (regen_polyns (clear_cache b) >>= λ b'. ok (record b' { cache_invalid = false }))
      else ok b

  unfoldable pub strip : BinBundle F → Result (BinBundle F)
  unfolding regen_cache
  strip b = regen_cache b >>= λ b'. ok (record b' {
    stripped = true;
    item_bins = [];
    label_bins = [];
    filters = [];
    cache = record { matching = []; interp = [] };
  })
