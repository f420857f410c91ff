-- ===== src/ReceiverDb/Caches.antt =====
-- The bundles of a database behind generate_caches.
use u_psu.Common.{
  ℕ, zero, suc, ◌+◌, ◌≡◌, ◌<◌, refl, sym, ap, ◌∙◌, inl, inr, false, List, [], ◌∷◌, get_or, length,
}
use mathlib.Core.Path.{subst}
use u_psu.Common.Results.{ok}
use u_psu.Interpolate.{Modulus, IsModulus}
use u_psu.BinBundle.{BinBundle, bin_at}
use u_psu.BinBundle.Effect.{IsWellFormed}
use u_psu.BinBundle.Cache.{regen_cache}
use u_psu.BinBundle.Cache.Polynomials.{IsRegenerated, regen_cache-IsRegenerated}
use u_psu.Workers.{Layout}
use u_psu.Workers.Room.{IsBundle, HoldsAll}
use u_psu.Workers.Insertion.{AllBundles, SetGrows}
use u_psu.Workers.Dispatch.{AllSets, AllGrow}
use u_psu.ReceiverDb.{each_bundle, each_set}

module _ {F : Type 0} where
  -- Each of the caches can be read.
  abbrev pub AllValid : List (BinBundle F) → Type 0
  AllValid [] = Unit
  AllValid (b ∷ bundles) = (b.cache_invalid ≡ false) × AllValid bundles

  same_bin : (b b' : BinBundle F) (i : ℕ) → IsRegenerated b b' → bin_at b' i ≡ bin_at b i
  same_bin b b' i h = ap (λ (bins : List (List ℕ)). get_or bins i []) h.items

  IsRegenerated-IsWellFormed :
      (b b' : BinBundle F) → IsRegenerated b b' → IsWellFormed b → IsWellFormed b'
  IsRegenerated-IsWellFormed b b' h g = record {
    item_count = ap length h.items ∙ g.item_count ∙ sym h.num_bins;
    filter_count = ap length h.filters ∙ g.filter_count ∙ sym h.num_bins;
    label_count = ap length h.labels ∙ g.label_count ∙ sym h.label_size;
    label_bin_count = λ l lt.
        rw (h.labels, h.num_bins) (g.label_bin_count l (subst (λ (n : ℕ). l < n) h.label_size lt));
    parallel = λ l i lt.
        rw (h.labels, same_bin b b' i h)
          (g.parallel l i (subst (λ (n : ℕ). l < n) h.label_size lt));
  }

  IsRegenerated-IsBundle :
      (layout : Layout) (b b' : BinBundle F)
      → IsRegenerated b b'
      → IsBundle layout b
      → IsBundle layout b'
  IsRegenerated-IsBundle layout b b' h g = record {
    formed = IsRegenerated-IsWellFormed b b' h g.formed;
    open_ = h.stripped ∙ g.open_;
    label_size = h.label_size ∙ g.label_size;
    num_bins = h.num_bins ∙ g.num_bins;
    bound = λ i. rw (same_bin b b' i h) (g.bound i);
  }

  IsRegenerated-HoldsAll :
      (b b' : BinBundle F) (d : List ℕ) (i : ℕ)
      → IsRegenerated b b'
      → HoldsAll b d i
      → HoldsAll b' d i
  IsRegenerated-HoldsAll b b' d i h g k x e = rw (same_bin b b' (i + k) h) (g k x e)

module _ {F : Type 0} (m : Modulus) (laws : IsModulus m) (large : 1 < m.value) (layout : Layout)
    (unlabeled : layout.label_size ≡ 0) where
  each_bundle_lem :
      (s : List (BinBundle F))
      → AllBundles layout s
      → (s' : List (BinBundle F)) × (each_bundle (regen_cache m) s ≡ ok s')
        × AllBundles layout s'
        × SetGrows s s'
        × AllValid s'
  unfolding each_bundle
  each_bundle_lem [] h = ([], refl, tt, λ d i e. e, tt)
  each_bundle_lem (b ∷ s) (h, hs) =
      let (b', run, same) = regen_cache-IsRegenerated m b laws large (h.label_size ∙ unlabeled) in
      let (s', runs, all, grows, valid) = each_bundle_lem s hs in
      (
        b' ∷ s',
        rw (run, runs) refl,
        (IsRegenerated-IsBundle layout b b' same h, all),
        λ d i e. elim e [
          | inl e ↦ inl (IsRegenerated-HoldsAll b b' d i same e)
          | inr e ↦ inr (grows d i e)
        ],
        (same.valid, valid),
      )

  pub each_set_lem :
      (sets : List (List (BinBundle F)))
      → AllSets layout sets
      → (sets' : List (List (BinBundle F))) × (each_set (regen_cache m) sets ≡ ok sets')
        × AllSets layout sets'
        × (length sets' ≡ length sets)
        × AllGrow sets sets'
        × ((j : ℕ) → AllValid (get_or sets' j []))
  unfolding each_set
  each_set_lem [] h = ([], refl, λ j. tt, refl, λ j d i e. e, λ j. tt)
  each_set_lem (s ∷ sets) h =
      let (s', run, all, grows, valid) = each_bundle_lem s (h 0) in
      let (sets', runs, alls, size, growss, valids) = each_set_lem sets (λ j. h (suc j)) in
      (
        s' ∷ sets',
        rw (run, runs) refl,
        at_head (λ s. AllBundles layout s) s' sets' all alls,
        ap suc size,
        grows_head s s' sets sets' grows growss,
        at_head (λ s. AllValid s) s' sets' valid valids,
      )
    where
      at_head :
          (P : List (BinBundle F) → Type 0) (s : List (BinBundle F))
          (sets : List (List (BinBundle F)))
          → P s
          → ((j : ℕ) → P (get_or sets j []))
          → (j : ℕ) → P (get_or (s ∷ sets) j [])
      at_head P s sets h hs zero = h
      at_head P s sets h hs (suc j) = hs j

      grows_head :
          (s s' : List (BinBundle F)) (sets sets' : List (List (BinBundle F)))
          → SetGrows s s'
          → AllGrow sets sets'
          → AllGrow (s ∷ sets) (s' ∷ sets')
      grows_head s s' sets sets' h hs zero = h
      grows_head s s' sets sets' h hs (suc j) = hs j
