-- ===== src/Workers/Removal.antt =====
-- The removal of items from a set of bundles.
use u_psu.Common.{
  ℕ, ◌+◌, ◌≡◌, ◌<◌, ◌≤◌, refl, ◌∙◌, ◌⊎◌, inl, inr, true, false, List, [], ◌∷◌, length, arith,
  Bool-cases,
}
use u_psu.Common.Results.{ok, err, logic_error}
use u_psu.BinBundle.{FilterOps, BinBundle}
use u_psu.BinBundle.Effect.{IsWellFormed}
use u_psu.BinBundle.Edit.{is_empty}
use u_psu.BinBundle.Edit.Removed.{IsRemoved, IsMissing, try_multi_remove_lem}
use u_psu.Workers.{Layout, remove_set, drop_empty, remove_one}
use u_psu.Workers.Room.{IsBundle}
use u_psu.Workers.Insertion.{AllBundles}

-- No bundle of the set is empty.
abbrev pub NoneEmpty : {F : Type 0} → List (BinBundle F) → Type 0
NoneEmpty [] = Unit
NoneEmpty (b ∷ bundles) = (is_empty b ≡ false) × NoneEmpty bundles

drop_empty-NoneEmpty : {F : Type 0} (s : List (BinBundle F)) → NoneEmpty (drop_empty s)
unfolding drop_empty
drop_empty-NoneEmpty [] = tt
drop_empty-NoneEmpty (b ∷ s) = elim (Bool-cases (is_empty b)) [
  | inl t ↦ rw t (drop_empty-NoneEmpty s)
  | inr t ↦ rw t (t, drop_empty-NoneEmpty s)
]

drop_empty-AllBundles :
    {F : Type 0} (layout : Layout) (s : List (BinBundle F))
    → AllBundles layout s
    → AllBundles layout (drop_empty s)
unfolding drop_empty
drop_empty-AllBundles layout [] h = tt
drop_empty-AllBundles layout (b ∷ s) (h, hs) = elim (Bool-cases (is_empty b)) [
  | inl t ↦ rw t (drop_empty-AllBundles layout s hs)
  | inr t ↦ rw t (h, drop_empty-AllBundles layout s hs)
]

module _ {F : Type 0} (ops : FilterOps F) (layout : Layout) where
  -- One bundle of the set lost the items, and the others are as they were.
  abbrev pub IsRemovedFrom : List ℕ → ℕ → List (BinBundle F) → List (BinBundle F) → Type 0
  IsRemovedFrom d i [] s' = ⊥
  IsRemovedFrom d i (b ∷ s) [] = ⊥
  IsRemovedFrom d i (b ∷ s) (b' ∷ s') =
      (IsRemoved d i b b' × (s' ≡ s)) ⊎ ((b' ≡ b) × IsRemovedFrom d i s s')

  -- From each bundle of the set some item is missing.
  abbrev pub AllMissing : List ℕ → ℕ → List (BinBundle F) → Type 0
  AllMissing d i [] = Unit
  AllMissing d i (b ∷ s) = IsMissing ops d i b × AllMissing d i s

  IsRemoved-IsBundle :
      (d : List ℕ) (i : ℕ) (b b' : BinBundle F)
      → IsBundle layout b
      → IsRemoved d i b b'
      → IsWellFormed b'
      → IsBundle layout b'
  IsRemoved-IsBundle d i b b' h gone formed = record {
    formed = formed;
    open_ = gone.stripped ∙ h.open_;
    label_size = gone.label_size ∙ h.label_size;
    num_bins = gone.num_bins ∙ h.num_bins;
    bound = λ j. omega (arith, gone.smaller j, h.bound j);
  }

  module _ (d : List ℕ) (i : ℕ) (pos : 0 < length d)
      (fits : i + length d ≤ layout.bins_per_bundle) where
    remove_set_lem :
        (s : List (BinBundle F))
        → AllBundles layout s
        → ((remove_set ops layout.bins_per_bundle d i s ≡ ok (false, s)) × AllMissing d i s)
          ⊎ ((s' : List (BinBundle F)) × (remove_set ops layout.bins_per_bundle d i s
                ≡ ok (true, s'))
              × AllBundles layout s'
              × IsRemovedFrom d i s s')
    unfolding remove_set
    remove_set_lem [] h = inl (refl, tt)
    remove_set_lem (b ∷ s) (h, hs) =
        elim (try_multi_remove_lem ops d i b h.formed h.open_ pos (omega (arith, h.num_bins))) [
          | inr (b', run, gone, formed) ↦ inr (
            b' ∷ s,
            rw run refl,
            (IsRemoved-IsBundle d i b b' h gone formed, hs),
            inl (gone, refl),
          )
          | inl (missing, why) ↦ elim (remove_set_lem s hs) [
            | inl (rest, all) ↦ inl (rw (missing, rest) refl, (why, all))
            | inr (s', run, all, gone) ↦
                inr (b ∷ s', rw (missing, run) refl, (h, all), inr (refl, gone))
          ]
        ]

    -- The removal of one entry from the set at its index, where the bundles are well-formed and the
    -- range lies within them: either from each bundle an item is missing, from its bin or from the
    -- filter of the bin, and `logic_error` is thrown, or exactly one bundle loses it, once in each
    -- bin. Behind it, the bundles are well-formed, with the bins below the bound, and none of them
    -- is empty.
    pub remove_one_lem :
        (s : List (BinBundle F))
        → AllBundles layout s
        → ((remove_one ops layout.bins_per_bundle d i s ≡ err logic_error) × AllMissing d i s)
          ⊎ ((s' : List (BinBundle F)) × IsRemovedFrom d i s s'
              × (remove_one ops layout.bins_per_bundle d i s ≡ ok (drop_empty s'))
              × AllBundles layout (drop_empty s')
              × NoneEmpty (drop_empty s'))
    unfolding remove_one
    remove_one_lem s h = elim (remove_set_lem s h) [
      | inl (missing, all) ↦ inl (rw missing refl, all)
      | inr (s', run, all, gone) ↦
          inr (s', gone, rw run refl, drop_empty-AllBundles layout s' all, drop_empty-NoneEmpty s')
    ]
