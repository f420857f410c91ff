-- ===== src/Workers/Insertion.antt =====
-- The insertion of items without labels into the bundles of a database.
use u_psu.Common.{
  ℕ, ◌+◌, ◌≡◌, ◌<◌, ◌≤◌, refl, ◌⊎◌, inl, inr, Bool, true, false, List, [], ◌∷◌, ◌++◌, length,
  Bool-cases,
}
use u_psu.Common.Results.{ok}
use u_psu.BinBundle.{FilterOps, BinBundle}
use u_psu.Workers.{unlabeled_calls, Layout, write_bundle, write_set, insert_or_assign_one}
use u_psu.Workers.Room.{Grows, HoldsAll, IsBundle, IsUnlabeled, try_insert_lem, insert_new_lem}

module _ {F : Type 0} where
  abbrev pub AllBundles : Layout → List (BinBundle F) → Type 0
  AllBundles layout [] = Unit
  AllBundles layout (b ∷ bundles) = IsBundle layout b × AllBundles layout bundles

  -- Some bundle of the set holds the data.
  abbrev pub IsHeld : List ℕ → ℕ → List (BinBundle F) → Type 0
  IsHeld d i [] = ⊥
  IsHeld d i (b ∷ bundles) = HoldsAll b d i ⊎ IsHeld d i bundles

  -- What the set holds, the next one holds.
  abbrev pub SetGrows : List (BinBundle F) → List (BinBundle F) → Type 0
  SetGrows s s' = (d : List ℕ) (i : ℕ) → IsHeld d i s → IsHeld d i s'

  Grows-HoldsAll :
      (b b' : BinBundle F) (d : List ℕ) (i : ℕ) → Grows b b' → HoldsAll b d i → HoldsAll b' d i
  Grows-HoldsAll b b' d i g h k x e = g (i + k) x (h k x e)

  IsHeld-append :
      (d : List ℕ) (i : ℕ) (s : List (BinBundle F)) (b : BinBundle F)
      → IsHeld d i s ⊎ HoldsAll b d i
      → IsHeld d i (s ++ b ∷ [])
  IsHeld-append d i [] b (inl h) = absurd h
  IsHeld-append d i [] b (inr h) = inl h
  IsHeld-append d i (c ∷ s) b (inl (inl h)) = inl h
  IsHeld-append d i (c ∷ s) b (inl (inr h)) = inr (IsHeld-append d i s b (inl h))
  IsHeld-append d i (c ∷ s) b (inr h) = inr (IsHeld-append d i s b (inr h))

  AllBundles-append :
      (layout : Layout) (s : List (BinBundle F)) (b : BinBundle F)
      → AllBundles layout s
      → IsBundle layout b
      → AllBundles layout (s ++ b ∷ [])
  AllBundles-append layout [] b h g = (g, tt)
  AllBundles-append layout (c ∷ s) b (h, hs) g = (h, AllBundles-append layout s b hs g)

module _ {F : Type 0} (ops : FilterOps F) (layout : Layout) (plain : IsUnlabeled layout) where
  module _ (d : List ℕ) (i : ℕ) (pos : 0 < length d)
      (fits : i + length d ≤ layout.bins_per_bundle) where
    write_set_lem :
        (s : List (BinBundle F))
        → AllBundles layout s
        → (written : Bool) × (s' : List (BinBundle F)) × (write_set
              (unlabeled_calls ops)
              false
              layout.max_bin_size
              d
              i
              s
            ≡ ok (written, s'))
          × AllBundles layout s'
          × SetGrows s s'
          × (written ≡ true → IsHeld d i s')
    unfolding write_set write_bundle
    write_set_lem [] h = (false, [], refl, tt, λ d i e. e, λ w. cc w)
    write_set_lem (b ∷ s) (h, hs) =
        let (written, s', run, all, grows, held) = write_set_lem s hs in
        elim (Bool-cases written) [
          | inl t ↦ (
            true,
            b ∷ s',
            rw (run, t) refl,
            (h, all),
            λ d' i' e. elim e [ inl e ↦ inl e | inr e ↦ inr (grows d' i' e) ],
            λ w. inr (held t),
          )
          | inr t ↦
              let (done, b', run', h', g, holds) =
                try_insert_lem ops layout plain d i pos fits b h in
              (
                done,
                b' ∷ s',
                rw (run, t, run') refl,
                (h', all),
                λ d' i' e. elim e [
                  | inl e ↦ inl (Grows-HoldsAll b b' d' i' g e)
                  | inr e ↦ inr (grows d' i' e)
                ],
                λ w. inl (holds w),
              )
        ]

    pub insert_or_assign_one_lem :
        (s : List (BinBundle F))
        → AllBundles layout s
        → (s' : List (BinBundle F)) × (insert_or_assign_one ops
              (unlabeled_calls ops)
              layout
              false
              d
              i
              s
            ≡ ok s')
          × AllBundles layout s'
          × SetGrows s s'
          × IsHeld d i s'
    unfolding insert_or_assign_one
    insert_or_assign_one_lem s h =
        let (written, s', run, all, grows, held) = write_set_lem s h in
        elim (Bool-cases written) [
          | inl t ↦ (s', rw (run, t) refl, all, grows, held t)
          | inr t ↦
              let (b, run', hb, holds) = insert_new_lem ops layout plain d i pos fits in
              (
                s' ++ b ∷ [],
                rw (run, t, run') refl,
                AllBundles-append layout s' b all hb,
                λ d' i' e. IsHeld-append d' i' s' b (inl (grows d' i' e)),
                IsHeld-append d i s' b (inr holds),
              )
        ]
