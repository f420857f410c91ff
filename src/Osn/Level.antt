-- ===== src/Osn/Level.antt =====
-- The loops over the first and the last level of a network.
use u_psu.Common.{
  ℕ, suc, ◌+◌, ◌*◌, ◌/◌, List, [], ◌∷◌, ◌==◌, length, ◌≡◌, refl, ap, ◌∙◌, inl, inr, arith, ◌<◌, ◌≤◌,
  Bool-cases,
}
use u_psu.Benes.{Switches, exchange}
use u_psu.Benes.Halves.{IsBinary, route, join}
use u_psu.Benes.Masked.{Blocks, OtOutput, masked_switch}
use u_psu.Benes.Masked.Linear.{mask_pairs, turned}
use u_psu.Osn.{Store, correction, correct_switch, correct_first, correct_last}
use u_psu.Osn.Switch.{shared, masked_switch-correction, turned-correction}
use u_psu.Osn.Frame.{
  IsFramed, IsShared, correct_switch-IsFramed, correct_switch-blocks, IsFramed-refl, IsFramed-trans,
  IsShared-middle,
}

module _ {ℓ} {A : Type ℓ} where
  route-cons :
      (s : ℕ → ℕ) (k : ℕ) (a b : A) (src : List A)
      → route s k (a ∷ b ∷ src) ≡ (
        (exchange (s k) a b).0 ∷ (route s (k + 1) src).0,
        (exchange (s k) a b).1 ∷ (route s (k + 1) src).1,
      )
  unfolding route exchange
  route-cons s k a b src = elim (Bool-cases (s k == 1)) [ inl t ↦ rw t refl | inr t ↦ rw t refl ]

  join-cons :
      (s : ℕ → ℕ) (k : ℕ) (a b : A) (bottom top : List A)
      → join s k (a ∷ bottom) (b ∷ top)
        ≡ (exchange (s k) a b).0 ∷ (exchange (s k) a b).1 ∷ join s (k + 1) bottom top
  unfolding join exchange
  join-cons s k a b bottom top = elim (Bool-cases (s k == 1)) [
    | inl t ↦ rw t refl
    | inr t ↦ rw t refl
  ]

module _ (bl : Blocks) (half lvl idx : ℕ) where
  pub correct_first-IsFramed :
      (k : ℕ) (src : List bl.Block) (st : Store bl)
      → idx + k + length src / 2 ≤ half
      → IsFramed bl half lvl 1
          (idx + k)
          (length src / 2)
          st
          (correct_first bl half lvl idx k src st).1
  unfolding correct_first
  correct_first-IsFramed k [] st h = IsFramed-refl bl half lvl 1 (idx + k) 0 st
  correct_first-IsFramed k (a ∷ []) st h = IsFramed-refl bl half lvl 1 (idx + k) 0 st
  correct_first-IsFramed k (a ∷ b ∷ src) st h =
      let next = (correct_switch bl st (lvl * half + (idx + k)) a b).1 in
      IsFramed-trans bl half lvl 1 (idx + k) 1 lvl 1 (idx + (k + 1)) (length src / 2) lvl 1
        (idx + k) (length (a ∷ b ∷ src) / 2) st next _
        (correct_switch-IsFramed bl half lvl (idx + k) st a b (omega arith))
        (correct_first-IsFramed (k + 1) src next (omega arith))
        (λ l j out. (ground arith, ground arith))

  pub correct_last-IsFramed :
      (k : ℕ) (bottom top : List bl.Block) (st : Store bl)
      → idx + k + length bottom ≤ half
      → IsFramed bl half lvl 1
          (idx + k)
          (length bottom)
          st
          (correct_last bl half lvl idx k bottom top st).1
  unfolding correct_last
  correct_last-IsFramed k [] top st h = IsFramed-refl bl half lvl 1 (idx + k) 0 st
  correct_last-IsFramed k (a ∷ bottom) [] st h =
      IsFramed-refl bl half lvl 1 (idx + k) (length (a ∷ bottom)) st
  correct_last-IsFramed k (a ∷ bottom) (b ∷ top) st h =
      let next = (correct_switch bl st (lvl * half + (idx + k)) a b).1 in
      IsFramed-trans bl half lvl 1 (idx + k) 1 lvl 1 (idx + (k + 1)) (length bottom) lvl 1 (idx + k)
        (length (a ∷ bottom)) st next _
        (correct_switch-IsFramed bl half lvl (idx + k) st a b (omega arith))
        (correct_last-IsFramed (k + 1) bottom top next (omega arith))
        (λ l j out. (ground arith, ground arith))

  -- A loop's first switch and its rest, where the rest leaves the first one alone.
  IsShared-head :
      (sw : Switches) (ot : OtOutput bl) (k w w' : ℕ) (st st' : Store bl) (a b : bl.Block)
      → idx + k < half
      → 0 < w
      → IsFramed bl half lvl 1
          (idx + (k + 1))
          w'
          (correct_switch bl st (lvl * half + (idx + k)) a b).1
          st'
      → IsShared bl half sw ot lvl 1 (idx + k) w st st'
      → ot lvl (idx + k)
        ≡ shared bl
            (sw lvl (idx + k))
            (st.messages (lvl * half + (idx + k)))
            (correction bl (st.messages (lvl * half + (idx + k))) a b)
  IsShared-head sw ot k w w' st st' a b h pos f e =
      let first = e.entry lvl (idx + k) (record {
        from_level = omega arith;
        to_level = omega arith;
        from_position = omega arith;
        to_position = omega arith;
      }) in
      let (_, kept) = f.frame lvl (idx + k) h (inr (inr (inl (omega arith)))) in
      first
      ∙ ap (λ c. shared bl (sw lvl (idx + k)) (st.messages (lvl * half + (idx + k))) c)
          (kept ∙ correct_switch-blocks bl half (lvl * half + (idx + k)) st a b)

  IsShared-tail :
      (sw : Switches) (ot : OtOutput bl) (k w w' : ℕ) (st st' : Store bl) (a b : bl.Block)
      → idx + k + w ≤ half
      → w ≡ suc w'
      → IsShared bl half sw ot lvl 1 (idx + k) w st st'
      → IsShared bl half sw ot lvl 1
          (idx + (k + 1))
          w'
          (correct_switch bl st (lvl * half + (idx + k)) a b).1
          st'
  IsShared-tail sw ot k w w' st st' a b h same e =
      let f = correct_switch-IsFramed bl half lvl (idx + k) st a b (omega arith) in
      IsShared-middle bl half sw ot lvl 1 (idx + k) w lvl 1 (idx + (k + 1)) w' st
        (correct_switch bl st (lvl * half + (idx + k)) a b).1 st' st' e
        (λ l j i. record {
          from_level = i.from_level;
          to_level = i.to_level;
          from_position = omega (arith, i.from_position);
          to_position = omega (arith, i.to_position);
        })
        (λ l j i.
          (f.frame l j (omega (arith, i.to_position))
            (inr (inr (inr (omega (arith, i.from_position)))))).0)
        (λ l j i. refl)

  first_pair :
      (sw : Switches) (ot : OtOutput bl) (k : ℕ) (a b : bl.Block) (src : List bl.Block)
      (w : bl.Block × bl.Block) (halves : List bl.Block × List bl.Block)
      → masked_switch bl sw ot lvl (idx + k) a b ≡ w
      → route (λ k. sw lvl (idx + k)) (k + 1) (mask_pairs bl (λ k. ot lvl (idx + k)) (k + 1) src)
        ≡ halves
      → route (λ k. sw lvl (idx + k)) k (mask_pairs bl (λ k. ot lvl (idx + k)) k (a ∷ b ∷ src))
        ≡ (w.0 ∷ halves.0, w.1 ∷ halves.1)
  unfolding mask_pairs masked_switch
  first_pair sw ot k a b src w halves gate rest =
      route-cons (λ k. sw lvl (idx + k)) k _ _ _ ∙ rw (gate, rest) refl

  last_pair :
      (sw : Switches) (ot : OtOutput bl) (k : ℕ) (a b : bl.Block) (bottom top : List bl.Block)
      (w0 w1 : bl.Block) (r : List bl.Block)
      → bl.xor (exchange (sw lvl (idx + k)) a b).0 (turned bl sw ot lvl idx k).0 ≡ w0
      → bl.xor (exchange (sw lvl (idx + k)) a b).1 (turned bl sw ot lvl idx k).1 ≡ w1
      → mask_pairs bl
          (turned bl sw ot lvl idx)
          (k + 1)
          (join (λ k. sw lvl (idx + k)) (k + 1) bottom top)
        ≡ r
      → mask_pairs bl
          (turned bl sw ot lvl idx)
          k
          (join (λ k. sw lvl (idx + k)) k (a ∷ bottom) (b ∷ top))
        ≡ w0 ∷ w1 ∷ r
  unfolding mask_pairs
  last_pair sw ot k a b bottom top w0 w1 r upper lower rest =
      ap (mask_pairs bl (turned bl sw ot lvl idx) k)
        (join-cons (λ k. sw lvl (idx + k)) k a b bottom top)
      ∙ rw (upper, lower, rest) refl

  pub correct_first-route :
      (sw : Switches) (ot : OtOutput bl) (k : ℕ) (src : List bl.Block) (st : Store bl)
      → IsBinary sw
      → idx + k + length src / 2 ≤ half
      → IsShared bl half sw ot lvl 1
          (idx + k)
          (length src / 2)
          st
          (correct_first bl half lvl idx k src st).1
      → route (λ k. sw lvl (idx + k)) k (mask_pairs bl (λ k. ot lvl (idx + k)) k src)
        ≡ (correct_first bl half lvl idx k src st).0
  unfolding correct_first mask_pairs route correct_switch
  correct_first-route sw ot k [] st bin h e = refl
  correct_first-route sw ot k (a ∷ []) st bin h e = refl
  correct_first-route sw ot k (a ∷ b ∷ src) st bin h e =
      let i = lvl * half + (idx + k) in
      let next = (correct_switch bl st i a b).1 in
      let st' = (correct_first bl half lvl idx (k + 1) src next).1 in
      let w : ℕ = length (a ∷ b ∷ src) / 2 in
      let head =
        IsShared-head sw ot k w (length src / 2) st st' a b (omega arith) (omega arith)
          (correct_first-IsFramed (k + 1) src next (omega arith)) e in
      let gate = masked_switch-correction bl sw ot lvl (idx + k) (st.messages i) a b bin head in
      let rest =
        correct_first-route sw ot (k + 1) src next bin (omega arith)
          (IsShared-tail sw ot k w (length src / 2) st st' a b (omega arith) (omega arith) e) in
      first_pair sw ot k a b src _ _ gate rest

  pub correct_last-join :
      (sw : Switches) (ot : OtOutput bl) (k : ℕ) (bottom top : List bl.Block) (st : Store bl)
      → IsBinary sw
      → idx + k + length bottom ≤ half
      → length bottom ≤ length top
      → length top ≤ length bottom + 1
      → IsShared bl half sw ot lvl 1
          (idx + k)
          (length bottom)
          st
          (correct_last bl half lvl idx k bottom top st).1
      → mask_pairs bl (turned bl sw ot lvl idx) k (join (λ k. sw lvl (idx + k)) k bottom top)
        ≡ (correct_last bl half lvl idx k bottom top st).0
  unfolding correct_last mask_pairs join correct_switch
  correct_last-join sw ot k [] [] st bin h le ge e = refl
  correct_last-join sw ot k [] (b ∷ []) st bin h le ge e = refl
  correct_last-join sw ot k [] (b ∷ c ∷ top) st bin h le ge e = absurd (omega arith)
  correct_last-join sw ot k (a ∷ bottom) [] st bin h le ge e = absurd (omega arith)
  correct_last-join sw ot k (a ∷ bottom) (b ∷ top) st bin h le ge e =
      let i = lvl * half + (idx + k) in
      let next = (correct_switch bl st i a b).1 in
      let st' = (correct_last bl half lvl idx (k + 1) bottom top next).1 in
      let head =
        IsShared-head sw ot k (length (a ∷ bottom)) (length bottom) st st' a b (omega arith)
          (omega arith) (correct_last-IsFramed (k + 1) bottom top next (omega arith)) e in
      let (upper, lower) =
        turned-correction bl (sw lvl (idx + k)) (ot lvl (idx + k)) (st.messages i) a b
          (bin lvl (idx + k)) head in
      let rest =
        correct_last-join sw ot (k + 1) bottom top next bin (omega arith) (omega arith)
          (omega arith)
          (IsShared-tail sw ot k (length (a ∷ bottom)) (length bottom) st st' a b (omega arith)
            (omega arith) e) in
      last_pair sw ot k a b bottom top _ _ _ upper lower rest
