-- ===== src/Benes/Masked/Linear.antt =====
-- How the masked evaluation depends on its input.
use u_psu.Common.{
  ℕ, zero, suc, ◌+◌, ◌-◌, ◌*◌, ◌/◌, ◌%◌, ◌≡◌, refl, sym, ap, ◌∙◌, inl, inr, Option, none, some,
  List, [], ◌∷◌, ◌==◌, length, get_elem?, arith, Bool-cases, Option-cases,
}
use u_psu.Common.Options.{◌>>=◌}
use u_psu.Benes.{Switches, split, merge, exchange, pick, position}
use u_psu.Benes.Halves.{route, join}
use u_psu.Benes.Masked.{
  Blocks, OtOutput, choose, masked_switch, split_masked, merge_masked, mask_inputs,
}

module _ (bl : Blocks) where
  xor_right_comm : (a d m : bl.Block) → bl.xor (bl.xor a d) m ≡ bl.xor (bl.xor a m) d
  xor_right_comm a d m =
      bl.xor_assoc a d m ∙ ap (λ x. bl.xor a x) (bl.xor_comm d m) ∙ sym (bl.xor_assoc a m d)

  -- The masks `m` from pair `k` on.
  unfoldable pub mask_pairs : (ℕ → bl.Block × bl.Block) → ℕ → List bl.Block → List bl.Block
  mask_pairs m k [] = []
  mask_pairs m k (a ∷ []) = a ∷ []
  mask_pairs m k (a ∷ b ∷ src) = bl.xor a (m k).0 ∷ bl.xor b (m k).1 ∷ mask_pairs m (k + 1) src

  pub length-mask_pairs :
      (m : ℕ → bl.Block × bl.Block) (k : ℕ) (src : List bl.Block)
      → length (mask_pairs m k src) ≡ length src
  unfolding mask_pairs
  length-mask_pairs m k [] = refl
  length-mask_pairs m k (a ∷ []) = refl
  length-mask_pairs m k (a ∷ b ∷ src) = let rest = length-mask_pairs m (k + 1) src in omega arith

  pub split_masked-eq :
      (sw : Switches) (ot : OtOutput bl) (n lvl idx values k : ℕ) (src : List bl.Block)
      (p : List bl.Block × List bl.Block)
      → split_masked bl sw ot n lvl idx values (2 * k) src p
        ≡ split sw n lvl idx values (2 * k) (mask_pairs (λ k. ot lvl (idx + k)) k src) p
  unfolding split_masked split mask_pairs
  split_masked-eq sw ot n lvl idx values k [] p = refl
  split_masked-eq sw ot n lvl idx values k (a ∷ []) p = refl
  split_masked-eq sw ot n lvl idx values k (a ∷ b ∷ src) p =
      let half : 2 * k / 2 ≡ k = omega arith in
      let next : 2 * k + 2 ≡ 2 * (k + 1) = omega arith in
      rw (half, next) (split_masked-eq sw ot n lvl idx values (k + 1) src _)

  -- The masks behind the last level, in the order that the switches give them.
  abbrev pub turned : Switches → OtOutput bl → ℕ → ℕ → ℕ → bl.Block × bl.Block
  turned sw ot lvl idx k = (
    choose bl (sw lvl (idx + k)) (ot lvl (idx + k)),
    choose bl (1 - sw lvl (idx + k)) (ot lvl (idx + k)),
  )

  chain :
      (a b : Option bl.Block) (r : Option (List bl.Block)) (m : ℕ → bl.Block × bl.Block) (k : ℕ)
      → (a >>= λ x. b >>= λ y. r >>= (λ l. some (mask_pairs m (k + 1) l)) >>= λ rest.
          some (bl.xor x (m k).0 ∷ bl.xor y (m k).1 ∷ rest))
        ≡ ((a >>= λ x. b >>= λ y. r >>= λ rest. some (x ∷ y ∷ rest)) >>= λ l.
            some (mask_pairs m k l))
  unfolding mask_pairs
  chain none b r m k = refl
  chain (some x) none r m k = refl
  chain (some x) (some y) none m k = refl
  chain (some x) (some y) (some r) m k = refl

  pub merge_masked-eq :
      (sw : Switches) (ot : OtOutput bl) (n lvl idx values pairs k : ℕ) (bottom top : List bl.Block)
      → merge_masked bl sw ot n lvl idx values pairs (2 * k) bottom top ≡ (
          merge sw n lvl idx values pairs (2 * k) bottom top >>= λ r.
          some (mask_pairs (turned sw ot lvl idx) k r))
  unfolding merge_masked merge mask_pairs
  merge_masked-eq sw ot n lvl idx values zero k bottom top = elim (Bool-cases (values % 2 == 1)) [
    | inl t ↦ rw t (elim (Option-cases (get_elem? top ((values + 1) / 2 - 1))) [
      | inl e ↦ rw e refl
      | inr (x, e) ↦ rw e refl
    ])
    | inr t ↦ rw t refl
  ]
  merge_masked-eq sw ot n lvl idx values (suc pairs) k bottom top =
      let half : 2 * k / 2 ≡ k = omega arith in
      let next : 2 * k + 2 ≡ 2 * (k + 1) = omega arith in
      let rest = merge_masked-eq sw ot n lvl idx values pairs (k + 1) bottom top in
      rw (half, next, rest)
        (chain (pick values (position n (2 * k) 0 (sw lvl (idx + k))) k bottom top)
          (pick values (position n (2 * k) 1 (sw lvl (idx + k))) k bottom top)
          (merge sw n lvl idx values pairs (2 * (k + 1)) bottom top) (turned sw ot lvl idx) k)

  pub length-mask_inputs :
      (src d : List bl.Block) → length d ≡ length src → length (mask_inputs bl src d) ≡ length src
  unfolding mask_inputs
  length-mask_inputs [] d h = refl
  length-mask_inputs (a ∷ src) [] h = absurd (omega arith)
  length-mask_inputs (a ∷ src) (x ∷ d) h =
      let rest = length-mask_inputs src d (omega arith) in omega arith

  pub mask_pairs-mask_inputs :
      (m : ℕ → bl.Block × bl.Block) (k : ℕ) (src d : List bl.Block)
      → length d ≡ length src
      → mask_pairs m k (mask_inputs bl src d) ≡ mask_inputs bl (mask_pairs m k src) d
  unfolding mask_pairs mask_inputs
  mask_pairs-mask_inputs m k [] d h = refl
  mask_pairs-mask_inputs m k (a ∷ src) [] h = absurd (omega arith)
  mask_pairs-mask_inputs m k (a ∷ []) (x ∷ []) h = refl
  mask_pairs-mask_inputs m k (a ∷ []) (x ∷ y ∷ d) h = absurd (omega arith)
  mask_pairs-mask_inputs m k (a ∷ b ∷ src) (x ∷ []) h = absurd (omega arith)
  mask_pairs-mask_inputs m k (a ∷ b ∷ src) (x ∷ y ∷ d) h =
      rw
        (
          xor_right_comm a x (m k).0,
          xor_right_comm b y (m k).1,
          mask_pairs-mask_inputs m (k + 1) src d (omega arith),
        )
        refl

  pub route-mask_inputs :
      (s : ℕ → ℕ) (k : ℕ) (src d : List bl.Block)
      → length d ≡ length src
      → route s k (mask_inputs bl src d) ≡ (
        mask_inputs bl (route s k src).0 (route s k d).0,
        mask_inputs bl (route s k src).1 (route s k d).1,
      )
  unfolding route mask_inputs
  route-mask_inputs s k [] [] h = refl
  route-mask_inputs s k [] (x ∷ d) h = absurd (omega arith)
  route-mask_inputs s k (a ∷ src) [] h = absurd (omega arith)
  route-mask_inputs s k (a ∷ []) (x ∷ []) h = refl
  route-mask_inputs s k (a ∷ []) (x ∷ y ∷ d) h = absurd (omega arith)
  route-mask_inputs s k (a ∷ b ∷ src) (x ∷ []) h = absurd (omega arith)
  route-mask_inputs s k (a ∷ b ∷ src) (x ∷ y ∷ d) h =
      let rest = route-mask_inputs s (k + 1) src d (omega arith) in
      elim (Bool-cases (s k == 1)) [ inl t ↦ rw (t, rest) refl | inr t ↦ rw (t, rest) refl ]

  pub join-mask_inputs :
      (s : ℕ → ℕ) (k : ℕ) (b b' t t' : List bl.Block)
      → length b' ≡ length b
      → length t' ≡ length t
      → join s k (mask_inputs bl b b') (mask_inputs bl t t')
        ≡ mask_inputs bl (join s k b t) (join s k b' t')
  unfolding join mask_inputs
  join-mask_inputs s k [] [] t t' h g = refl
  join-mask_inputs s k [] (_ ∷ _) t t' h g = absurd (omega arith)
  join-mask_inputs s k (_ ∷ _) [] t t' h g = absurd (omega arith)
  join-mask_inputs s k (x ∷ b) (x' ∷ b') [] [] h g = refl
  join-mask_inputs s k (x ∷ b) (x' ∷ b') [] (_ ∷ _) h g = absurd (omega arith)
  join-mask_inputs s k (x ∷ b) (x' ∷ b') (_ ∷ _) [] h g = absurd (omega arith)
  join-mask_inputs s k (x ∷ b) (x' ∷ b') (y ∷ t) (y' ∷ t') h g =
      let rest = join-mask_inputs s (k + 1) b b' t t' (omega arith) (omega arith) in
      elim (Bool-cases (s k == 1)) [ inl e ↦ rw (e, rest) refl | inr e ↦ rw (e, rest) refl ]

  pub masked_switch-xor :
      (sw : Switches) (ot : OtOutput bl) (lvl idx : ℕ) (a b d e : bl.Block)
      → masked_switch bl sw ot lvl idx (bl.xor a d) (bl.xor b e) ≡ (
        bl.xor (masked_switch bl sw ot lvl idx a b).0 (exchange (sw lvl idx) d e).0,
        bl.xor (masked_switch bl sw ot lvl idx a b).1 (exchange (sw lvl idx) d e).1,
      )
  unfolding masked_switch exchange
  masked_switch-xor sw ot lvl idx a b d e =
      let left = xor_right_comm a d (ot lvl idx).0 in
      let right = xor_right_comm b e (ot lvl idx).1 in
      elim (Bool-cases (sw lvl idx == 1)) [
        | inl t ↦ rw (t, left, right) refl
        | inr t ↦ rw (t, left, right) refl
      ]
