-- ===== src/Benes/Masked/Evaluate.antt =====
-- Masked evaluation of inputs that are masked.
use u_psu.Common.{
  ℕ, zero, suc, ◌+◌, ◌-◌, ◌*◌, ◌/◌, ◌^◌, ◌≡◌, ◌≤◌, refl, sym, ap, ◌∙◌, some, List, [], ◌∷◌, ◌==◌,
  if◌then◌else◌, length, arith,
}
use native.Mathlib.Nat.{pow-suc}
use u_psu.Benes.{Switches, exchange, base, gen_benes_eval}
use u_psu.Benes.Halves.{IsBinary, route, join, split-eq-route, merge-eq-join}
use u_psu.Benes.Perm.{length-route-lower, length-route-upper, length-join, eval_step}
use u_psu.Benes.Masked.{
  Blocks, OtOutput, masked_switch, base_masked, gen_benes_masked_evaluate, mask_inputs,
}
use u_psu.Benes.Masked.Linear.{
  mask_pairs, turned, mask_pairs-mask_inputs, length-mask_pairs, split_masked-eq, merge_masked-eq,
  length-mask_inputs, route-mask_inputs, join-mask_inputs, masked_switch-xor,
}

module _ (bl : Blocks) (sw : Switches) (ot : OtOutput bl) where
  -- The halves behind the first level, and what the last level makes of two halves.
  abbrev pub first_level : ℕ → ℕ → List bl.Block → List bl.Block × List bl.Block
  first_level lvl idx src =
      route (λ k. sw lvl (idx + k)) 0 (mask_pairs bl (λ k. ot lvl (idx + k)) 0 src)

  abbrev pub last_level : ℕ → ℕ → List bl.Block → List bl.Block → List bl.Block
  last_level lvl idx bottom top =
      mask_pairs bl (turned bl sw ot lvl idx) 0 (join (λ k. sw lvl (idx + k)) 0 bottom top)

  -- One level, in terms of the results of the halves.
  pub masked_step :
      (n lvl idx : ℕ) (src bottom top : List bl.Block)
      → IsBinary sw
      → 4 ≤ length src
      → length src ≤ 2 ^ suc n
      → gen_benes_masked_evaluate bl sw ot n (lvl + 1) idx (first_level lvl idx src).0 ≡ some bottom
      → gen_benes_masked_evaluate bl sw ot n
          (lvl + 1)
          (idx + length src / 4)
          (first_level lvl idx src).1
        ≡ some top
      → length bottom ≡ length src / 2
      → length top ≡ (length src + 1) / 2
      → gen_benes_masked_evaluate bl sw ot (suc n) lvl idx src
        ≡ some (last_level (lvl + (2 * suc n - 1) - 1) idx bottom top)
  unfolding gen_benes_masked_evaluate base_masked
  masked_step n lvl idx [] bottom top bin long bits eb et lb lt = absurd (omega arith)
  masked_step n lvl idx (_ ∷ []) bottom top bin long bits eb et lb lt = absurd (omega arith)
  masked_step n lvl idx (_ ∷ _ ∷ []) bottom top bin long bits eb et lb lt = absurd (omega arith)
  masked_step n lvl idx (_ ∷ _ ∷ _ ∷ []) bottom top bin long bits eb et lb lt = absurd (omega arith)
  masked_step n lvl idx (a ∷ b ∷ c ∷ d ∷ rest) bottom top bin long bits eb et lb lt =
      let src : List bl.Block = a ∷ b ∷ c ∷ d ∷ rest in
      let masked = mask_pairs bl (λ k. ot lvl (idx + k)) 0 src in
      let same = length-mask_pairs bl (λ k. ot lvl (idx + k)) 0 src in
      let halves =
        split_masked-eq bl sw ot (suc n) lvl idx (length src) 0 src ([], [])
        ∙ split-eq-route sw n lvl idx (length src) 0 masked ([], []) bin (omega arith) bits in
      let count : length src / 2 ≡ length bottom = sym lb in
      let last =
        merge_masked-eq bl sw ot (suc n) (lvl + (2 * suc n - 1) - 1) idx (length src)
          (length bottom) 0 bottom top in
      let joined =
        merge-eq-join sw n (lvl + (2 * suc n - 1) - 1) idx (length src) 0 [] [] bottom top bin refl
          refl (omega arith) (omega arith) bits in
      rw (halves, eb, et, count) (last ∙ rw joined refl)

-- What the theorem below states of one run.
abbrev Masking :
    (bl : Blocks) → Switches → OtOutput bl → ℕ → ℕ → ℕ → List bl.Block → List bl.Block → Type 0
Masking bl sw ot n lvl idx src d =
    (out routed : List bl.Block) × (gen_benes_masked_evaluate bl sw ot n lvl idx src ≡ some out)
    × (gen_benes_eval sw n lvl idx d ≡ some routed)
    × (gen_benes_masked_evaluate bl sw ot n lvl idx (mask_inputs bl src d)
        ≡ some (mask_inputs bl out routed))
    × (length out ≡ length src)
    × (length routed ≡ length d)

Masking-step :
    (bl : Blocks) (sw : Switches) (ot : OtOutput bl) (n lvl idx : ℕ) (src d : List bl.Block)
    → IsBinary sw
    → 4 ≤ length src
    → length src ≤ 2 ^ suc n
    → length d ≡ length src
    → Masking bl sw ot n
        (lvl + 1)
        idx
        (first_level bl sw ot lvl idx src).0
        (route (λ k. sw lvl (idx + k)) 0 d).0
    → Masking bl sw ot n
        (lvl + 1)
        (idx + length src / 4)
        (first_level bl sw ot lvl idx src).1
        (route (λ k. sw lvl (idx + k)) 0 d).1
    → Masking bl sw ot (suc n) lvl idx src d
Masking-step bl sw ot n lvl idx src d bin four bits h (ob, rb, mb, eb, xb, lob, lrb)
      (ot', rt, mt, et, xt, lot, lrt) =
    let s : ℕ → ℕ = λ k. sw lvl (idx + k) in
    let m : ℕ → bl.Block × bl.Block = λ k. ot lvl (idx + k) in
    let last = lvl + (2 * suc n - 1) - 1 in
    let s' : ℕ → ℕ = λ k. sw last (idx + k) in
    let masked = mask_pairs bl m 0 src in
    let len = length-mask_pairs bl m 0 src in
    let low = length-route-lower s 0 masked in
    let up = length-route-upper s 0 masked in
    let low_d = length-route-lower s 0 d in
    let up_d = length-route-upper s 0 d in
    let both = mask_inputs bl src d in
    let len_both = length-mask_inputs bl src d h in
    let halves : first_level bl sw ot lvl idx both ≡ (
      mask_inputs bl (route s 0 masked).0 (route s 0 d).0,
      mask_inputs bl (route s 0 masked).1 (route s 0 d).1,
    ) =
      ap (route s 0) (mask_pairs-mask_inputs bl m 0 src d h)
      ∙ route-mask_inputs bl s 0 masked d (omega arith) in
    let joined = join-mask_inputs bl s' 0 ob rb ot' rt (omega arith) (omega arith) in
    let out_len = length-join s' 0 ob ot' in
    let routed_len = length-join s' 0 rb rt in
    let out = join s' 0 ob ot' in
    let out_masked = length-mask_pairs bl (turned bl sw ot last idx) 0 out in
    let lb = length-mask_inputs bl ob rb (omega arith) in
    let lt = length-mask_inputs bl ot' rt (omega arith) in
    let xb' : gen_benes_masked_evaluate bl sw ot n (lvl + 1) idx
          (first_level bl sw ot lvl idx both).0
        ≡ some (mask_inputs bl ob rb) =
      rw halves xb in
    let xt' : gen_benes_masked_evaluate bl sw ot n (lvl + 1) (idx + length both / 4)
          (first_level bl sw ot lvl idx both).1
        ≡ some (mask_inputs bl ot' rt) =
      rw (halves, len_both) xt in
    let et' : gen_benes_eval sw n (lvl + 1) (idx + length d / 4) (route s 0 d).1 ≡ some rt =
      rw h et in
    (
      mask_pairs bl (turned bl sw ot last idx) 0 out,
      join s' 0 rb rt,
      masked_step bl sw ot n lvl idx src ob ot' bin four bits mb mt (omega arith) (omega arith),
      eval_step sw n lvl idx d rb rt bin (omega arith) (omega arith) eb et' (omega arith)
          (omega arith),
      masked_step bl sw ot n lvl idx both (mask_inputs bl ob rb) (mask_inputs bl ot' rt) bin
            (omega arith) (omega arith) xb' xt' (omega arith) (omega arith)
          ∙ ap some (
              ap (mask_pairs bl (turned bl sw ot last idx) 0) joined
              ∙ mask_pairs-mask_inputs bl (turned bl sw ot last idx) 0 out (join s' 0 rb rt)
                  (omega arith)),
      omega arith,
      omega arith,
    )

-- The masked evaluation is linear: with switches of value 0 or 1 and between 2 and 2^n blocks it
-- ends, and masking the input with `masks` adds to the result the evaluation of `masks`.
pub masked_evaluate-mask_inputs :
    (bl : Blocks) (sw : Switches) (ot : OtOutput bl) (n lvl idx : ℕ) (src d : List bl.Block)
    → IsBinary sw
    → 2 ≤ length src
    → length src ≤ 2 ^ n
    → length d ≡ length src
    → (out routed : List bl.Block) × (gen_benes_masked_evaluate bl sw ot n lvl idx src ≡ some out)
      × (gen_benes_eval sw n lvl idx d ≡ some routed)
      × (gen_benes_masked_evaluate bl sw ot n lvl idx (mask_inputs bl src d)
          ≡ some (mask_inputs bl out routed))
      × (length out ≡ length src)
      × (length routed ≡ length d)
unfolding gen_benes_masked_evaluate base_masked gen_benes_eval base mask_inputs
masked_evaluate-mask_inputs bl sw ot zero lvl idx src d bin two bits h = absurd (omega arith)
masked_evaluate-mask_inputs bl sw ot (suc n) lvl idx [] d bin two bits h = absurd (omega arith)
masked_evaluate-mask_inputs bl sw ot (suc n) lvl idx (_ ∷ []) d bin two bits h =
    absurd (omega arith)
masked_evaluate-mask_inputs bl sw ot (suc n) lvl idx (a ∷ b ∷ src) [] bin two bits h =
    absurd (omega arith)
masked_evaluate-mask_inputs bl sw ot (suc n) lvl idx (a ∷ b ∷ src) (_ ∷ []) bin two bits h =
    absurd (omega arith)
masked_evaluate-mask_inputs bl sw ot (suc n) lvl idx (a ∷ b ∷ []) (x ∷ y ∷ []) bin two bits h = (
  _,
  _,
  refl,
  refl,
  rw (masked_switch-xor bl sw ot (if suc n == 1 then lvl else lvl + 1) idx a b x y) refl,
  refl,
  refl,
)
masked_evaluate-mask_inputs bl sw ot (suc n) lvl idx (a ∷ b ∷ []) (x ∷ y ∷ _ ∷ d) bin two bits h =
    absurd (omega arith)
masked_evaluate-mask_inputs bl sw ot (suc n) lvl idx (a ∷ b ∷ c ∷ src) (x ∷ y ∷ []) bin two bits h =
    absurd (omega arith)
masked_evaluate-mask_inputs bl sw ot (suc n) lvl idx (a ∷ b ∷ c ∷ []) (x ∷ y ∷ z ∷ []) bin two bits
      h =
    (
      _,
      _,
      refl,
      refl,
      rw
          (
            masked_switch-xor bl sw ot lvl idx a b x y,
            masked_switch-xor bl sw ot (lvl + 1) idx (masked_switch bl sw ot lvl idx a b).1 c
                (exchange (sw lvl idx) x y).1 z,
            masked_switch-xor bl sw ot (lvl + 2) idx _ _ _ _,
          )
          refl,
      refl,
      refl,
    )
masked_evaluate-mask_inputs bl sw ot (suc n) lvl idx (a ∷ b ∷ c ∷ []) (x ∷ y ∷ z ∷ _ ∷ d) bin two
      bits h =
    absurd (omega arith)
masked_evaluate-mask_inputs bl sw ot (suc n) lvl idx (a ∷ b ∷ c ∷ _ ∷ src) (x ∷ y ∷ z ∷ []) bin two
      bits h =
    absurd (omega arith)
masked_evaluate-mask_inputs bl sw ot (suc n) lvl idx (a ∷ b ∷ c ∷ e ∷ src) (x ∷ y ∷ z ∷ w ∷ d) bin
      two bits h =
    let src' : List bl.Block = a ∷ b ∷ c ∷ e ∷ src in
    let d' : List bl.Block = x ∷ y ∷ z ∷ w ∷ d in
    let s : ℕ → ℕ = λ k. sw lvl (idx + k) in
    let masked = mask_pairs bl (λ k. ot lvl (idx + k)) 0 src' in
    let len = length-mask_pairs bl (λ k. ot lvl (idx + k)) 0 src' in
    let low = length-route-lower s 0 masked in
    let up = length-route-upper s 0 masked in
    let low_d = length-route-lower s 0 d' in
    let up_d = length-route-upper s 0 d' in
    let half = pow-suc 2 n in
    Masking-step bl sw ot n lvl idx src' d' bin (omega arith) bits h
      (masked_evaluate-mask_inputs bl sw ot n (lvl + 1) idx (route s 0 masked).0 (route s 0 d').0
        bin (omega arith) (omega arith) (omega arith))
      (masked_evaluate-mask_inputs bl sw ot n (lvl + 1) (idx + length src' / 4) (route s 0 masked).1
        (route s 0 d').1 bin (omega arith) (omega arith) (omega arith))
