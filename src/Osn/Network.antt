-- ===== src/Osn/Network.antt =====
-- The receiver's masks of the outputs, and the sender's evaluation of the masks of the inputs.
use u_psu.Common.{
  ℕ, suc, ◌+◌, ◌-◌, ◌*◌, ◌/◌, ◌^◌, some, List, [], ◌∷◌, length, ◌≡◌, refl, ap, ◌∙◌, inl, inr, arith,
  ◌<◌, ◌≤◌,
}
use u_psu.Benes.{Switches}
use u_psu.Benes.Halves.{IsBinary}
use u_psu.Benes.Masked.{Blocks, OtOutput, gen_benes_masked_evaluate}
use u_psu.Benes.Masked.Evaluate.{masked_step}
use u_psu.Osn.{Store, correct_switch, correct_first, correct_last, correct_base, prepare_correction}
use u_psu.Osn.Frame.{IsFramed, IsShared, IsWithin, IsShared-middle}
use u_psu.Osn.Level.{
  correct_first-IsFramed, correct_last-IsFramed, correct_first-route, correct_last-join,
}

module _ (bl : Blocks) (half : ℕ) where
  -- A run of `prepare_correction`, for any sender.
  pub record IsPrepared (n lvl idx : ℕ) (src out : List bl.Block) (st st' : Store bl) : Type 0 where
    pub run : prepare_correction bl half n lvl idx src st ≡ some (out, st')
    pub same_length : length out ≡ length src
    pub framed : IsFramed bl half lvl (2 * n - 1) idx (length src / 2) st st'
    pub evaluate :
        (sw : Switches) (ot : OtOutput bl)
        → IsBinary sw
        → IsShared bl half sw ot lvl (2 * n - 1) idx (length src / 2) st st'
        → gen_benes_masked_evaluate bl sw ot n lvl idx src ≡ some out

  pub length-correct_first :
      (lvl idx k : ℕ) (src : List bl.Block) (st : Store bl)
      → (length (correct_first bl half lvl idx k src st).0.0 ≡ length src / 2)
        × (length (correct_first bl half lvl idx k src st).0.1 ≡ (length src + 1) / 2)
  unfolding correct_first
  length-correct_first lvl idx k [] st = (omega arith, omega arith)
  length-correct_first lvl idx k (a ∷ []) st = (omega arith, omega arith)
  length-correct_first lvl idx k (a ∷ b ∷ src) st =
      let next = (correct_switch bl st (lvl * half + (idx + k)) a b).1 in
      let (low, up) = length-correct_first lvl idx (k + 1) src next in (omega arith, omega arith)

  length-correct_last :
      (lvl idx k : ℕ) (bottom top : List bl.Block) (st : Store bl)
      → length (correct_last bl half lvl idx k bottom top st).0 ≡ length bottom + length top
  unfolding correct_last
  length-correct_last lvl idx k [] top st = omega arith
  length-correct_last lvl idx k (a ∷ bottom) [] st = omega arith
  length-correct_last lvl idx k (a ∷ bottom) (b ∷ top) st =
      let next = (correct_switch bl st (lvl * half + (idx + k)) a b).1 in
      let rest = length-correct_last lvl idx (k + 1) bottom top next in omega arith

  -- One level, in terms of the runs for the halves.
  prepare_step :
      (n lvl idx : ℕ) (src bottom top : List bl.Block) (st st2 st3 : Store bl)
      → 4 ≤ length src
      → prepare_correction bl half n
          (lvl + 1)
          (idx + length src / 4)
          (correct_first bl half lvl idx 0 src st).0.1
          (correct_first bl half lvl idx 0 src st).1
        ≡ some (top, st2)
      → prepare_correction bl half n (lvl + 1) idx (correct_first bl half lvl idx 0 src st).0.0 st2
        ≡ some (bottom, st3)
      → prepare_correction bl half (suc n) lvl idx src st
        ≡ some (correct_last bl half (lvl + (2 * suc n - 1) - 1) idx 0 bottom top st3)
  unfolding prepare_correction correct_base
  prepare_step n lvl idx [] bottom top st st2 st3 long et eb = absurd (omega arith)
  prepare_step n lvl idx (_ ∷ []) bottom top st st2 st3 long et eb = absurd (omega arith)
  prepare_step n lvl idx (_ ∷ _ ∷ []) bottom top st st2 st3 long et eb = absurd (omega arith)
  prepare_step n lvl idx (_ ∷ _ ∷ _ ∷ []) bottom top st st2 st3 long et eb = absurd (omega arith)
  prepare_step n lvl idx (a ∷ b ∷ c ∷ d ∷ src) bottom top st st2 st3 long et eb = rw (et, eb) refl

  -- The runs of the two halves between the two loops.
  module _ (n lvl idx : ℕ) (src bottom top : List bl.Block) (st st2 st3 : Store bl)
      (four : 4 ≤ length src) (bits : length src ≤ 2 ^ suc n) (deep : 1 ≤ n)
      (room : idx + length src / 2 ≤ half)
      (ht : IsPrepared n
        (lvl + 1)
        (idx + length src / 4)
        (correct_first bl half lvl idx 0 src st).0.1
        top
        (correct_first bl half lvl idx 0 src st).1
        st2)
      (hb : IsPrepared n
        (lvl + 1)
        idx
        (correct_first bl half lvl idx 0 src st).0.0
        bottom
        st2
        st3) where
    abbrev last : ℕ
    last = lvl + (2 * suc n - 1) - 1

    abbrev st1 : Store bl
    st1 = (correct_first bl half lvl idx 0 src st).1

    abbrev done : List bl.Block × Store bl
    done = correct_last bl half last idx 0 bottom top st3

    lengths : (length bottom ≡ length src / 2) × (length top ≡ (length src + 1) / 2)
    lengths =
        let (low, up) = length-correct_first lvl idx 0 src st in
        (hb.same_length ∙ low, ht.same_length ∙ up)

    level_IsFramed : IsFramed bl half lvl (2 * suc n - 1) idx (length src / 2) st done.1
    level_IsFramed =
        let (low, up) = length-correct_first lvl idx 0 src st in
        let (lb, lt) = lengths in
        let f1 = correct_first-IsFramed bl half lvl idx 0 src st (omega arith) in
        let f4 = correct_last-IsFramed bl half last idx 0 bottom top st3 (omega arith) in
        record {
          frame = λ l k lt' out.
              let (m1, b1) = f1.frame l k lt' (ground arith) in
              let (m2, b2) = ht.framed.frame l k lt' (ground arith) in
              let (m3, b3) = hb.framed.frame l k lt' (ground arith) in
              let (m4, b4) = f4.frame l k lt' (ground arith) in
              (m4 ∙ m3 ∙ m2 ∙ m1, b4 ∙ b3 ∙ b2 ∙ b1);
        }

    level_evaluate :
        (sw : Switches) (ot : OtOutput bl)
        → IsBinary sw
        → IsShared bl half sw ot lvl (2 * suc n - 1) idx (length src / 2) st done.1
        → gen_benes_masked_evaluate bl sw ot (suc n) lvl idx src ≡ some done.0
    level_evaluate sw ot bin e =
        let (low, up) = length-correct_first lvl idx 0 src st in
        let (lb, lt) = lengths in
        let halves = (correct_first bl half lvl idx 0 src st).0 in
        let f1 = correct_first-IsFramed bl half lvl idx 0 src st (omega arith) in
        let f4 = correct_last-IsFramed bl half last idx 0 bottom top st3 (omega arith) in
        let e1 =
          IsShared-middle bl half sw ot lvl (2 * suc n - 1) idx (length src / 2) lvl 1 (idx + 0)
            (length src / 2) st st st1 done.1 e
            (λ l k i. inner l k i (omega arith) (omega arith) (omega arith) (omega arith))
            (λ l k i. refl)
            (λ l k i.
              let k' : k < half = omega (arith, i.to_position) in
              let lo = i.from_level in
              let hi = i.to_level in
              (f4.frame l k k' (inl (omega arith))).1
              ∙ (hb.framed.frame l k k' (inl (omega arith))).1
              ∙ (ht.framed.frame l k k' (inl (omega arith))).1) in
        let e2 =
          IsShared-middle bl half sw ot lvl (2 * suc n - 1) idx (length src / 2) (lvl + 1)
            (2 * n - 1) (idx + length src / 4) (length halves.1 / 2) st st1 st2 done.1 e
            (λ l k i. inner l k i (omega arith) (omega arith) (omega arith) (omega arith))
            (λ l k i.
              (f1.frame l k (omega (arith, i.to_position))
                (inr (inl (omega (arith, i.from_level))))).0)
            (λ l k i.
              let k' : k < half = omega (arith, i.to_position) in
              (f4.frame l k k' (inl (omega (arith, i.to_level)))).1
              ∙ (hb.framed.frame l k k' (inr (inr (inr (omega (arith, i.from_position)))))).1) in
        let e3 =
          IsShared-middle bl half sw ot lvl (2 * suc n - 1) idx (length src / 2) (lvl + 1)
            (2 * n - 1) idx (length halves.0 / 2) st st2 st3 done.1 e
            (λ l k i. inner l k i (omega arith) (omega arith) (omega arith) (omega arith))
            (λ l k i.
              let k' : k < half = omega (arith, i.to_position) in
              (ht.framed.frame l k k' (inr (inr (inl (omega (arith, i.to_position)))))).0
              ∙ (f1.frame l k k' (inr (inl (omega (arith, i.from_level))))).0)
            (λ l k i.
              (f4.frame l k (omega (arith, i.to_position)) (inl (omega (arith, i.to_level)))).1) in
        let e4 =
          IsShared-middle bl half sw ot lvl (2 * suc n - 1) idx (length src / 2) last 1 (idx + 0)
            (length bottom) st st3 done.1 done.1 e
            (λ l k i. inner l k i (omega arith) (omega arith) (omega arith) (omega arith))
            (λ l k i.
              let k' : k < half = omega (arith, i.to_position) in
              let lo = i.from_level in
              (hb.framed.frame l k k' (inr (inl (omega arith)))).0
              ∙ (ht.framed.frame l k k' (inr (inl (omega arith)))).0
              ∙ (f1.frame l k k' (inr (inl (omega arith)))).0)
            (λ l k i. refl) in
        let first = correct_first-route bl half lvl idx sw ot 0 src st bin (omega arith) e1 in
        let behind =
          correct_last-join bl half last idx sw ot 0 bottom top st3 bin (omega arith) (omega arith)
            (omega arith) e4 in
        masked_step bl sw ot n lvl idx src bottom top bin four bits
          (rw first (hb.evaluate sw ot bin e3)) (rw first (ht.evaluate sw ot bin e2)) lb lt
        ∙ ap some behind
      where
        inner :
            {l1 h1 i1 w1 : ℕ} (l k : ℕ)
            → IsWithin l1 h1 i1 w1 l k
            → lvl ≤ l1
            → l1 + h1 ≤ lvl + (2 * suc n - 1)
            → idx ≤ i1
            → i1 + w1 ≤ idx + length src / 2
            → IsWithin lvl (2 * suc n - 1) idx (length src / 2) l k
        inner l k i a b c d = record {
          from_level = omega (arith, i.from_level);
          to_level = omega (arith, i.to_level);
          from_position = omega (arith, i.from_position);
          to_position = omega (arith, i.to_position);
        }

    pub level_IsPrepared : IsPrepared (suc n) lvl idx src done.0 st done.1
    level_IsPrepared =
        let (lb, lt) = lengths in
        record {
          run = prepare_step n lvl idx src bottom top st st2 st3 four ht.run hb.run;
          same_length = omega (arith, length-correct_last last idx 0 bottom top st3);
          framed = level_IsFramed;
          evaluate = level_evaluate;
        }
