-- ===== src/Osn/Shares.antt =====
-- The shares of both parties.
use u_psu.Common.{
  ℕ, zero, suc, ◌+◌, ◌-◌, ◌*◌, ◌/◌, ◌^◌, some, List, [], ◌∷◌, ◌==◌, if◌then◌else◌, length, ◌≡◌,
  refl, sym, ap, ◌∙◌, inl, inr, arith, ◌<◌, ◌≤◌,
}
use native.Mathlib.Nat.{pow-suc}
use u_psu.Benes.{Switches, gen_benes_eval}
use u_psu.Benes.Halves.{IsBinary}
use u_psu.Benes.Perm.{gen_benes_eval-Perm}
use mathlib.Core.List.{Perm}
use mathlib.Core.Path.{subst}
use u_psu.Benes.Masked.{
  Blocks, OtOutput, masked_switch, base_masked, gen_benes_masked_evaluate, mask_inputs,
}
use u_psu.Benes.Masked.Evaluate.{masked_evaluate-mask_inputs}
use u_psu.Osn.{
  Store, correct_switch, correct_first, correct_base, prepare_correction, matrix_ot_output,
}
use u_psu.Osn.Switch.{shared, obtained, masked_switch-correction}
use u_psu.Osn.Frame.{IsWithin, correct_switch-IsFramed, correct_switch-blocks}
use u_psu.Osn.Network.{IsPrepared, level_IsPrepared, length-correct_first}

deep_enough : (n values : ℕ) → 3 ≤ values → values ≤ 2 ^ suc n → 1 ≤ n
deep_enough zero values h g = absurd (omega arith)
deep_enough (suc n) values h g = omega arith

module _ (bl : Blocks) (half : ℕ) where
  -- A switch of the base cases.
  switch_entry :
      (sw : Switches) (ot : OtOutput bl) (l k : ℕ) (st0 st st' : Store bl) (a b : bl.Block)
      → IsBinary sw
      → ot l k ≡ shared bl (sw l k) (st0.messages (l * half + k)) (st'.blocks (l * half + k))
      → st.messages (l * half + k) ≡ st0.messages (l * half + k)
      → st'.blocks (l * half + k)
        ≡ (correct_switch bl st (l * half + k) a b).1.blocks (l * half + k)
      → masked_switch bl sw ot l k a b ≡ (correct_switch bl st (l * half + k) a b).0
  unfolding correct_switch
  switch_entry sw ot l k st0 st st' a b bin e before behind =
      let i = l * half + k in
      masked_switch-correction bl sw ot l k (st.messages i) a b bin (
        e
        ∙ ap (λ m. shared bl (sw l k) m (st'.blocks i)) (sym before)
        ∙ ap (λ c. shared bl (sw l k) (st.messages i) c)
            (behind ∙ correct_switch-blocks bl half i st a b))

  two_IsPrepared :
      (n lvl idx : ℕ) (a b : bl.Block) (st : Store bl)
      → idx + 1 ≤ half
      → IsPrepared bl half
          (suc n)
          lvl
          idx
          (a ∷ b ∷ [])
          ((correct_switch bl st ((if suc n == 1 then lvl else lvl + 1) * half + idx) a b).0.0
            ∷ (correct_switch bl st ((if suc n == 1 then lvl else lvl + 1) * half + idx) a b).0.1
            ∷ [])
          st
          (correct_switch bl st ((if suc n == 1 then lvl else lvl + 1) * half + idx) a b).1
  unfolding prepare_correction correct_base gen_benes_masked_evaluate base_masked
  two_IsPrepared n lvl idx a b st room =
      let l0 : ℕ = if suc n == 1 then lvl else lvl + 1 in
      let low : lvl ≤ l0 = ground arith in
      let high : l0 < lvl + (2 * suc n - 1) = ground arith in
      let f = correct_switch-IsFramed bl half l0 idx st a b (omega arith) in
      record {
        run = refl;
        same_length = refl;
        framed = record { frame = λ l k lt out. f.frame l k lt (ground arith) };
        evaluate = λ sw ot bin e.
            let at : IsWithin lvl (2 * suc n - 1) idx 1 l0 idx = record {
              from_level = low;
              to_level = high;
              from_position = omega arith;
              to_position = omega arith;
            } in
            let gate =
              switch_entry sw ot l0 idx st st (correct_switch bl st (l0 * half + idx) a b).1 a b bin
                (e.entry l0 idx at) refl refl in
            rw gate refl;
      }

  three_IsPrepared :
      (n lvl idx : ℕ) (a b c : bl.Block) (st : Store bl)
      → 1 ≤ n
      → idx < half
      → (out : List bl.Block) × (st' : Store bl) × IsPrepared bl half
          (suc n)
          lvl
          idx
          (a ∷ b ∷ c ∷ [])
          out
          st
          st'
  unfolding prepare_correction correct_base gen_benes_masked_evaluate base_masked
  three_IsPrepared n lvl idx a b c st deep room =
      let p = correct_switch bl st (lvl * half + idx) a b in
      let q = correct_switch bl p.1 ((lvl + 1) * half + idx) p.0.1 c in
      let r = correct_switch bl q.1 ((lvl + 2) * half + idx) p.0.0 q.0.0 in
      let fp = correct_switch-IsFramed bl half lvl idx st a b (omega arith) in
      let fq = correct_switch-IsFramed bl half (lvl + 1) idx p.1 p.0.1 c (omega arith) in
      let fr = correct_switch-IsFramed bl half (lvl + 2) idx q.1 p.0.0 q.0.0 (omega arith) in
      (
        r.0.0 ∷ r.0.1 ∷ q.0.1 ∷ [],
        r.1,
        record {
          run = refl;
          same_length = refl;
          framed = record {
            frame = λ l k lt out.
                let (m1, b1) = fp.frame l k lt (ground arith) in
                let (m2, b2) = fq.frame l k lt (ground arith) in
                let (m3, b3) = fr.frame l k lt (ground arith) in (m3 ∙ m2 ∙ m1, b3 ∙ b2 ∙ b1);
          };
          evaluate = λ sw ot bin e.
              let at = λ (l : ℕ) (le : lvl ≤ l) (gt : l < lvl + (2 * suc n - 1)).
                e.entry l idx (record {
                  from_level = le;
                  to_level = gt;
                  from_position = omega arith;
                  to_position = omega arith;
                }) in
              let gp =
                switch_entry sw ot lvl idx st st r.1 a b bin (at lvl (omega arith) (omega arith))
                  refl
                  ((fr.frame lvl idx room (inl (omega arith))).1
                    ∙ (fq.frame lvl idx room (inl (omega arith))).1) in
              let gq =
                switch_entry sw ot (lvl + 1) idx st p.1 r.1 p.0.1 c bin
                  (at (lvl + 1) (omega arith) (omega arith))
                  (fp.frame (lvl + 1) idx room (inr (inl (omega arith)))).0
                  (fr.frame (lvl + 1) idx room (inl (omega arith))).1 in
              let gr =
                switch_entry sw ot (lvl + 2) idx st q.1 r.1 p.0.0 q.0.0 bin
                  (at (lvl + 2) (omega arith) (omega arith))
                  ((fq.frame (lvl + 2) idx room (inr (inl (omega arith)))).0
                    ∙ (fp.frame (lvl + 2) idx room (inr (inl (omega arith)))).0)
                  refl in
              rw (gp, gq, gr) refl;
        },
      )

  prepare_correction-IsPrepared :
      (n lvl idx : ℕ) (src : List bl.Block) (st : Store bl)
      → 2 ≤ length src
      → length src ≤ 2 ^ n
      → idx + length src / 2 ≤ half
      → (out : List bl.Block) × (st' : Store bl) × IsPrepared bl half n lvl idx src out st st'
  prepare_correction-IsPrepared zero lvl idx src st two bits room = absurd (omega arith)
  prepare_correction-IsPrepared (suc n) lvl idx [] st two bits room = absurd (omega arith)
  prepare_correction-IsPrepared (suc n) lvl idx (_ ∷ []) st two bits room = absurd (omega arith)
  prepare_correction-IsPrepared (suc n) lvl idx (a ∷ b ∷ []) st two bits room =
      (_, _, two_IsPrepared n lvl idx a b st (omega arith))
  prepare_correction-IsPrepared (suc n) lvl idx (a ∷ b ∷ c ∷ []) st two bits room =
      three_IsPrepared n lvl idx a b c st (deep_enough n 3 (omega arith) bits) (omega arith)
  prepare_correction-IsPrepared (suc n) lvl idx (a ∷ b ∷ c ∷ d ∷ rest) st two bits room =
      let src : List bl.Block = a ∷ b ∷ c ∷ d ∷ rest in
      let first = correct_first bl half lvl idx 0 src st in
      let (low, up) = length-correct_first bl half lvl idx 0 src st in
      let (top, st2, ht) =
        prepare_correction-IsPrepared n (lvl + 1) (idx + length src / 4) first.0.1 first.1
          (omega arith) (omega (arith, pow-suc 2 n)) (omega arith) in
      let (bottom, st3, hb) =
        prepare_correction-IsPrepared n (lvl + 1) idx first.0.0 st2 (omega arith)
          (omega (arith, pow-suc 2 n)) (omega arith) in
      (
        _,
        _,
        level_IsPrepared bl half n lvl idx src bottom top st st2 st3 (omega arith) bits
            (deep_enough n (length src) (omega arith) bits) (omega arith) ht hb,
      )

-- The shares of both parties add up to the permuted inputs. For at least 2 and at most 2^n values,
-- one mask for each, switches of value 0 or 1, and an oblivious transfer that gives the sender
-- for each switch the message of its setting: the receiver's preparation ends with masks `out`,
-- the evaluation of the inputs ends in a permutation `routed` of them, and the sender's masked
-- evaluation of the masked inputs ends in `routed`, masked with `out`.
pub masked_evaluate-prepare_correction :
    (bl : Blocks) (sw : Switches) (n : ℕ) (masks inputs : List bl.Block) (st : Store bl)
    (received : ℕ → bl.Block × bl.Block)
    → IsBinary sw
    → 2 ≤ length masks
    → length masks ≤ 2 ^ n
    → length inputs ≡ length masks
    → ((l k : ℕ)
        → k < length masks / 2
        → received (l * (length masks / 2) + k)
          ≡ obtained bl (sw l k) (st.messages (l * (length masks / 2) + k)))
    → (out routed : List bl.Block) × (st' : Store bl) × (prepare_correction bl
          (length masks / 2)
          n
          0
          0
          masks
          st
        ≡ some (out, st'))
      × (gen_benes_eval sw n 0 0 inputs ≡ some routed)
      × Perm inputs routed
      × (gen_benes_masked_evaluate bl sw
            (matrix_ot_output bl (length masks / 2) sw received st'.blocks)
            n
            0
            0
            (mask_inputs bl masks inputs)
          ≡ some (mask_inputs bl out routed))
unfolding matrix_ot_output
masked_evaluate-prepare_correction bl sw n masks inputs st received bin two bits same transfer =
    let half = length masks / 2 in
    let (out, st', h) =
      prepare_correction-IsPrepared bl half n 0 0 masks st two bits (omega arith) in
    let ot : OtOutput bl = matrix_ot_output bl half sw received st'.blocks in
    let e : gen_benes_masked_evaluate bl sw ot n 0 0 masks ≡ some out =
      h.evaluate sw ot bin
        (record { entry = λ l k i. rw (transfer l k (omega (arith, i.to_position))) refl }) in
    let (out', routed, m, ev, x, lo, lr) =
      masked_evaluate-mask_inputs bl sw ot n 0 0 masks inputs bin two bits same in
    let (dest, ed, perm, ld) =
      gen_benes_eval-Perm sw n 0 0 inputs bin (omega arith) (omega arith) in
    let routed_same : dest ≡ routed = cc (ed, ev) in
    let out_same : out' ≡ out = cc (e, m) in
    (
      out,
      routed,
      st',
      h.run,
      ev,
      subst (Perm inputs) routed_same perm,
      x ∙ ap (λ o. some (mask_inputs bl o routed)) out_same,
    )
