-- ===== src/Osn.antt =====
-- The oblivious switching network of common/apsu/permute/apsu_OSNReceiver.cpp and
-- apsu_OSNSender.cpp: the corrections that the receiver prepares, and their use by the sender.
-- The two recursive calls are taken one after the other, as with a single thread.
pub mod Frame
pub mod Level
pub mod Network
pub mod Shares
pub mod Switch
use u_psu.Common.{
  ℕ, zero, suc, ◌+◌, ◌-◌, ◌*◌, ◌/◌, ◌%◌, Option, none, some, List, [], ◌∷◌, ◌++◌, ◌==◌, Bool, true,
  false, if◌then◌else◌, length,
}
use u_psu.Common.Options.{◌>>=◌}
use u_psu.Benes.{Switches}
use u_psu.Benes.Masked.{Blocks}

unfoldable pub write {ℓ} : {A : Type ℓ} → (ℕ → A) → ℕ → A → ℕ → A
write f i v j = if j == i then v else f j

-- `ot_output` and `correction_blocks`, by the flat index of a switch.
pub record Store (bl : Blocks) : Type 0 where
  pub messages : ℕ → (bl.Block × bl.Block) × (bl.Block × bl.Block)
  pub blocks : ℕ → bl.Block × bl.Block

module _ (bl : Blocks) where
  -- The correction of a switch whose wires carry the masks `m0` and `m1`.
  abbrev pub correction :
      (bl.Block × bl.Block) × (bl.Block × bl.Block) → bl.Block → bl.Block → bl.Block × bl.Block
  correction m m0 m1 =
      let w0 = bl.xor m.0.0 m0 in
      let w1 = bl.xor m.0.1 m1 in (bl.xor (bl.xor m.1.0 m0) w1, bl.xor (bl.xor m.1.1 m1) w0)

  -- The step for one switch, with the masks of its outputs.
  unfoldable pub correct_switch :
      Store bl → ℕ → bl.Block → bl.Block → (bl.Block × bl.Block) × Store bl
  unfolding write
  correct_switch st base_idx m0 m1 =
      let m = st.messages base_idx in
      let w0 = bl.xor m.0.0 m0 in
      let w1 = bl.xor m.0.1 m1 in
      (
        (w0, w1),
        record st {
          messages = write st.messages base_idx (m.0, (bl.xor m0 w1, bl.xor m1 w0));
          blocks = write st.blocks base_idx (correction m m0 m1);
        },
      )

  -- The loop over the first level, from pair `k` on; `half` is `Val / 2`.
  unfoldable pub correct_first :
      ℕ → ℕ → ℕ → ℕ → List bl.Block → Store bl → (List bl.Block × List bl.Block) × Store bl
  unfolding correct_switch
  correct_first half lvl idx k [] st = (([], []), st)
  correct_first half lvl idx k (a ∷ []) st = (([], a ∷ []), st)
  correct_first half lvl idx k (a ∷ b ∷ src) st =
      let r = correct_switch st (lvl * half + (idx + k)) a b in
      let rest = correct_first half lvl idx (k + 1) src r.1 in
      ((r.0.0 ∷ rest.0.0, r.0.1 ∷ rest.0.1), rest.1)

  -- The loop over the last level; an odd wire goes through.
  unfoldable pub correct_last :
      ℕ → ℕ → ℕ → ℕ → List bl.Block → List bl.Block → Store bl → List bl.Block × Store bl
  unfolding correct_switch
  correct_last half lvl idx k [] top st = (top, st)
  correct_last half lvl idx k (a ∷ bottom) [] st = (a ∷ bottom, st)
  correct_last half lvl idx k (a ∷ bottom) (b ∷ top) st =
      let r = correct_switch st (lvl * half + (idx + k)) a b in
      let rest = correct_last half lvl idx (k + 1) bottom top r.1 in
      (r.0.0 ∷ r.0.1 ∷ rest.0, rest.1)

  unfoldable pub correct_base :
      ℕ → ℕ → ℕ → ℕ → List bl.Block → Store bl → Option (List bl.Block × Store bl)
  unfolding correct_switch
  correct_base half n lvl idx (a ∷ b ∷ []) st =
      let r = correct_switch st ((if n == 1 then lvl else lvl + 1) * half + idx) a b in
      some (r.0.0 ∷ r.0.1 ∷ [], r.1)
  correct_base half n lvl idx (a ∷ b ∷ c ∷ []) st =
      let p = correct_switch st (lvl * half + idx) a b in
      let q = correct_switch p.1 ((lvl + 1) * half + idx) p.0.1 c in
      let r = correct_switch q.1 ((lvl + 2) * half + idx) p.0.0 q.0.0 in
      some (r.0.0 ∷ r.0.1 ∷ q.0.1 ∷ [], r.1)
  correct_base half n lvl idx src st = none

  unfoldable pub prepare_correction :
      ℕ → ℕ → ℕ → ℕ → List bl.Block → Store bl → Option (List bl.Block × Store bl)
  unfolding correct_base correct_first correct_last
  prepare_correction half zero lvl idx src st = correct_base half zero lvl idx src st
  prepare_correction half (suc n) lvl idx src st =
      let first = correct_first half lvl idx 0 src st in
      let halves =
        prepare_correction half n (lvl + 1) (idx + length src / 4) first.0.1 first.1 >>= λ top.
        prepare_correction half n (lvl + 1) idx first.0.0 top.1 >>= λ bottom.
        some (correct_last half (lvl + (2 * suc n - 1) - 1) idx 0 bottom.0 top.0 bottom.1) in
      elim (correct_base half (suc n) lvl idx src st) [ some r ↦ some r | none ↦ halves ]

  -- What the sender makes of the message that it received for a switch.
  unfoldable pub corrected : ℕ → bl.Block × bl.Block → bl.Block × bl.Block → bl.Block × bl.Block
  corrected s recv_msg recv_corr =
      if s == 1 then (bl.xor recv_corr.0 recv_msg.0, bl.xor recv_corr.1 recv_msg.1) else recv_msg

  -- The sender's `matrix_ot_output`, from the received messages and corrections.
  unfoldable pub matrix_ot_output :
      ℕ
      → Switches
      → (ℕ → bl.Block × bl.Block)
      → (ℕ → bl.Block × bl.Block)
      → ℕ
      → ℕ
      → bl.Block × bl.Block
  unfolding corrected
  matrix_ot_output half sw recv_msg recv_corr lvl idx =
      corrected (sw lvl idx) (recv_msg (lvl * half + idx)) (recv_corr (lvl * half + idx))
