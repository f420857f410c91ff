-- ===== src/Osn/Switch.antt =====
-- One switch: the receiver's masks and the sender's masked evaluation.
use u_psu.Common.{ℕ, ◌-◌, ◌==◌, if◌then◌else◌, ◌≡◌, refl, ap, ◌∙◌, ◌⊎◌, inl, inr}
use u_psu.Benes.{Switches, exchange}
use u_psu.Benes.Halves.{IsBinary}
use u_psu.Benes.Masked.{Blocks, OtOutput, choose, masked_switch}
use u_psu.Osn.{correction, corrected}

module _ (bl : Blocks) where
  -- The message of a pair that the choice `s` obtains.
  abbrev pub obtained : ℕ → (bl.Block × bl.Block) × (bl.Block × bl.Block) → bl.Block × bl.Block
  obtained s m = if s == 1 then m.1 else m.0

  -- The sender's block for a switch with correction `c`.
  abbrev pub shared :
      ℕ → (bl.Block × bl.Block) × (bl.Block × bl.Block) → bl.Block × bl.Block → bl.Block × bl.Block
  shared s m c = corrected bl s (obtained s m) c

  -- `(x ^ m ^ w) ^ x` is `m ^ w`.
  unmask : (x m w : bl.Block) → bl.xor (bl.xor (bl.xor x m) w) x ≡ bl.xor m w
  unmask x m w =
      bl.xor_comm (bl.xor (bl.xor x m) w) x
      ∙ ap (λ y. bl.xor x y) (bl.xor_assoc x m w)
      ∙ bl.xor_cancel x (bl.xor m w)

  -- With the correction, both settings of the switch lead to the same masks of the outputs.
  pub masked_switch-correction :
      (sw : Switches) (ot : OtOutput bl) (lvl idx : ℕ)
      (m : (bl.Block × bl.Block) × (bl.Block × bl.Block)) (a b : bl.Block)
      → IsBinary sw
      → ot lvl idx ≡ shared (sw lvl idx) m (correction bl m a b)
      → masked_switch bl sw ot lvl idx a b ≡ (bl.xor m.0.0 a, bl.xor m.0.1 b)
  unfolding masked_switch exchange corrected
  masked_switch-correction sw ot lvl idx m a b bin e = elim (bin lvl idx) [
    | inl z ↦ rw (e, z, bl.xor_comm a m.0.0, bl.xor_comm b m.0.1) refl
    | inr o ↦
        rw
          (
            e,
            o,
            unmask m.1.0 a (bl.xor m.0.1 b),
            unmask m.1.1 b (bl.xor m.0.0 a),
            bl.xor_cancel b (bl.xor m.0.0 a),
            bl.xor_cancel a (bl.xor m.0.1 b),
          )
          refl
  ]

  -- The same behind the last level, where the masks come after the switch.
  pub turned-correction :
      (s : ℕ) (o : bl.Block × bl.Block) (m : (bl.Block × bl.Block) × (bl.Block × bl.Block))
      (a b : bl.Block)
      → (s ≡ 0) ⊎ (s ≡ 1)
      → o ≡ shared s m (correction bl m a b)
      → (bl.xor (exchange s a b).0 (choose bl s o) ≡ bl.xor m.0.0 a)
        × (bl.xor (exchange s a b).1 (choose bl (1 - s) o) ≡ bl.xor m.0.1 b)
  unfolding exchange corrected
  turned-correction s o m a b (inl z) e =
      (rw (e, z, bl.xor_comm a m.0.0) refl, rw (e, z, bl.xor_comm b m.0.1) refl)
  turned-correction s o m a b (inr one) e = (
    rw (e, one, unmask m.1.1 b (bl.xor m.0.0 a), bl.xor_cancel b (bl.xor m.0.0 a)) refl,
    rw (e, one, unmask m.1.0 a (bl.xor m.0.1 b), bl.xor_cancel a (bl.xor m.0.1 b)) refl,
  )
