-- ===== src/Osn/Frame.antt =====
-- Which entries of the store a run leaves alone, and which entries a sender's blocks match.
use u_psu.Common.{
  ℕ, zero, suc, ◌+◌, ◌*◌, ◌==◌, true, false, ◌≡◌, refl, ap, ◌∙◌, ◌⊎◌, inl, inr, arith, ◌<◌, ◌≤◌,
  Bool-cases,
}
use u_psu.Benes.{Switches}
use u_psu.Benes.Masked.{Blocks, OtOutput}
use u_psu.Osn.{write, Store, correction, correct_switch}
use u_psu.Osn.Switch.{shared}

-- The switches of the levels [lvl, lvl + levels) and the positions [idx, idx + width).
pub record IsWithin (lvl levels idx width l k : ℕ) : Type 0 where
  pub from_level : lvl ≤ l
  pub to_level : l < lvl + levels
  pub from_position : idx ≤ k
  pub to_position : k < idx + width

abbrev pub IsBeyond : ℕ → ℕ → ℕ → ℕ → ℕ → ℕ → Type 0
IsBeyond lvl levels idx width l k =
    (l < lvl) ⊎ ((lvl + levels ≤ l) ⊎ ((k < idx) ⊎ (idx + width ≤ k)))

module _ (bl : Blocks) (half : ℕ) where
  -- Outside the range the store is as it was.
  pub record IsFramed (lvl levels idx width : ℕ) (st st' : Store bl) : Type 0 where
    pub frame :
        (l k : ℕ)
        → k < half
        → IsBeyond lvl levels idx width l k
        → (st'.messages (l * half + k) ≡ st.messages (l * half + k))
          × (st'.blocks (l * half + k) ≡ st.blocks (l * half + k))

  -- In the range, `ot` has what the sender makes of the messages of `st` and the blocks of `st'`.
  pub record IsShared (sw : Switches) (ot : OtOutput bl) (lvl levels idx width : ℕ)
      (st st' : Store bl) : Type 0 where
    pub entry :
        (l k : ℕ)
        → IsWithin lvl levels idx width l k
        → ot l k ≡ shared bl (sw l k) (st.messages (l * half + k)) (st'.blocks (l * half + k))

  -- Two switches at the same flat index are the same.
  flat_injective :
      (l l' k k' : ℕ) → k < half → k' < half → l * half + k ≡ l' * half + k' → (l ≡ l') × (k ≡ k')
  flat_injective zero zero k k' h h' e = (refl, omega arith)
  flat_injective zero (suc l') k k' h h' e = absurd (omega arith)
  flat_injective (suc l) zero k k' h h' e = absurd (omega arith)
  flat_injective (suc l) (suc l') k k' h h' e =
      let (el, ek) = flat_injective l l' k k' h h' (omega arith) in (ap suc el, ek)

  pub correct_switch-IsFramed :
      (lvl k : ℕ) (st : Store bl) (a b : bl.Block)
      → k < half
      → IsFramed lvl 1 k 1 st (correct_switch bl st (lvl * half + k) a b).1
  unfolding correct_switch write
  correct_switch-IsFramed lvl k st a b h = record {
    frame = λ l j lt out.
        let apart : (l * half + j == lvl * half + k) ≡ false =
          elim (Bool-cases (l * half + j == lvl * half + k)) [
            | inr f ↦ f
            | inl t ↦
                let same : l * half + j ≡ lvl * half + k = ground arith in
                let (el, ek) = flat_injective l lvl j k lt h same in absurd (omega arith)
          ] in
        (rw apart refl, rw apart refl);
  }

  pub correct_switch-blocks :
      (i : ℕ) (st : Store bl) (a b : bl.Block)
      → (correct_switch bl st i a b).1.blocks i ≡ correction bl (st.messages i) a b
  unfolding correct_switch write
  correct_switch-blocks i st a b = let same : (i == i) ≡ true = ground arith in rw same refl

  pub IsFramed-refl :
      (lvl levels idx width : ℕ) (st : Store bl) → IsFramed lvl levels idx width st st
  IsFramed-refl lvl levels idx width st = record { frame = λ l k lt out. (refl, refl) }

  -- Two runs one after the other, each within the range.
  pub IsFramed-trans :
      (l1 h1 i1 w1 l2 h2 i2 w2 lvl levels idx width : ℕ) (st st1 st2 : Store bl)
      → IsFramed l1 h1 i1 w1 st st1
      → IsFramed l2 h2 i2 w2 st1 st2
      → ((l k : ℕ)
          → IsBeyond lvl levels idx width l k
          → IsBeyond l1 h1 i1 w1 l k × IsBeyond l2 h2 i2 w2 l k)
      → IsFramed lvl levels idx width st st2
  IsFramed-trans l1 h1 i1 w1 l2 h2 i2 w2 lvl levels idx width st st1 st2 f g sub = record {
    frame = λ l k lt out.
        let (o1, o2) = sub l k out in
        let (m1, b1) = f.frame l k lt o1 in let (m2, b2) = g.frame l k lt o2 in (m2 ∙ m1, b2 ∙ b1);
  }

  -- A run in the middle of a longer one that leaves its range alone before and after it.
  pub IsShared-middle :
      (sw : Switches) (ot : OtOutput bl) (lvl levels idx width l1 h1 i1 w1 : ℕ)
      (st st1 st2 st3 : Store bl)
      → IsShared sw ot lvl levels idx width st st3
      → ((l k : ℕ) → IsWithin l1 h1 i1 w1 l k → IsWithin lvl levels idx width l k)
      → ((l k : ℕ)
          → IsWithin l1 h1 i1 w1 l k
          → st1.messages (l * half + k) ≡ st.messages (l * half + k))
      → ((l k : ℕ)
          → IsWithin l1 h1 i1 w1 l k
          → st3.blocks (l * half + k) ≡ st2.blocks (l * half + k))
      → IsShared sw ot l1 h1 i1 w1 st1 st2
  IsShared-middle sw ot lvl levels idx width l1 h1 i1 w1 st st1 st2 st3 h sub before behind =
      record {
        entry = λ l k in_. rw (before l k in_, ← behind l k in_) (h.entry l k (sub l k in_));
      }
