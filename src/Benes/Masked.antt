-- ===== src/Benes/Masked.antt =====
-- The evaluation on masked blocks, gen_benes_masked_evaluate of common/apsu/permute/apsu_benes.cpp.
-- Blocks and their `^` belong to cryptoTools and are a parameter.
pub mod Evaluate
pub mod Linear
use u_psu.Common.{
  ℕ, zero, suc, ◌+◌, ◌-◌, ◌*◌, ◌/◌, ◌%◌, Option, none, some, List, [], ◌∷◌, ◌++◌, ◌==◌, Bool, true,
  false, if◌then◌else◌, length, get_elem?, ◌≡◌,
}
use u_psu.Common.Options.{◌>>=◌}
use u_psu.Benes.{Switches, shuffle, position, push, pick, exchange}

-- `osuCrypto::block`
pub record Blocks : Type 1 where
  pub Block : Type 0
  pub xor : Block → Block → Block
  pub xor_comm : (a b : Block) → xor a b ≡ xor b a
  pub xor_assoc : (a b c : Block) → xor (xor a b) c ≡ xor a (xor b c)
  pub xor_cancel : (a b : Block) → xor a (xor a b) ≡ b

module _ (bl : Blocks) where
  -- `ot_output`
  abbrev pub OtOutput : Type 0
  OtOutput = ℕ → ℕ → bl.Block × bl.Block

  -- `temp_int[s]` for `s = 0` and `s = 1`
  abbrev pub choose : ℕ → bl.Block × bl.Block → bl.Block
  choose s m = if s == 0 then m.0 else m.1

  -- A masked switch of two wires.
  unfoldable pub masked_switch :
      Switches → OtOutput → ℕ → ℕ → bl.Block → bl.Block → bl.Block × bl.Block
  unfolding exchange
  masked_switch sw ot lvl idx a b =
      exchange (sw lvl idx) (bl.xor a (ot lvl idx).0) (bl.xor b (ot lvl idx).1)

  unfoldable pub split_masked :
      Switches
      → OtOutput
      → ℕ
      → ℕ
      → ℕ
      → ℕ
      → ℕ
      → List bl.Block
      → List bl.Block × List bl.Block
      → List bl.Block × List bl.Block
  unfolding shuffle
  split_masked sw ot n lvl idx values i [] p = p
  split_masked sw ot n lvl idx values i (a ∷ []) p = (p.0, p.1 ++ a ∷ [])
  split_masked sw ot n lvl idx values i (a ∷ b ∷ src) p =
      let s = sw lvl (idx + i / 2) in
      let m = ot lvl (idx + i / 2) in
      split_masked sw ot n lvl idx values (i + 2) src (
        push values (position n i 1 s) (bl.xor b m.1)
          (push values (position n i 0 s) (bl.xor a m.0) p))

  unfoldable pub merge_masked :
      Switches
      → OtOutput
      → ℕ
      → ℕ
      → ℕ
      → ℕ
      → ℕ
      → ℕ
      → List bl.Block
      → List bl.Block
      → Option (List bl.Block)
  unfolding shuffle
  merge_masked sw ot n lvl idx values zero i bottom top =
      if values % 2 == 1
      then (get_elem? top ((values + 1) / 2 - 1) >>= λ a. some (a ∷ []))
      else some []
  merge_masked sw ot n lvl idx values (suc pairs) i bottom top =
      let s = sw lvl (idx + i / 2) in
      let m = ot lvl (idx + i / 2) in
      pick values (position n i 0 s) (i / 2) bottom top >>= λ a.
      pick values (position n i 1 s) (i / 2) bottom top >>= λ b.
      merge_masked sw ot n lvl idx values pairs (i + 2) bottom top >>= λ rest.
      some (bl.xor a (choose s m) ∷ bl.xor b (choose (1 - s) m) ∷ rest)

  unfoldable pub base_masked :
      Switches → OtOutput → ℕ → ℕ → ℕ → List bl.Block → Option (List bl.Block)
  unfolding masked_switch
  base_masked sw ot n lvl idx (a ∷ b ∷ []) =
      let r = masked_switch sw ot (if n == 1 then lvl else lvl + 1) idx a b in some (r.0 ∷ r.1 ∷ [])
  base_masked sw ot n lvl idx (a ∷ b ∷ c ∷ []) =
      let p = masked_switch sw ot lvl idx a b in
      let q = masked_switch sw ot (lvl + 1) idx p.1 c in
      let r = masked_switch sw ot (lvl + 2) idx p.0 q.0 in some (r.0 ∷ r.1 ∷ q.1 ∷ [])
  base_masked sw ot n lvl idx src = none

  unfoldable pub gen_benes_masked_evaluate :
      Switches → OtOutput → ℕ → ℕ → ℕ → List bl.Block → Option (List bl.Block)
  unfolding base_masked split_masked merge_masked
  gen_benes_masked_evaluate sw ot zero lvl idx src = base_masked sw ot zero lvl idx src
  gen_benes_masked_evaluate sw ot (suc n) lvl idx src =
      let values = length src in
      let halves = split_masked sw ot (suc n) lvl idx values 0 src ([], []) in
      let bottom = gen_benes_masked_evaluate sw ot n (lvl + 1) idx halves.0 in
      let top = gen_benes_masked_evaluate sw ot n (lvl + 1) (idx + values / 4) halves.1 in
      elim (base_masked sw ot (suc n) lvl idx src) [
        | some dest ↦ some dest
        | none ↦ bottom >>= λ bottom1. top >>= λ top1.
            merge_masked sw ot (suc n) (lvl + (2 * suc n - 1) - 1) idx values (values / 2) 0 bottom1
              top1
      ]

  -- The masked input of `run_osn`, mask by mask.
  unfoldable pub mask_inputs : List bl.Block → List bl.Block → List bl.Block
  mask_inputs (m ∷ masks) (x ∷ inputs) = bl.xor m x ∷ mask_inputs masks inputs
  mask_inputs masks inputs = []
