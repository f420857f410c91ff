-- ===== src/Tests/Benes.antt =====
-- A network of five wires.
use u_psu.Common.{
  ◌*◌, ◌/◌, ◌<◌, ℕ, ◌+◌, ◌%◌, ◌≡◌, refl, Bool, true, false, some, List, [], ◌∷◌, arith, length, not,
}
use mathlib.Core.List.{Perm}
use u_psu.Benes.{Switches, gen_benes_eval}
use u_psu.Benes.Halves.{IsBinary}
use u_psu.Benes.Perm.{gen_benes_eval-Perm}
use u_psu.Benes.Masked.{Blocks, OtOutput, gen_benes_masked_evaluate, mask_inputs}
use u_psu.Osn.{Store, prepare_correction, matrix_ot_output}
use u_psu.Osn.Switch.{obtained}
use u_psu.Osn.Shares.{masked_evaluate-prepare_correction}
use u_psu.Benes.Masked.Evaluate.{masked_evaluate-mask_inputs}

abbrev switched : Switches
switched lvl idx = (lvl + idx) % 2

switched-IsBinary : IsBinary switched
switched-IsBinary lvl idx = ground arith

wires :
    gen_benes_eval {A = ℕ} switched 3 0 0 (10 ∷ 11 ∷ 12 ∷ 13 ∷ 14 ∷ [])
    ≡ some (10 ∷ 11 ∷ 14 ∷ 13 ∷ 12 ∷ [])
unfolding gen_benes_eval
wires = refl

gen_benes_eval-Perm_example :
    (dest : List ℕ) × (gen_benes_eval switched 3 0 0 (10 ∷ 11 ∷ 12 ∷ 13 ∷ 14 ∷ []) ≡ some dest)
    × Perm (10 ∷ 11 ∷ 12 ∷ 13 ∷ 14 ∷ []) dest
    × (length dest ≡ 5)
gen_benes_eval-Perm_example =
    gen_benes_eval-Perm switched 3 0 0 (10 ∷ 11 ∷ 12 ∷ 13 ∷ 14 ∷ []) switched-IsBinary (omega arith)
      (omega arith)

-- Blocks of one bit.
abbrev differs : Bool → Bool → Bool
differs true b = not b
differs false b = b

differs_comm : (a b : Bool) → differs a b ≡ differs b a
differs_comm true true = refl
differs_comm true false = refl
differs_comm false true = refl
differs_comm false false = refl

differs_assoc : (a b c : Bool) → differs (differs a b) c ≡ differs a (differs b c)
differs_assoc false b c = refl
differs_assoc true false c = refl
differs_assoc true true true = refl
differs_assoc true true false = refl

differs_cancel : (a b : Bool) → differs a (differs a b) ≡ b
differs_cancel false b = refl
differs_cancel true true = refl
differs_cancel true false = refl

abbrev bits : Blocks
bits = record {
  Block = Bool;
  xor = differs;
  xor_comm = differs_comm;
  xor_assoc = differs_assoc;
  xor_cancel = differs_cancel;
}

abbrev ot_output : OtOutput bits
ot_output lvl idx = (true, false)

abbrev five : List Bool
five = true ∷ false ∷ true ∷ true ∷ false ∷ []

masked_evaluate-mask_inputs_example :
    (out routed : List Bool) × (gen_benes_masked_evaluate bits switched ot_output 3 0 0 five
      ≡ some out)
    × (gen_benes_eval switched 3 0 0 five ≡ some routed)
    × (gen_benes_masked_evaluate bits switched ot_output 3 0 0 (mask_inputs bits five five)
        ≡ some (mask_inputs bits out routed))
    × (length out ≡ 5)
    × (length routed ≡ 5)
masked_evaluate-mask_inputs_example =
    masked_evaluate-mask_inputs bits switched ot_output 3 0 0 five five switched-IsBinary
      (omega arith) (omega arith) refl

-- The random messages of the transfers, the same for each switch.
abbrev store : Store bits
store = record { messages = λ i. ((true, false), (false, false)); blocks = λ i. (false, false) }

abbrev received : ℕ → Bool × Bool
received i = obtained bits (switched (i / 2) (i % 2)) (store.messages i)

received_lem :
    (l k : ℕ)
    → k < 2
    → received (l * 2 + k) ≡ obtained bits (switched l k) (store.messages (l * 2 + k))
received_lem l k h =
    let level : (l * 2 + k) / 2 ≡ l = omega arith in
    let position : (l * 2 + k) % 2 ≡ k = omega arith in rw (level, position) refl

masked_evaluate-prepare_correction_example :
    (out routed : List Bool) × (st : Store bits) × (prepare_correction bits 2 3 0 0 five store
      ≡ some (out, st))
    × (gen_benes_eval switched 3 0 0 (true ∷ true ∷ false ∷ false ∷ true ∷ []) ≡ some routed)
    × Perm (true ∷ true ∷ false ∷ false ∷ true ∷ []) routed
    × (gen_benes_masked_evaluate bits switched
          (matrix_ot_output bits 2 switched received st.blocks)
          3
          0
          0
          (mask_inputs bits five (true ∷ true ∷ false ∷ false ∷ true ∷ []))
        ≡ some (mask_inputs bits out routed))
masked_evaluate-prepare_correction_example =
    masked_evaluate-prepare_correction bits switched 3 five
      (true ∷ true ∷ false ∷ false ∷ true ∷ []) store received switched-IsBinary (omega arith)
      (omega arith) refl received_lem
