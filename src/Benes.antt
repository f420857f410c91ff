-- ===== src/Benes.antt =====
-- The Benes network of common/apsu/permute/apsu_benes.cpp: its evaluation on values, for given
-- switches. The switches are a function of the level and the position. An evaluation whose depth
-- is used up has no result, where the code recurses on.
pub mod Halves
pub mod Masked
pub mod Perm
use u_psu.Common.{
  ℕ, zero, suc, ◌+◌, ◌-◌, ◌*◌, ◌/◌, ◌%◌, ◌^◌, Option, none, some, List, [], ◌∷◌, ◌++◌, ltb, ◌==◌,
  Bool, true, false, if◌then◌else◌, length, get_elem?,
}
use Prim.Native.Nat.{bit_and, bit_or, bit_xor}
use u_psu.Common.Options.{◌>>=◌}

-- `switched`
abbrev pub Switches : Type 0
Switches = ℕ → ℕ → ℕ

unfoldable pub shuffle : ℕ → ℕ → ℕ
shuffle i n = bit_or (bit_and i 1 * 2 ^ (n - 1)) (i / 2)

-- The position of wire `i | j` behind a switch.
abbrev pub position : ℕ → ℕ → ℕ → ℕ → ℕ
position n i j s = shuffle (bit_xor (bit_or i j) s) n

module _ {ℓ} {A : Type ℓ} where
  abbrev pub push : ℕ → ℕ → A → List A × List A → List A × List A
  push values x a p = if ltb x (values / 2) then (p.0 ++ a ∷ [], p.1) else (p.0, p.1 ++ a ∷ [])

  -- The loop over the first level, from wire `i` on.
  unfoldable pub split : Switches → ℕ → ℕ → ℕ → ℕ → ℕ → List A → List A × List A → List A × List A
  unfolding shuffle
  split sw n lvl idx values i [] p = p
  split sw n lvl idx values i (a ∷ []) p = (p.0, p.1 ++ a ∷ [])
  split sw n lvl idx values i (a ∷ b ∷ src) p =
      let s = sw lvl (idx + i / 2) in
      split sw n lvl idx values (i + 2) src
        (push values (position n i 1 s) b (push values (position n i 0 s) a p))

  -- The choice between the halves for a wire of the pair `k`.
  abbrev pub pick : ℕ → ℕ → ℕ → List A → List A → Option A
  pick values x k bottom top = if ltb x (values / 2) then get_elem? bottom x else get_elem? top k

  -- The loop over the last level `lvl`, of so many pairs from wire `i` on.
  unfoldable pub merge : Switches → ℕ → ℕ → ℕ → ℕ → ℕ → ℕ → List A → List A → Option (List A)
  unfolding shuffle
  merge sw n lvl idx values zero i bottom top =
      if values % 2 == 1
      then (get_elem? top ((values + 1) / 2 - 1) >>= λ a. some (a ∷ []))
      else some []
  merge sw n lvl idx values (suc pairs) i bottom top =
      let s = sw lvl (idx + i / 2) in
      pick values (position n i 0 s) (i / 2) bottom top >>= λ a.
      pick values (position n i 1 s) (i / 2) bottom top >>= λ b.
      merge sw n lvl idx values pairs (i + 2) bottom top >>= λ rest. some (a ∷ b ∷ rest)

  unfoldable pub exchange : ℕ → A → A → A × A
  exchange s a b = if s == 1 then (b, a) else (a, b)

  -- Two and three wires.
  abbrev pub base_two : Switches → ℕ → ℕ → ℕ → A → A → List A
  unfolding exchange
  base_two sw n lvl idx a b =
      let r = exchange (sw (if n == 1 then lvl else lvl + 1) idx) a b in r.0 ∷ r.1 ∷ []

  abbrev pub base_three : Switches → ℕ → ℕ → A → A → A → List A
  unfolding exchange
  base_three sw lvl idx a b c =
      let p = exchange (sw lvl idx) a b in
      let q = exchange (sw (lvl + 1) idx) p.1 c in
      let r = exchange (sw (lvl + 2) idx) p.0 q.0 in r.0 ∷ r.1 ∷ q.1 ∷ []

  unfoldable pub base : Switches → ℕ → ℕ → ℕ → List A → Option (List A)
  unfolding exchange
  base sw n lvl idx (a ∷ b ∷ []) = some (base_two sw n lvl idx a b)
  base sw n lvl idx (a ∷ b ∷ c ∷ []) = some (base_three sw lvl idx a b c)
  base sw n lvl idx src = none

  unfoldable pub gen_benes_eval : Switches → ℕ → ℕ → ℕ → List A → Option (List A)
  unfolding base split merge
  gen_benes_eval sw zero lvl idx src = base sw zero lvl idx src
  gen_benes_eval sw (suc n) lvl idx src =
      let values = length src in
      let halves = split sw (suc n) lvl idx values 0 src ([], []) in
      let bottom = gen_benes_eval sw n (lvl + 1) idx halves.0 in
      let top = gen_benes_eval sw n (lvl + 1) (idx + values / 4) halves.1 in
      elim (base sw (suc n) lvl idx src) [
        | some dest ↦ some dest
        | none ↦ bottom >>= λ bottom1. top >>= λ top1.
            merge sw (suc n) (lvl + (2 * suc n - 1) - 1) idx values (values / 2) 0 bottom1 top1
      ]
