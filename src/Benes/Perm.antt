-- ===== src/Benes/Perm.antt =====
-- The evaluation of the network, whatever its switches.
use u_psu.Common.{
  ℕ, zero, suc, ◌+◌, ◌-◌, ◌*◌, ◌/◌, ◌^◌, ◌≡◌, ◌≤◌, refl, sym, inl, inr, some, List, [], ◌∷◌, ◌++◌,
  ◌==◌, length, arith, Bool-cases,
}
use mathlib.Core.List.{perm_middle, Perm, append-nil}
use mathlib.Core.List.Perm
use native.Mathlib.Nat.{pow-suc}
use u_psu.Benes.{Switches, exchange, base, gen_benes_eval}
use u_psu.Benes.Halves.{IsBinary, route, join, split-eq-route, merge-eq-join}

module _ {ℓ} {A : Type ℓ} where
  pub length-route-lower :
      (s : ℕ → ℕ) (k : ℕ) (src : List A) → length (route s k src).0 ≡ length src / 2
  unfolding route
  length-route-lower s k [] = omega arith
  length-route-lower s k (a ∷ []) = omega arith
  length-route-lower s k (a ∷ b ∷ src) =
      let rest = length-route-lower s (k + 1) src in
      elim (Bool-cases (s k == 1)) [ inl t ↦ rw t (omega arith) | inr t ↦ rw t (omega arith) ]

  pub length-route-upper :
      (s : ℕ → ℕ) (k : ℕ) (src : List A) → length (route s k src).1 ≡ (length src + 1) / 2
  unfolding route
  length-route-upper s k [] = omega arith
  length-route-upper s k (a ∷ []) = omega arith
  length-route-upper s k (a ∷ b ∷ src) =
      let rest = length-route-upper s (k + 1) src in
      elim (Bool-cases (s k == 1)) [ inl t ↦ rw t (omega arith) | inr t ↦ rw t (omega arith) ]

  pub length-join :
      (s : ℕ → ℕ) (k : ℕ) (bottom top : List A)
      → length (join s k bottom top) ≡ length bottom + length top
  unfolding join
  length-join s k [] top = omega arith
  length-join s k (a ∷ bottom) [] = omega arith
  length-join s k (a ∷ bottom) (b ∷ top) =
      let rest = length-join s (k + 1) bottom top in
      elim (Bool-cases (s k == 1)) [ inl t ↦ rw t (omega arith) | inr t ↦ rw t (omega arith) ]

  route-Perm :
      (s : ℕ → ℕ) (k : ℕ) (src : List A) → Perm src ((route s k src).0 ++ (route s k src).1)
  unfolding route
  route-Perm s k [] = Perm.rfl
  route-Perm s k (a ∷ []) = Perm.rfl
  route-Perm s k (a ∷ b ∷ src) =
      let r = route s (k + 1) src in
      let rest = route-Perm s (k + 1) src in
      elim (Bool-cases (s k == 1)) [
        | inl t ↦ rw t (
            Perm.trans (Perm.swap b a src)
              (Perm.cons b (Perm.trans (Perm.cons a rest) (Perm.symm (perm_middle r.0 r.1)))))
        | inr t ↦
            rw t (Perm.cons a (Perm.trans (Perm.cons b rest) (Perm.symm (perm_middle r.0 r.1))))
      ]

  join-Perm : (s : ℕ → ℕ) (k : ℕ) (bottom top : List A) → Perm (bottom ++ top) (join s k bottom top)
  unfolding join
  join-Perm s k [] top = Perm.rfl
  join-Perm s k (a ∷ bottom) [] = rw (append-nil bottom) Perm.rfl
  join-Perm s k (a ∷ bottom) (b ∷ top) =
      let rest = join-Perm s (k + 1) bottom top in
      let both = Perm.cons a (Perm.trans (perm_middle bottom top) (Perm.cons b rest)) in
      elim (Bool-cases (s k == 1)) [
        | inl t ↦ rw t (Perm.trans both (Perm.swap b a _))
        | inr t ↦ rw t both
      ]

  -- One level, in terms of the results of the halves.
  pub eval_step :
      (sw : Switches) (n lvl idx : ℕ) (src bottom top : List A)
      → IsBinary sw
      → 4 ≤ length src
      → length src ≤ 2 ^ suc n
      → gen_benes_eval sw n (lvl + 1) idx (route (λ k. sw lvl (idx + k)) 0 src).0 ≡ some bottom
      → gen_benes_eval sw n (lvl + 1) (idx + length src / 4) (route (λ k. sw lvl (idx + k)) 0 src).1
        ≡ some top
      → length bottom ≡ length src / 2
      → length top ≡ (length src + 1) / 2
      → gen_benes_eval sw (suc n) lvl idx src
        ≡ some (join (λ k. sw (lvl + (2 * suc n - 1) - 1) (idx + k)) 0 bottom top)
  unfolding gen_benes_eval base
  eval_step sw n lvl idx [] bottom top bin long bits eb et lb lt = absurd (omega arith)
  eval_step sw n lvl idx (_ ∷ []) bottom top bin long bits eb et lb lt = absurd (omega arith)
  eval_step sw n lvl idx (_ ∷ _ ∷ []) bottom top bin long bits eb et lb lt = absurd (omega arith)
  eval_step sw n lvl idx (_ ∷ _ ∷ _ ∷ []) bottom top bin long bits eb et lb lt =
      absurd (omega arith)
  eval_step sw n lvl idx (a ∷ b ∷ c ∷ d ∷ rest) bottom top bin long bits eb et lb lt =
      let src : List A = a ∷ b ∷ c ∷ d ∷ rest in
      let halves = split-eq-route sw n lvl idx (length src) 0 src ([], []) bin (omega arith) bits in
      let count : length src / 2 ≡ length bottom = sym lb in
      let last =
        merge-eq-join sw n (lvl + (2 * suc n - 1) - 1) idx (length src) 0 [] [] bottom top bin refl
          refl (omega arith) (omega arith) bits in
      rw (halves, eb, et, count) last

  Perm-halves :
      (s s' : ℕ → ℕ) (src bottom top : List A)
      → Perm (route s 0 src).0 bottom
      → Perm (route s 0 src).1 top
      → Perm src (join s' 0 bottom top)
  Perm-halves s s' src bottom top hb ht =
      Perm.trans (route-Perm s 0 src) (Perm.trans (Perm.append hb ht) (join-Perm s' 0 bottom top))

  exchange-Perm :
      (s : ℕ) (a b : A) (xs : List A)
      → Perm (a ∷ b ∷ xs) ((exchange s a b).0 ∷ (exchange s a b).1 ∷ xs)
  unfolding exchange
  exchange-Perm s a b xs = elim (Bool-cases (s == 1)) [
    | inl t ↦ rw t (Perm.swap b a xs)
    | inr t ↦ rw t Perm.rfl
  ]

-- With switches of value 0 or 1 and between 2 and 2^n values, the evaluation ends, and its
-- result is a permutation of the values.
pub gen_benes_eval-Perm {ℓ} :
    {A : Type ℓ} (sw : Switches) (n lvl idx : ℕ) (src : List A)
    → IsBinary sw
    → 2 ≤ length src
    → length src ≤ 2 ^ n
    → (dest : List A) × (gen_benes_eval sw n lvl idx src ≡ some dest)
      × Perm src dest
      × (length dest ≡ length src)
unfolding gen_benes_eval base
gen_benes_eval-Perm sw zero lvl idx src bin two bits = absurd (omega arith)
gen_benes_eval-Perm sw (suc n) lvl idx [] bin two bits = absurd (omega arith)
gen_benes_eval-Perm sw (suc n) lvl idx (_ ∷ []) bin two bits = absurd (omega arith)
gen_benes_eval-Perm sw (suc n) lvl idx (a ∷ b ∷ []) bin two bits =
    (_, refl, exchange-Perm _ a b [], refl)
gen_benes_eval-Perm sw (suc n) lvl idx (a ∷ b ∷ c ∷ []) bin two bits =
    let p = exchange (sw lvl idx) a b in
    let q = exchange (sw (lvl + 1) idx) p.1 c in
    (
      _,
      refl,
      Perm.trans (exchange-Perm (sw lvl idx) a b (c ∷ [])) (
          Perm.trans (Perm.cons p.0 (exchange-Perm (sw (lvl + 1) idx) p.1 c []))
            (exchange-Perm (sw (lvl + 2) idx) p.0 q.0 (q.1 ∷ []))),
      refl,
    )
gen_benes_eval-Perm sw (suc n) lvl idx (a ∷ b ∷ c ∷ d ∷ rest) bin two bits =
    let src = a ∷ b ∷ c ∷ d ∷ rest in
    let s : ℕ → ℕ = λ k. sw lvl (idx + k) in
    let halves = route s 0 src in
    let lower = length-route-lower s 0 src in
    let upper = length-route-upper s 0 src in
    let (bottom, eb, pb, lb) =
      gen_benes_eval-Perm sw n (lvl + 1) idx halves.0 bin (omega arith)
        (omega (arith, pow-suc 2 n)) in
    let (top, et, pt, lt) =
      gen_benes_eval-Perm sw n (lvl + 1) (idx + length src / 4) halves.1 bin (omega arith)
        (omega (arith, pow-suc 2 n)) in
    let s' : ℕ → ℕ = λ k. sw (lvl + (2 * suc n - 1) - 1) (idx + k) in
    (
      join s' 0 bottom top,
      eval_step sw n lvl idx src bottom top bin (omega arith) bits eb et (omega arith)
          (omega arith),
      Perm-halves s s' src bottom top pb pt,
      omega (arith, length-join s' 0 bottom top),
    )
