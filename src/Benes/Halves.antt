-- ===== src/Benes/Halves.antt =====
-- The two loops of a level, as recursions on the wires.
use u_psu.Common.{
  ℕ, zero, suc, ◌+◌, ◌-◌, ◌*◌, ◌/◌, ◌%◌, ◌^◌, ◌≡◌, ◌≤◌, ◌<◌, refl, ◌∙◌, ◌⊎◌, inl, inr, some, List,
  [], ◌∷◌, ◌++◌, ltb, ◌==◌, true, false, if◌then◌else◌, length, get_elem?, arith, length-append,
}
use mathlib.Core.List.{append-nil, append_assoc}
use native.Mathlib.Nat.{pow-suc}
use u_psu.Common.Bits.{bit_or_above, even-bit_or, bit_xor_low, bit_and_low}
use u_psu.Benes.{Switches, shuffle, position, push, split, pick, merge}
use Prim.Native.Nat.{differ}

abbrev pub IsBinary : Switches → Type 0
IsBinary sw = (lvl idx : ℕ) → (sw lvl idx ≡ 0) ⊎ (sw lvl idx ≡ 1)

shuffle_lem : (n k d : ℕ) → d < 2 → k < 2 ^ n → shuffle (2 * k + d) (suc n) ≡ d * 2 ^ n + k
unfolding shuffle
shuffle_lem n k d h g =
    let low = bit_and_low k d h in
    let high : (2 * k + d) / 2 ≡ k = omega arith in
    let pred : suc n - 1 ≡ n = omega arith in rw (low, high, pred) (bit_or_above n d k g)

differ-lt : (j s : ℕ) → j < 2 → s < 2 → differ j s < 2
differ-lt zero s h g = g
differ-lt (suc j) zero h g = h
differ-lt (suc zero) (suc s) h g = omega arith
differ-lt (suc (suc j)) (suc s) h g = absurd (omega arith)

-- The position of each wire of a pair, for each setting of the switch.
position_lem :
    (n k j s : ℕ)
    → j < 2
    → s < 2
    → k < 2 ^ n
    → position (suc n) (2 * k) j s ≡ differ j s * 2 ^ n + k
position_lem n k j s hj hs h =
    let or = even-bit_or k j hj in
    let xor = bit_xor_low k j s hj hs in
    let small : differ j s < 2 = differ-lt j s hj hs in
    rw (or, xor) (shuffle_lem n k (differ j s) small h)

below :
    (values n k : ℕ)
    → 2 * k + 2 ≤ values
    → values ≤ 2 ^ suc n
    → ltb (0 * 2 ^ n + k) (values / 2) ≡ true
below values n k h g = ground (arith, pow-suc 2 n)

beyond :
    (values n k : ℕ)
    → 2 * k + 2 ≤ values
    → values ≤ 2 ^ suc n
    → ltb (1 * 2 ^ n + k) (values / 2) ≡ false
beyond values n k h g = ground (arith, pow-suc 2 n)

module _ {ℓ} {A : Type ℓ} where
  -- The halves that the wires from pair `k` on add, the lower one first.
  unfoldable pub route : (ℕ → ℕ) → ℕ → List A → List A × List A
  route s k [] = ([], [])
  route s k (a ∷ []) = ([], a ∷ [])
  route s k (a ∷ b ∷ src) =
      let rest = route s (k + 1) src in
      if s k == 1 then (b ∷ rest.0, a ∷ rest.1) else (a ∷ rest.0, b ∷ rest.1)

  -- The wires from pair `k` on behind the last level.
  unfoldable pub join : (ℕ → ℕ) → ℕ → List A → List A → List A
  join s k [] top = top
  join s k (a ∷ bottom) [] = a ∷ bottom
  join s k (a ∷ bottom) (b ∷ top) =
      let rest = join s (k + 1) bottom top in if s k == 1 then b ∷ a ∷ rest else a ∷ b ∷ rest

  push_pair-zero :
      (values n k : ℕ) (a b : A) (p : List A × List A)
      → 2 * k + 2 ≤ values
      → values ≤ 2 ^ suc n
      → push values
          (position (suc n) (2 * k) 1 0)
          b
          (push values (position (suc n) (2 * k) 0 0) a p)
        ≡ (p.0 ++ a ∷ [], p.1 ++ b ∷ [])
  push_pair-zero values n k a b p h g =
      let room : k < 2 ^ n = omega (arith, pow-suc 2 n) in
      let p0 = position_lem n k 0 0 (omega arith) (omega arith) room in
      let p1 = position_lem n k 1 0 (omega arith) (omega arith) room in
      rw (p0, p1, below values n k h g, beyond values n k h g) refl

  push_pair-suc :
      (values n k : ℕ) (a b : A) (p : List A × List A)
      → 2 * k + 2 ≤ values
      → values ≤ 2 ^ suc n
      → push values
          (position (suc n) (2 * k) 1 1)
          b
          (push values (position (suc n) (2 * k) 0 1) a p)
        ≡ (p.0 ++ b ∷ [], p.1 ++ a ∷ [])
  push_pair-suc values n k a b p h g =
      let room : k < 2 ^ n = omega (arith, pow-suc 2 n) in
      let p0 = position_lem n k 0 1 (omega arith) (omega arith) room in
      let p1 = position_lem n k 1 1 (omega arith) (omega arith) room in
      rw (p0, p1, below values n k h g, beyond values n k h g) refl

  pub split-eq-route :
      (sw : Switches) (n lvl idx values k : ℕ) (src : List A) (p : List A × List A)
      → IsBinary sw
      → 2 * k + length src ≤ values
      → values ≤ 2 ^ suc n
      → split sw (suc n) lvl idx values (2 * k) src p ≡ (
        p.0 ++ (route (λ k. sw lvl (idx + k)) k src).0,
        p.1 ++ (route (λ k. sw lvl (idx + k)) k src).1,
      )
  unfolding split route
  split-eq-route sw n lvl idx values k [] p bin fits bits = rw (append-nil p.0, append-nil p.1) refl
  split-eq-route sw n lvl idx values k (a ∷ []) p bin fits bits = rw (append-nil p.0) refl
  split-eq-route sw n lvl idx values k (a ∷ b ∷ src) p bin fits bits =
      let half : 2 * k / 2 ≡ k = omega arith in
      let next : 2 * k + 2 ≡ 2 * (k + 1) = omega arith in
      let rest = λ (p' : List A × List A).
        split-eq-route sw n lvl idx values (k + 1) src p' bin (omega arith) bits in
      let more = route (λ k. sw lvl (idx + k)) (k + 1) src in
      rw (half, next)
        (elim (bin lvl (idx + k)) [
          | inl e ↦
              rw (e, push_pair-zero values n k a b p (omega arith) bits)
                (rest (p.0 ++ a ∷ [], p.1 ++ b ∷ [])
                  ∙ rw (append_assoc p.0 (a ∷ []) more.0, append_assoc p.1 (b ∷ []) more.1) refl)
          | inr e ↦
              rw (e, push_pair-suc values n k a b p (omega arith) bits)
                (rest (p.0 ++ b ∷ [], p.1 ++ a ∷ [])
                  ∙ rw (append_assoc p.0 (b ∷ []) more.0, append_assoc p.1 (a ∷ []) more.1) refl)
        ])

  pick_bottom :
      (values n k j s : ℕ) (bottom top : List A) (x : A)
      → j < 2
      → s < 2
      → differ j s ≡ 0
      → 2 * k + 2 ≤ values
      → values ≤ 2 ^ suc n
      → get_elem? bottom k ≡ some x
      → pick values (position (suc n) (2 * k) j s) k bottom top ≡ some x
  pick_bottom values n k j s bottom top x hj hs d h g e =
      let at_zero : 0 * 2 ^ n + k ≡ k = omega arith in
      rw (position_lem n k j s hj hs (omega (arith, pow-suc 2 n)), d, below values n k h g, at_zero)
        e

  pick_top :
      (values n k j s : ℕ) (bottom top : List A) (x : A)
      → j < 2
      → s < 2
      → differ j s ≡ 1
      → 2 * k + 2 ≤ values
      → values ≤ 2 ^ suc n
      → get_elem? top k ≡ some x
      → pick values (position (suc n) (2 * k) j s) k bottom top ≡ some x
  pick_top values n k j s bottom top x hj hs d h g e =
      rw (position_lem n k j s hj hs (omega (arith, pow-suc 2 n)), d, beyond values n k h g) e

  get_elem?-append :
      (p : List A) (x : A) (xs : List A) (k : ℕ) → length p ≡ k → get_elem? (p ++ x ∷ xs) k ≡ some x
  get_elem?-append [] x xs zero h = refl
  get_elem?-append [] x xs (suc k) h = absurd (omega arith)
  get_elem?-append (a ∷ p) x xs zero h = absurd (omega arith)
  get_elem?-append (a ∷ p) x xs (suc k) h = get_elem?-append p x xs k (omega arith)

  pub merge-eq-join :
      (sw : Switches) (n lvl idx values k : ℕ) (p q xs ys : List A)
      → IsBinary sw
      → length p ≡ k
      → length q ≡ k
      → length ys ≡ length xs + values % 2
      → 2 * (k + length xs) + values % 2 ≡ values
      → values ≤ 2 ^ suc n
      → merge sw (suc n) lvl idx values (length xs) (2 * k) (p ++ xs) (q ++ ys)
        ≡ some (join (λ k. sw lvl (idx + k)) k xs ys)
  unfolding merge join
  merge-eq-join sw n lvl idx values k p q [] [] bin hp hq hy total bits =
      let even : (values % 2 == 1) ≡ false = ground arith in rw even refl
  merge-eq-join sw n lvl idx values k p q [] (y ∷ []) bin hp hq hy total bits =
      let odd : (values % 2 == 1) ≡ true = ground arith in
      let last : (values + 1) / 2 - 1 ≡ k = omega arith in
      rw (odd, last, get_elem?-append q y [] k hq) refl
  merge-eq-join sw n lvl idx values k p q [] (y ∷ z ∷ ys) bin hp hq hy total bits =
      absurd (omega arith)
  merge-eq-join sw n lvl idx values k p q (x ∷ xs) [] bin hp hq hy total bits = absurd (omega arith)
  merge-eq-join sw n lvl idx values k p q (x ∷ xs) (y ∷ ys) bin hp hq hy total bits =
      let half : 2 * k / 2 ≡ k = omega arith in
      let next : 2 * k + 2 ≡ 2 * (k + 1) = omega arith in
      let lower = get_elem?-append p x xs k hp in
      let upper = get_elem?-append q y ys k hq in
      let pb = λ (j s : ℕ) (hj : j < 2) (hs : s < 2) (d : differ j s ≡ 0).
        pick_bottom values n k j s (p ++ x ∷ xs) (q ++ y ∷ ys) x hj hs d (omega arith) bits lower in
      let pt = λ (j s : ℕ) (hj : j < 2) (hs : s < 2) (d : differ j s ≡ 1).
        pick_top values n k j s (p ++ x ∷ xs) (q ++ y ∷ ys) y hj hs d (omega arith) bits upper in
      let rest : merge sw (suc n) lvl idx values (length xs) (2 * (k + 1)) (p ++ x ∷ xs)
            (q ++ y ∷ ys)
          ≡ some (join (λ k. sw lvl (idx + k)) (k + 1) xs ys) =
        rw (← append_assoc p (x ∷ []) xs, ← append_assoc q (y ∷ []) ys)
          (merge-eq-join sw n lvl idx values (k + 1) (p ++ x ∷ []) (q ++ y ∷ []) xs ys bin
            (omega (arith, length-append p (x ∷ []))) (omega (arith, length-append q (y ∷ [])))
            (omega arith) (omega arith) bits) in
      rw (half, next)
        (elim (bin lvl (idx + k)) [
          | inl e ↦
              rw
                (
                  e,
                  pb 0 0 (omega arith) (omega arith) refl,
                  pt 1 0 (omega arith) (omega arith) refl,
                  rest,
                )
                refl
          | inr e ↦
              rw
                (
                  e,
                  pt 0 1 (omega arith) (omega arith) refl,
                  pb 1 1 (omega arith) (omega arith) refl,
                  rest,
                )
                refl
        ])
