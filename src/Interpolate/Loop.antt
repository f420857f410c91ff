-- ===== src/Interpolate/Loop.antt =====
-- The loop of polyn_mul_monic_monomial_inplace, against the product of two polynomials.
use u_psu.Common.{
  ℕ, zero, suc, ◌+◌, ◌-◌, ◌%◌, ◌≡◌, ◌<◌, ◌≤◌, refl, sym, ap, ◌∙◌, ◌⊎◌, inl, inr, List, [], ◌∷◌,
  ◌++◌, length, get_or, set, arith, length-append, length-set, get_or-set_self, get_or-set_ne,
  Bool-cases, ltb, ltb→lt, ltb→ge,
}
use u_psu.Interpolate.{Modulus, IsModulus, shift_up, polyn_mul_monic_monomial_inplace}

list_ext :
    (xs ys : List ℕ)
    → length xs ≡ length ys
    → ((i : ℕ) → i < length xs → get_or xs i 0 ≡ get_or ys i 0)
    → xs ≡ ys
list_ext [] [] e h = refl
list_ext [] (y ∷ ys) e h = absurd (omega (arith, e))
list_ext (x ∷ xs) [] e h = absurd (omega (arith, e))
list_ext (x ∷ xs) (y ∷ ys) e h =
    let tails = list_ext xs ys (omega (arith, e)) (λ i lt. h (suc i) (omega arith)) in
    ap (λ (z : ℕ). z ∷ xs) (h 0 (omega arith)) ∙ ap (λ (zs : List ℕ). y ∷ zs) tails

module _ (m : Modulus) (neg_a : ℕ) where
  -- What the loop leaves at each place.
  shift_up_lem :
      (i : ℕ) (polyn : List ℕ)
      → i < length polyn
      → (length (shift_up m neg_a i polyn) ≡ length polyn)
        × ((j : ℕ)
            → j < i
            → get_or (shift_up m neg_a i polyn) (suc j) 0
              ≡ m.multiply_add (get_or polyn (suc j) 0) neg_a (get_or polyn j 0))
        × (get_or (shift_up m neg_a i polyn) 0 0 ≡ get_or polyn 0 0)
        × ((j : ℕ) → i < j → get_or (shift_up m neg_a i polyn) j 0 ≡ get_or polyn j 0)
  unfolding shift_up
  shift_up_lem zero polyn h = (refl, λ j lt. absurd (omega arith), refl, λ j lt. refl)
  shift_up_lem (suc i) polyn h =
      let v : ℕ = m.multiply_add (get_or polyn (suc i) 0) neg_a (get_or polyn i 0) in
      let next = set polyn (suc i) v in
      let size : length next ≡ length polyn = length-set polyn (suc i) v in
      let (len, below, first, above) = shift_up_lem i next (omega arith) in
      (
        len ∙ size,
        λ j lt. elim (Bool-cases (ltb j i)) [
          | inl t ↦
              let lt' = ltb→lt j i t in
              below j lt'
              ∙ ap (λ (z : ℕ). m.multiply_add z neg_a (get_or next j 0))
                  (get_or-set_ne polyn (suc i) (suc j) v 0 (λ e. omega arith))
              ∙ ap (λ (z : ℕ). m.multiply_add (get_or polyn (suc j) 0) neg_a z)
                  (get_or-set_ne polyn (suc i) j v 0 (λ e. omega arith))
          | inr n ↦
              let same : j ≡ i = omega (arith, ltb→ge j i n) in
              rw same (above (suc i) (omega arith) ∙ get_or-set_self polyn (suc i) v 0 h)
        ],
        first ∙ get_or-set_ne polyn (suc i) 0 v 0 (λ e. omega arith),
        λ j lt. above j (omega arith) ∙ get_or-set_ne polyn (suc i) j v 0 (λ e. omega arith),
      )

  -- The product with `x + neg_a`, where `prev` is the coefficient before.
  unfoldable pub product_from : ℕ → List ℕ → List ℕ
  product_from prev [] = m.multiply_add 0 neg_a prev ∷ []
  product_from prev (c ∷ cs) = m.multiply_add c neg_a prev ∷ product_from c cs

  pub length-product_from :
      (prev : ℕ) (cs : List ℕ) → length (product_from prev cs) ≡ suc (length cs)
  unfolding product_from
  length-product_from prev [] = refl
  length-product_from prev (c ∷ cs) = ap suc (length-product_from c cs)

  get_or-product_from :
      (prev : ℕ) (cs : List ℕ) (i : ℕ)
      → i ≤ length cs
      → get_or (product_from prev cs) i 0
        ≡ m.multiply_add (get_or (cs ++ 0 ∷ []) i 0) neg_a (get_or (prev ∷ cs ++ 0 ∷ []) i 0)
  unfolding product_from
  get_or-product_from prev [] zero h = refl
  get_or-product_from prev [] (suc i) h = absurd (omega arith)
  get_or-product_from prev (c ∷ cs) zero h = refl
  get_or-product_from prev (c ∷ cs) (suc i) h = get_or-product_from c cs i (omega arith)

-- The loop computes the product.
pub polyn_mul_monic_monomial_inplace_lem :
    (m : Modulus) (polyn : List ℕ) (a : ℕ)
    → IsModulus m
    → polyn_mul_monic_monomial_inplace m polyn a ≡ product_from m (m.negate a) 0 polyn
unfolding polyn_mul_monic_monomial_inplace
polyn_mul_monic_monomial_inplace_lem m polyn a laws =
    let longer = polyn ++ 0 ∷ [] in
    let neg_a : ℕ = m.negate a in
    let size : length longer ≡ length polyn + 1 = length-append polyn (0 ∷ []) in
    let shifted = shift_up m neg_a (length longer - 1) longer in
    let (len, below, first, above) =
      shift_up_lem m neg_a (length longer - 1) longer (omega arith) in
    let v : ℕ = m.multiply (get_or shifted 0 0) neg_a in
    let same_first : m.multiply (get_or longer 0 0) neg_a
        ≡ m.multiply_add (get_or longer 0 0) neg_a 0 =
      laws.multiply_lem (get_or longer 0 0) neg_a
      ∙ ap (λ (z : ℕ). z % m.value) (omega arith)
      ∙ sym (laws.multiply_add_lem (get_or longer 0 0) neg_a 0) in
    list_ext (set shifted 0 v) (product_from m neg_a 0 polyn)
      (omega (arith, length-set shifted 0 v, len, size, length-product_from m neg_a 0 polyn))
      (λ i lt. elim (split i) [
        | inl z ↦ rw z (
            get_or-set_self shifted 0 v 0 (omega (arith, len, size))
            ∙ ap (λ (c : ℕ). m.multiply c neg_a) first
            ∙ same_first
            ∙ sym (get_or-product_from m neg_a 0 polyn 0 (omega arith)))
        | inr (j, s) ↦
            let room : suc j < length longer = omega (arith, length-set shifted 0 v, len) in
            rw s (
              get_or-set_ne shifted 0 (suc j) v 0 (λ e. omega arith)
              ∙ below j (omega arith)
              ∙ sym (get_or-product_from m neg_a 0 polyn (suc j) (omega (arith, size))))
      ])
  where
    split : (i : ℕ) → (i ≡ 0) ⊎ ((j : ℕ) × (i ≡ suc j))
    split zero = inl refl
    split (suc j) = inr (j, refl)
