-- ===== src/Interpolate/Roots.antt =====
-- The polynomial with given roots: its degree, its values and its roots.
use u_psu.Common.{
  ℕ, zero, suc, ◌+◌, ◌*◌, ◌/◌, ◌%◌, ◌≡◌, ◌<◌, refl, sym, ap, ◌∙◌, inl, inr, List, [], ◌∷◌, ◌==◌,
  length, get_or, arith, true, false, Bool-cases, ==→eq,
}
use u_psu.Common.Sets.{contains}
use u_psu.Common.Results.{ok}
use native.Mathlib.Nat.{
  mod-add-mod, add-mod-mod, mod-add-div, zero-mod, mod-eq_of_lt, add-mul-mod_self_left,
}
use u_psu.Interpolate.{
  Modulus, IsModulus, polyn_mul_monic_monomial_inplace, mul_monomials, polyn_with_roots,
}
use u_psu.Interpolate.Loop.{product_from, polyn_mul_monic_monomial_inplace_lem}

-- The value of a polynomial.
abbrev pub value_at : List ℕ → ℕ → ℕ
value_at [] x = 0
value_at (c ∷ cs) x = c + x * value_at cs x

mul-mod_right : (m a b : ℕ) → a * (b % m) % m ≡ a * b % m
mul-mod_right m a b =
    let split : a * b ≡ a * (b % m) + m * (a * (b / m)) =
      ap (λ (z : ℕ). a * z) (sym (mod-add-div b m)) ∙ grind arith in
    sym (ap (λ (z : ℕ). z % m) split ∙ add-mul-mod_self_left (a * (b % m)) m (a * (b / m)))

-- Sums and products of numbers that are congruent.
add_congruent : (m a b c d : ℕ) → a % m ≡ b % m → c % m ≡ d % m → (a + c) % m ≡ (b + d) % m
add_congruent m a b c d e f =
    sym (mod-add-mod a m c)
    ∙ sym (add-mod-mod (a % m) c m)
    ∙ ap (λ (z : ℕ). (z + c % m) % m) e
    ∙ ap (λ (z : ℕ). (b % m + z) % m) f
    ∙ add-mod-mod (b % m) d m
    ∙ mod-add-mod b m d

pub mul_congruent : (m a b c : ℕ) → b % m ≡ c % m → a * b % m ≡ a * c % m
mul_congruent m a b c e =
    sym (mul-mod_right m a b) ∙ ap (λ (z : ℕ). a * z % m) e ∙ mul-mod_right m a c

mod_mod : (m a : ℕ) → a % m % m ≡ a % m
mod_mod m a =
    let e : 0 + a % m ≡ a % m = omega arith in
    let f : 0 + a ≡ a = omega arith in
    ap (λ (z : ℕ). z % m) (sym e) ∙ add-mod-mod 0 a m ∙ ap (λ (z : ℕ). z % m) f

-- The product of `x - r` for the roots `r`, as `x + negate r`.
abbrev pub factors : Modulus → List ℕ → ℕ → ℕ
factors m [] x = 1
factors m (r ∷ rs) x = (x + m.negate r) * factors m rs x

module _ (m : Modulus) (laws : IsModulus m) where
  multiply_add_mod : (a b c : ℕ) → m.multiply_add a b c % m.value ≡ (a * b + c) % m.value
  multiply_add_mod a b c =
      ap (λ (z : ℕ). z % m.value) (laws.multiply_add_lem a b c) ∙ mod_mod m.value (a * b + c)

  value_at-product_from :
      (neg_a prev : ℕ) (cs : List ℕ) (x : ℕ)
      → value_at (product_from m neg_a prev cs) x % m.value
        ≡ (prev + (x + neg_a) * value_at cs x) % m.value
  unfolding product_from
  value_at-product_from neg_a prev [] x =
      add_congruent m.value (m.multiply_add 0 neg_a prev) (0 * neg_a + prev) (x * 0) (x * 0)
        (multiply_add_mod 0 neg_a prev) refl
      ∙ ap (λ (z : ℕ). z % m.value) (grind arith)
  value_at-product_from neg_a prev (c ∷ cs) x =
      let rest = value_at-product_from neg_a c cs x in
      let e : ℕ = value_at cs x in
      let sum : c * neg_a + prev + x * (c + (x + neg_a) * e) ≡ prev + (x + neg_a) * (c + x * e) =
        grind arith in
      add_congruent m.value (m.multiply_add c neg_a prev) (c * neg_a + prev)
        (x * value_at (product_from m neg_a c cs) x) (x * (c + (x + neg_a) * e))
        (multiply_add_mod c neg_a prev)
        (mul_congruent m.value x (value_at (product_from m neg_a c cs) x) (c + (x + neg_a) * e)
          rest)
      ∙ ap (λ (z : ℕ). z % m.value) sum

  value_at-mul_monomials :
      (roots polyn : List ℕ) (x : ℕ)
      → value_at (mul_monomials m polyn roots) x % m.value
        ≡ factors m roots x * value_at polyn x % m.value
  unfolding mul_monomials
  value_at-mul_monomials [] polyn x = ap (λ (z : ℕ). z % m.value) (omega arith)
  value_at-mul_monomials (r ∷ roots) polyn x =
      let next = polyn_mul_monic_monomial_inplace m polyn r in
      let n : ℕ = m.negate r in
      let v : ℕ = value_at polyn x in
      let f : ℕ = factors m roots x in
      let one : value_at next x % m.value ≡ (0 + (x + n) * v) % m.value =
        ap (λ (cs : List ℕ). value_at cs x % m.value)
          (polyn_mul_monic_monomial_inplace_lem m polyn r laws)
        ∙ value_at-product_from n 0 polyn x in
      let sum : f * (0 + (x + n) * v) ≡ (x + n) * f * v = grind arith in
      value_at-mul_monomials roots next x
      ∙ mul_congruent m.value f (value_at next x) (0 + (x + n) * v) one
      ∙ ap (λ (z : ℕ). z % m.value) sum

  -- A polynomial of degree `n` whose first coefficient is 1.
  abbrev IsMonic : ℕ → List ℕ → Type 0
  IsMonic n cs = (length cs ≡ suc n) × (get_or cs n 0 ≡ 1)

  product_from-IsMonic :
      (neg_a prev : ℕ) (cs : List ℕ) (n : ℕ)
      → 1 < m.value
      → IsMonic n cs
      → IsMonic (suc n) (product_from m neg_a prev cs)
  unfolding product_from
  product_from-IsMonic neg_a prev [] n h (e, f) = absurd (omega (arith, e))
  product_from-IsMonic neg_a prev (c ∷ []) zero h (e, f) = (omega arith, last ∙ mod-eq_of_lt h)
    where
      last : m.multiply_add 0 neg_a c ≡ 1 % m.value
      last = laws.multiply_add_lem 0 neg_a c ∙ ap (λ (z : ℕ). z % m.value) (omega (arith, f))
  product_from-IsMonic neg_a prev (c ∷ []) (suc n) h (e, f) = absurd (omega (arith, e))
  product_from-IsMonic neg_a prev (c ∷ d ∷ cs) zero h (e, f) = absurd (omega (arith, e))
  product_from-IsMonic neg_a prev (c ∷ d ∷ cs) (suc n) h (e, f) =
      let (len, one) = product_from-IsMonic neg_a c (d ∷ cs) n h (omega (arith, e), f) in
      (omega (arith, len), one)

  mul_monomials-IsMonic :
      (roots polyn : List ℕ) (n : ℕ)
      → 1 < m.value
      → IsMonic n polyn
      → IsMonic (length roots + n) (mul_monomials m polyn roots)
  unfolding mul_monomials
  mul_monomials-IsMonic [] polyn n h p = let e : 0 + n ≡ n = omega arith in rw e p
  mul_monomials-IsMonic (r ∷ roots) polyn n h p =
      let e : suc (length roots) + n ≡ length roots + suc n = omega arith in
      rw e (
        mul_monomials-IsMonic roots (polyn_mul_monic_monomial_inplace m polyn r) (suc n) h (
          rw (polyn_mul_monic_monomial_inplace_lem m polyn r laws)
            (product_from-IsMonic (m.negate r) 0 polyn n h p)))

  factors-root :
      (roots : List ℕ) (x : ℕ)
      → x < m.value
      → contains roots x ≡ true
      → factors m roots x % m.value ≡ 0 % m.value
  factors-root [] x h e = cc e
  factors-root (r ∷ roots) x h e = elim (Bool-cases (r == x)) [
    | inl t ↦
        let same = ==→eq r x t in
        let n : ℕ = m.negate r in
        let f : ℕ = factors m roots x in
        let swap : (x + n) * f ≡ f * (x + n) = grind arith in
        let sum : x + n ≡ n + r = omega arith in
        let none : (x + n) % m.value ≡ 0 % m.value =
          ap (λ (z : ℕ). z % m.value) sum
          ∙ laws.negate_lem r (omega arith)
          ∙ sym (zero-mod m.value) in
        ap (λ (z : ℕ). z % m.value) swap
        ∙ mul_congruent m.value f (x + n) 0 none
        ∙ ap (λ (z : ℕ). z % m.value) (omega arith)
    | inr n ↦
        let rest : contains roots x ≡ true = ground arith in
        mul_congruent m.value (x + m.negate r) (factors m roots x) 0 (factors-root roots x h rest)
        ∙ ap (λ (z : ℕ). z % m.value) (omega arith)
  ]

-- For a modulus above 1, `polyn_with_roots` ends without an exception and gives a monic polynomial
-- with one degree for each root, whose value at each number is the product of the differences from
-- the roots.
pub polyn_with_roots_lem :
    (m : Modulus) (roots : List ℕ) (x : ℕ)
    → IsModulus m
    → 1 < m.value
    → (polyn : List ℕ) × (polyn_with_roots m roots ≡ ok polyn)
      × (length polyn ≡ length roots + 1)
      × (get_or polyn (length roots) 0 ≡ 1)
      × (value_at polyn x % m.value ≡ factors m roots x % m.value)
unfolding polyn_with_roots
polyn_with_roots_lem m roots x laws h =
    let above : (m.value == 0) ≡ false = ground arith in
    let (len, one) = mul_monomials-IsMonic m laws roots (1 ∷ []) 0 h (refl, refl) in
    let degree : length roots + 0 ≡ length roots = omega arith in
    let product : factors m roots x * value_at (1 ∷ []) x ≡ factors m roots x = grind arith in
    (
      mul_monomials m (1 ∷ []) roots,
      rw above refl,
      omega (arith, len),
      ap (λ (n : ℕ). get_or (mul_monomials m (1 ∷ []) roots) n 0) (sym degree) ∙ one,
      value_at-mul_monomials m laws roots (1 ∷ []) x ∙ ap (λ (z : ℕ). z % m.value) product,
    )

-- Each of the roots below the modulus is a root of the polynomial that `polyn_with_roots` gives.
pub polyn_with_roots-root :
    (m : Modulus) (roots : List ℕ) (x : ℕ)
    → IsModulus m
    → 1 < m.value
    → x < m.value
    → contains roots x ≡ true
    → (polyn : List ℕ) × (polyn_with_roots m roots ≡ ok polyn) × (value_at polyn x % m.value ≡ 0)
polyn_with_roots-root m roots x laws h small e =
    let (polyn, run, len, one, value) = polyn_with_roots_lem m roots x laws h in
    (polyn, run, value ∙ factors-root m laws roots x small e ∙ zero-mod m.value)
