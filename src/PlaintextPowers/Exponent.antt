-- ===== src/PlaintextPowers/Exponent.antt =====
-- Exponentiation by squaring gives the powers of the values.
use u_psu.Common.{
  ℕ, zero, suc, ◌*◌, ◌/◌, ◌%◌, ◌^◌, ◌≡◌, ◌<◌, refl, sym, ap, ◌∙◌, ◌⊎◌, inl, inr, false, Option,
  some, List, [], ◌∷◌, ◌==◌, ==→eq, if◌then◌else◌, length, get_elem?, replicate, arith, Bool-cases,
  length-replicate, get_elem?-replicate,
}
use native.Mathlib.Nat.{pow-suc, mod-mod}
use native.Mathlib.Numerals.{unary_clauses}
use u_psu.Common.Results.{ok}
use u_psu.Interpolate.{Modulus, IsModulus}
use u_psu.Interpolate.Roots.{mul_congruent}
use u_psu.PlaintextPowers.{square_array, multiply_array, exponentiate_loop, exponentiate_array}

some_injective : {a b : ℕ} → ◌≡◌ {A = Option ℕ} (some a) (some b) → a ≡ b
some_injective e = cc e

square_pow : (v q : ℕ) → (v * v) ^ q ≡ v ^ (2 * q)
square_pow v zero = simp unary_clauses refl
square_pow v (suc q) =
    let e : 2 * suc q ≡ suc (suc (2 * q)) = omega arith in
    let a = pow-suc (v * v) q in
    let b = pow-suc v (2 * q) in
    let c = pow-suc v (suc (2 * q)) in
    let rec = square_pow v q in rw (e, a, c, b, rec) (grind arith)

mul_both : (n a b c d : ℕ) → a % n ≡ b % n → c % n ≡ d % n → a * c % n ≡ b * d % n
mul_both n a b c d e f =
    let swap : a * d ≡ d * a = grind arith in
    let back : d * b ≡ b * d = grind arith in
    mul_congruent n a c d f
    ∙ ap (λ (z : ℕ). z % n) swap
    ∙ mul_congruent n d a b e
    ∙ ap (λ (z : ℕ). z % n) back

pow_congruent : (n a b q : ℕ) → a % n ≡ b % n → a ^ q % n ≡ b ^ q % n
pow_congruent n a b zero e = simp unary_clauses refl
pow_congruent n a b (suc q) e =
    rw (pow-suc a q, pow-suc b q) (mul_both n (a ^ q) (b ^ q) a b (pow_congruent n a b q e) e)

mod_twice : (n a : ℕ) → a % n % n ≡ a % n
mod_twice n a = mod-mod a n

module _ (m : Modulus) (laws : IsModulus m) where
  length-square_array : (values : List ℕ) → length (square_array m values) ≡ length values
  unfolding square_array
  length-square_array [] = refl
  length-square_array (v ∷ values) = ap suc (length-square_array values)

  length-multiply_array :
      (xs ys : List ℕ) → length ys ≡ length xs → length (multiply_array m xs ys) ≡ length xs
  unfolding multiply_array
  length-multiply_array [] [] e = refl
  length-multiply_array [] (y ∷ ys) e = refl
  length-multiply_array (x ∷ xs) [] e = absurd (omega (arith, e))
  length-multiply_array (x ∷ xs) (y ∷ ys) e =
      ap suc (length-multiply_array xs ys (omega (arith, e)))

  get_elem?-square_array :
      (values : List ℕ) (i v : ℕ)
      → get_elem? values i ≡ some v
      → get_elem? (square_array m values) i ≡ some (v * v % m.value)
  unfolding square_array
  get_elem?-square_array [] i v e = cc e
  get_elem?-square_array (x ∷ values) zero v e =
      let same : x ≡ v = some_injective e in
      rw (laws.multiply_lem x x) (ap (λ (z : ℕ). some (z * z % m.value)) same)
  get_elem?-square_array (x ∷ values) (suc i) v e = get_elem?-square_array values i v e

  get_elem?-multiply_array :
      (xs ys : List ℕ) (i x y : ℕ)
      → get_elem? xs i ≡ some x
      → get_elem? ys i ≡ some y
      → get_elem? (multiply_array m xs ys) i ≡ some (x * y % m.value)
  unfolding multiply_array
  get_elem?-multiply_array [] ys i x y e f = cc e
  get_elem?-multiply_array (a ∷ xs) [] i x y e f = cc f
  get_elem?-multiply_array (a ∷ xs) (b ∷ ys) zero x y e f =
      let p : a ≡ x = some_injective e in
      let q : b ≡ y = some_injective f in rw (laws.multiply_lem a b, p, q) refl
  get_elem?-multiply_array (a ∷ xs) (b ∷ ys) (suc i) x y e f =
      get_elem?-multiply_array xs ys i x y e f

  IsPower : List ℕ → ℕ → List ℕ → List ℕ → Type 0
  IsPower values e result out =
      (i v r : ℕ)
      → get_elem? values i ≡ some v
      → get_elem? result i ≡ some r
      → (o : ℕ) × (get_elem? out i ≡ some o) × (o % m.value ≡ r * v ^ e % m.value)

  -- What one round does to the power.
  round :
      (v r e : ℕ)
      → (if e % 2 == 1 then v * r % m.value else r) * (v * v % m.value) ^ (e / 2) % m.value
        ≡ r * v ^ e % m.value
  round v r e =
      let n : ℕ = m.value in
      let q : ℕ = e / 2 in
      let squares : (v * v % n) ^ q % n ≡ v ^ (2 * q) % n =
        pow_congruent n (v * v % n) (v * v) q (mod_twice n (v * v))
        ∙ ap (λ (z : ℕ). z % n) (square_pow v q) in
      elim (Bool-cases (e % 2 == 1)) [
        | inl t ↦
            let odd = ==→eq (e % 2) 1 t in
            let split : e ≡ suc (2 * q) = omega arith in
            let shift : v * r * v ^ (2 * q) ≡ r * (v ^ (2 * q) * v) = grind arith in
            let whole : r * v ^ e ≡ r * (v ^ (2 * q) * v) =
              ap (λ (z : ℕ). r * v ^ z) split ∙ ap (λ (z : ℕ). r * z) (pow-suc v (2 * q)) in
            rw t (
              mul_both n (v * r % n) (v * r) ((v * v % n) ^ q) (v ^ (2 * q)) (mod_twice n (v * r))
                squares
              ∙ ap (λ (z : ℕ). z % n) (shift ∙ sym whole))
        | inr t ↦
            let even = not_one (e % 2) t in
            let split : e ≡ 2 * q = omega (arith, even) in
            rw t (
              mul_congruent n r ((v * v % n) ^ q) (v ^ (2 * q)) squares
              ∙ ap (λ (z : ℕ). r * v ^ z % n) (sym split))
      ]
    where
      not_one : (d : ℕ) → (d == 1) ≡ false → (d < 1) ⊎ (1 < d)
      not_one d h = ground arith

  zeroth : (r v : ℕ) → r % m.value ≡ r * v ^ 0 % m.value
  zeroth r v =
      let one : v ^ 0 ≡ 1 = simp unary_clauses refl in
      let same : r ≡ r * 1 = omega arith in rw one (ap (λ (z : ℕ). z % m.value) same)

  step_values :
      (values result : List ℕ) (e i v r : ℕ)
      → get_elem? values i ≡ some v
      → get_elem? result i ≡ some r
      → get_elem? (if e % 2 == 1 then multiply_array m values result else result) i
        ≡ some (if e % 2 == 1 then v * r % m.value else r)
  step_values values result e i v r p q = elim (Bool-cases (e % 2 == 1)) [
    | inl t ↦ rw t (get_elem?-multiply_array values result i v r p q)
    | inr t ↦ rw t q
  ]

  step_length :
      (values result : List ℕ) (e : ℕ)
      → length result ≡ length values
      → length (if e % 2 == 1 then multiply_array m values result else result)
        ≡ length (square_array m values)
  step_length values result e size = elim (Bool-cases (e % 2 == 1)) [
    | inl t ↦ rw t (length-multiply_array values result size ∙ sym (length-square_array values))
    | inr t ↦ rw t (size ∙ sym (length-square_array values))
  ]

  exponentiate_loop_lem :
      (fuel : ℕ) (values : List ℕ) (e : ℕ) (result : List ℕ)
      → e < 2 ^ fuel
      → length result ≡ length values
      → (out : List ℕ) × (exponentiate_loop m fuel values e result ≡ some out)
        × (length out ≡ length values)
        × IsPower values e result out
  unfolding exponentiate_loop IsPower
  exponentiate_loop_lem zero values e result small size =
      let none_left : e ≡ 0 = omega arith in
      (result, rw none_left refl, size, λ i v r p q. (r, q, rw none_left (zeroth r v)))
  exponentiate_loop_lem (suc fuel) values e result small size = elim (Bool-cases (e == 0)) [
    | inl t ↦
        let none_left = ==→eq e 0 t in
        (result, rw t refl, size, λ i v r p q. (r, q, rw none_left (zeroth r v)))
    | inr t ↦
        let next = if e % 2 == 1 then multiply_array m values result else result in
        let (out, run, sizes, each) =
          exponentiate_loop_lem fuel (square_array m values) (e / 2) next
            (omega (arith, pow-suc 2 fuel)) (step_length values result e size) in
        (
          out,
          rw t run,
          sizes ∙ length-square_array values,
          λ i v r p q.
              let (o, found, value) =
                each i (v * v % m.value) (if e % 2 == 1 then v * r % m.value else r)
                  (get_elem?-square_array values i v p) (step_values values result e i v r p q) in
              (o, found, value ∙ round v r e),
        )
  ]

-- For a 32-bit exponent that is not 0, the loop ends and gives as many numbers as there are values;
-- each is congruent to the power of the value at its place, modulo the modulus.
pub exponentiate_array_lem :
    (m : Modulus) (values : List ℕ) (exponent i v : ℕ)
    → IsModulus m
    → 0 < exponent
    → exponent < 2 ^ 32
    → get_elem? values i ≡ some v
    → (out : List ℕ) × (o : ℕ) × (exponentiate_array m values exponent ≡ ok (some out))
      × (length out ≡ length values)
      × (get_elem? out i ≡ some o)
      × (o % m.value ≡ v ^ exponent % m.value)
unfolding exponentiate_array IsPower
exponentiate_array_lem m values exponent i v laws pos small p =
    let (out, run, size, each) =
      exponentiate_loop_lem m laws 32 values exponent (replicate (length values) 1) small
        (length-replicate (length values) 1) in
    let (o, found, value) =
      each i v 1 p (get_elem?-replicate (length values) i 1 (get_elem?_lt values i v p)) in
    let one : 1 * v ^ exponent ≡ v ^ exponent = omega arith in
    (
      out,
      o,
      rw (ne_==_zero exponent pos, run) refl,
      size,
      found,
      value ∙ ap (λ (z : ℕ). z % m.value) one,
    )
  where
    ne_==_zero : (n : ℕ) → 0 < n → (n == 0) ≡ false
    ne_==_zero n h = ground arith

    get_elem?_lt : (xs : List ℕ) (i v : ℕ) → get_elem? xs i ≡ some v → i < length xs
    get_elem?_lt [] i v e = cc e
    get_elem?_lt (x ∷ xs) zero v e = omega arith
    get_elem?_lt (x ∷ xs) (suc i) v e = omega (arith, get_elem?_lt xs i v e)
