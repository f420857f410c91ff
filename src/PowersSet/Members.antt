-- ===== src/PowersSet/Members.antt =====
-- The members of the set that `create_powers_set` returns.
use native.Mathlib.Nat.{le-div_iff_mul-le, div-mul-le_self}
use u_psu.Common.{
  ℕ, zero, suc, ◌+◌, ◌-◌, ◌*◌, ◌/◌, ◌^◌, ◌≤◌, ◌<◌, ◌≡◌, refl, ◌⊎◌, inl, inr, ◌↔◌, true, false, ◌||◌,
  some, List, [], ◌∷◌, ltb, leb, ◌==◌, arith, Bool-cases, leb→le, leb→gt, ltb→lt, ==→eq,
  le→ltb_false, ◌∙◌,
}
use u_psu.Common.Sets.{contains, IsAbove, IsAscending, FitsIn32}
use u_psu.Common.Words.{add32, mul32}
use u_psu.Common.Results.{ok}
use u_psu.PowersSet.{insert, fill, create_powers_set}

contains-insert : (x y : ℕ) (s : List ℕ) → contains (insert x s) y ≡ ((x == y) || contains s y)
unfolding insert
contains-insert x y [] = refl
contains-insert x y (z ∷ s) = ground (arith, contains-insert x y s)

IsAbove-insert : (a x : ℕ) (s : List ℕ) → a < x → IsAbove a s → IsAbove a (insert x s)
unfolding insert
IsAbove-insert a x [] lt h = (lt, tt)
IsAbove-insert a x (y ∷ s) lt h = ground (arith, IsAbove-insert a x s lt)

IsAbove-of_lt : (a b : ℕ) (s : List ℕ) → a < b → IsAbove b s → IsAbove a s
IsAbove-of_lt a b [] lt h = tt
IsAbove-of_lt a b (y ∷ s) lt h = (omega (arith, h.0), IsAbove-of_lt a b s lt h.1)

insert-IsAscending : (x : ℕ) (s : List ℕ) → IsAscending s → IsAscending (insert x s)
unfolding insert
insert-IsAscending x [] h = (tt, tt)
insert-IsAscending x (y ∷ s) h = elim (Bool-cases (ltb x y)) [
  | inl lt ↦ rw lt (((ltb→lt x y lt), IsAbove-of_lt x y s (ltb→lt x y lt) h.0), h)
  | inr ge ↦ elim (Bool-cases (x == y)) [
    | inl same ↦ rw (ge, same) h
    | inr other ↦
        rw (ge, other) (IsAbove-insert y x s (ground arith) h.0, insert-IsAscending x s h.1)
  ]
]

insert-FitsIn32 : (x : ℕ) (s : List ℕ) → x < 2 ^ 32 → FitsIn32 s → FitsIn32 (insert x s)
unfolding insert
insert-FitsIn32 x [] lt h = (lt, tt)
insert-FitsIn32 x (y ∷ s) lt h = ground (arith, insert-FitsIn32 x s lt)

-- The loop variable takes this value.
abbrev pub IsVisited : ℕ → ℕ → ℕ → ℕ → Type 0
IsVisited power last step x = (k : ℕ) × (x ≡ power + k * step) × (x ≤ last)

-- The set after a loop that started with `s`.
pub record IsFilled (power last step : ℕ) (s r : List ℕ) : Type 0 where
  pub ascending : IsAscending s → IsAscending r
  pub fits : FitsIn32 s → FitsIn32 r
  pub members :
      (x : ℕ) → (contains r x ≡ true) ↔ ((contains s x ≡ true) ⊎ IsVisited power last step x)

IsVisited-step :
    (power last step x : ℕ)
    → IsVisited power last step x
    → (power ≡ x) ⊎ IsVisited (power + step) last step x
IsVisited-step power last step x (zero, e, le) = inl (omega arith)
IsVisited-step power last step x (suc k, e, le) = inr (k, omega arith, le)

members_step :
    (power last step x : ℕ) (s r : List ℕ)
    → power ≤ last
    → (contains r x ≡ true)
      ↔ ((contains (insert power s) x ≡ true) ⊎ IsVisited (power + step) last step x)
    → (contains r x ≡ true) ↔ ((contains s x ≡ true) ⊎ IsVisited power last step x)
members_step power last step x s r le h = (
  λ m. elim (h.0 m) [
    | inl here ↦
        let here' : (power == x) || contains s x ≡ true = rw (← contains-insert power x s) here in
        elim (Bool-cases (power == x)) [
          | inl same ↦ inr (0, omega (arith, ==→eq power x same), omega (arith, ==→eq power x same))
          | inr other ↦ inl (ground arith)
        ]
    | inr (k, e, lx) ↦ inr (suc k, omega arith, lx)
  ],
  λ m. elim m [
    | inl old ↦ h.1 (inl (rw (contains-insert, old) (ground arith)))
    | inr v ↦ elim (IsVisited-step power last step x v) [
      | inl same ↦ h.1 (inl (rw contains-insert (ground arith)))
      | inr later ↦ h.1 (inr later)
    ]
  ],
)

mul_mono : (a b n : ℕ) → a ≤ b → a * n ≤ b * n
mul_mono a b n h = grind arith

-- A multiple of `n` up to `a` is at most the last one.
multiple_le : (k n a x : ℕ) → x ≡ k * n → x ≤ a → x ≤ a / n * n
multiple_le k zero a x e le = omega arith
multiple_le k (suc n) a x e le =
    let big : k ≤ a / suc n = (le-div_iff_mul-le (omega arith)).1 (omega arith) in
    rw e (mul_mono k (a / suc n) (suc n) big)

ne_==_zero : (n : ℕ) → 0 < n → (n == 0) ≡ false
ne_==_zero n h = ground arith

fill_lem :
    (fuel power last step : ℕ) (s : List ℕ)
    → 0 < step
    → last + step < 2 ^ 32
    → last + 1 < power + fuel
    → 0 < fuel
    → (r : List ℕ) × (fill fuel power last step s ≡ some r) × IsFilled power last step s r
unfolding fill
fill_lem zero power last step s pos wrap enough some_fuel = absurd (omega arith)
fill_lem (suc fuel) power last step s pos wrap enough some_fuel =
    elim (Bool-cases (leb power last)) [
      | inr stop ↦ rw stop (
        s,
        refl,
        record {
          ascending = λ h. h;
          fits = λ h. h;
          members = λ x. (
            λ m. inl m,
            λ h. elim h [ inl m ↦ m | inr (k, e, le) ↦ absurd (omega (arith, leb→gt _ _ stop)) ],
          );
        },
      )
      | inl go ↦
          let le = leb→le power last go in
          let next : add32 power step ≡ power + step = omega arith in
          let (r, e, h) =
            fill_lem fuel (power + step) last step (insert power s) pos wrap (omega arith)
              (omega arith) in
          rw (go, next, e)
            (
              r,
              refl,
              record {
                ascending = λ a. h.ascending (insert-IsAscending power s a);
                fits = λ f. h.fits (insert-FitsIn32 power s (omega arith) f);
                members = λ x. members_step power last step x s r le (h.members x);
              },
            )
    ]

-- The powers: those up to ps_low_degree, and the multiples of ps_low_degree + 1.
abbrev pub IsPower : ℕ → ℕ → ℕ → Type 0
IsPower low target x = ((1 ≤ x) × (x ≤ low)) ⊎ ((k : ℕ) × (x ≡ (k + 1) * (low + 1)) × (x ≤ target))

plain_members :
    (low target x : ℕ) (r : List ℕ)
    → low ≡ 0
    → (contains r x ≡ true) ↔ ((contains [] x ≡ true) ⊎ IsVisited 1 target 1 x)
    → (contains r x ≡ true) ↔ IsPower low target x
plain_members low target x r e h = (
  λ m. elim (h.0 m) [ inl f ↦ cc | inr (k, ek, le) ↦ inr (k, rw e (omega arith), le) ],
  λ m. elim m [
    | inl (a, b) ↦ absurd (omega arith)
    | inr (k, ek, le) ↦ h.1 (inr (k, rw e at ek ∙ omega arith, le))
  ],
)

stock_members :
    (low target x : ℕ) (a r : List ℕ)
    → (contains a x ≡ true) ↔ ((contains [] x ≡ true) ⊎ IsVisited 1 low 1 x)
    → (contains r x ≡ true)
      ↔ ((contains a x ≡ true) ⊎ IsVisited (low + 1) (target / (low + 1) * (low + 1)) (low + 1) x)
    → (contains r x ≡ true) ↔ IsPower low target x
stock_members low target x a r ha h =
    let below = div-mul-le_self target (low + 1) in
    (
      λ m. elim (h.0 m) [
        | inl ma ↦ elim (ha.0 ma) [ inl f ↦ cc | inr (k, ek, le) ↦ inl (omega arith, le) ]
        | inr (k, ek, le) ↦ inr (k, omega arith, omega arith)
      ],
      λ m. elim m [
        | inl (p, q) ↦ h.1 (inl (ha.1 (inr (x - 1, omega arith, q))))
        | inr (k, ek, le) ↦ h.1 (inr (k, omega arith, multiple_le (k + 1) (low + 1) target x ek le))
      ],
    )

-- With more fuel than target_degree + 1, where 32 bits hold target_degree + ps_low_degree + 1, and
-- target_degree is positive and at least ps_low_degree: the function ends and returns an ascending
-- set of 32-bit numbers, which are exactly the powers up to ps_low_degree and the multiples of
-- ps_low_degree + 1 up to target_degree.
pub create_powers_set_lem :
    (fuel low target : ℕ)
    → target + 1 < fuel
    → target + low + 1 < 2 ^ 32
    → low ≤ target
    → 0 < target
    → (s : List ℕ) × (create_powers_set fuel low target ≡ some (ok s))
      × IsAscending s
      × FitsIn32 s
      × ((x : ℕ) → (contains s x ≡ true) ↔ IsPower low target x)
unfolding create_powers_set
create_powers_set_lem fuel low target enough wrap le pos = elim (Bool-cases (low == 0)) [
  | inl plain ↦
      let (r, e, h) =
        fill_lem fuel 1 target 1 [] (omega arith) (omega arith) (omega arith) (omega arith) in
      rw (le→ltb_false target low le, ne_==_zero target pos, plain, e)
        (
          r,
          refl,
          h.ascending tt,
          h.fits tt,
          λ x. plain_members low target x r (==→eq low 0 plain) (h.members x),
        )
  | inr stock ↦
      let first : ℕ = low + 1 in
      let wrap1 : add32 low 1 ≡ first = omega arith in
      let last : ℕ = target / first * first in
      let below : last ≤ target = div-mul-le_self target first in
      let wrap2 : mul32 (target / first) first ≡ last = omega arith in
      let (a, ea, ha) =
        fill_lem fuel 1 low 1 [] (omega arith) (omega arith) (omega arith) (omega arith) in
      let (r, e, h) =
        fill_lem fuel first last first a (omega arith) (omega arith) (omega arith) (omega arith) in
      rw (le→ltb_false target low le, ne_==_zero target pos, stock, wrap1, wrap2, ea, e)
        (
          r,
          refl,
          h.ascending (ha.ascending tt),
          h.fits (ha.fits tt),
          λ x. stock_members low target x a r (ha.members x) (h.members x),
        )
]
