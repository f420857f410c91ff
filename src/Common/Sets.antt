-- ===== src/Common/Sets.antt =====
-- `std::set<uint32_t>` as the ascending list that its iterators walk.
use Prim.Native.Nat.{ℕ, ◌≤◌, ◌<◌, ◌^◌}
use mathlib.Core.Path.{◌≡◌}
use mathlib.Core.Logic.{◌⊎◌, inl, inr}
use mathlib.Core.Bool.{Bool, true, false, ◌&&◌, ◌||◌}
use mathlib.Core.List.{List, [], ◌∷◌}
use native.Mathlib.Omega.{arith}
use u_psu.Common.Tests.{◌==◌, Bool-cases, ==→eq}

-- `s.find(x) != s.cend()`
abbrev pub contains : List ℕ → ℕ → Bool
contains [] x = false
contains (y ∷ ys) x = (y == x) || contains ys x

-- `std::includes(t, s)`: each member of `s` is one of `t`.
abbrev pub includes : List ℕ → List ℕ → Bool
includes t [] = true
includes t (x ∷ s) = contains t x && includes t s

abbrev pub IsAbove : ℕ → List ℕ → Type 0
IsAbove x [] = Unit
IsAbove x (y ∷ ys) = (x < y) × IsAbove x ys

abbrev pub IsAscending : List ℕ → Type 0
IsAscending [] = Unit
IsAscending (x ∷ xs) = IsAbove x xs × IsAscending xs

-- The members are 32-bit numbers.
abbrev pub FitsIn32 : List ℕ → Type 0
FitsIn32 [] = Unit
FitsIn32 (x ∷ xs) = (x < 2 ^ 32) × FitsIn32 xs

pub contains-IsAbove : (a x : ℕ) (xs : List ℕ) → IsAbove a xs → contains xs x ≡ true → a < x
contains-IsAbove a x [] h m = ground arith
contains-IsAbove a x (y ∷ ys) h m = ground (arith, contains-IsAbove a x ys h.1)

pub contains-FitsIn32 : (x : ℕ) (xs : List ℕ) → FitsIn32 xs → contains xs x ≡ true → x < 2 ^ 32
contains-FitsIn32 x [] h m = ground arith
contains-FitsIn32 x (y ∷ ys) h m = ground (arith, contains-FitsIn32 x ys h.1)

pub contains-includes :
    (t s : List ℕ) (x : ℕ) → includes t s ≡ true → contains s x ≡ true → contains t x ≡ true
contains-includes t [] x h m = ground arith
contains-includes t (y ∷ s) x h m = ground (arith, contains-includes t s x)

pub contains-tail : (x y : ℕ) (xs : List ℕ) → contains xs y ≡ true → contains (x ∷ xs) y ≡ true
contains-tail x y xs h = ground arith

pub contains-head : (x : ℕ) (xs : List ℕ) → contains (x ∷ xs) x ≡ true
contains-head x xs = ground arith

pub contains-cons :
    (x y : ℕ) (xs : List ℕ) → contains (x ∷ xs) y ≡ true → (x ≡ y) ⊎ (contains xs y ≡ true)
contains-cons x y xs h = elim (Bool-cases (x == y)) [
  | inl e ↦ inl (==→eq x y e)
  | inr e ↦ inr (ground arith)
]

-- The head of an ascending list is its least member.
pub contains-IsAscending :
    (x y : ℕ) (xs : List ℕ) → IsAscending (x ∷ xs) → contains (x ∷ xs) y ≡ true → x ≤ y
contains-IsAscending x y xs h m = elim (contains-cons x y xs m) [
  | inl e ↦ omega arith
  | inr t ↦ omega (arith, contains-IsAbove x y xs h.0 t)
]

pub contains-cons_false :
    (x y : ℕ) (xs : List ℕ) → contains xs y ≡ false → (x ≡ y) ⊎ (contains (x ∷ xs) y ≡ false)
contains-cons_false x y xs h = elim (Bool-cases (x == y)) [
  | inl e ↦ inl (==→eq x y e)
  | inr e ↦ inr (ground arith)
]

pub contains-IsAscending-false :
    (x y : ℕ) (xs : List ℕ) → IsAscending (x ∷ xs) → y < x → contains (x ∷ xs) y ≡ false
contains-IsAscending-false x y xs h lt = elim (Bool-cases (contains (x ∷ xs) y)) [
  | inl m ↦ absurd (omega (arith, contains-IsAscending x y xs h m))
  | inr f ↦ f
]

pub contains-tail_false :
    (x y : ℕ) (xs : List ℕ) → contains (x ∷ xs) y ≡ false → contains xs y ≡ false
contains-tail_false x y xs h = ground arith

pub contains-IsAbove-false : (x : ℕ) (xs : List ℕ) → IsAbove x xs → contains xs x ≡ false
contains-IsAbove-false x xs h = elim (Bool-cases (contains xs x)) [
  | inl m ↦ absurd (omega (arith, contains-IsAbove x x xs h m))
  | inr f ↦ f
]
