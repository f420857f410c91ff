-- ===== src/BinBundle/Edit/Places.antt =====
-- The places of items in their bins, and bins with one place erased.
use u_psu.Common.{
  ℕ, zero, suc, ◌+◌, ◌-◌, ◌≡◌, ◌<◌, ◌≤◌, refl, sym, ap, ◌∙◌, inl, inr, Option, none, some, List, [],
  ◌∷◌, ◌==◌, length, get_elem?, get_or, modify, erase_at, map, arith, get_or-modify_ne,
  get_or-modify_self, length-modify, get_elem?-lt, ltb, ltb→lt, ltb→ge, Bool-cases, Option-cases,
  ==→eq,
}
use mathlib.Core.Path.{subst}
use mathlib.Core.List.{Perm}
use mathlib.Core.List.Perm
use u_psu.BinBundle.Edit.{find_pos, erase_places}

pub some_injective {ℓ} : {A : Type ℓ} {a b : A} → ◌≡◌ {A = Option A} (some a) (some b) → a ≡ b
some_injective e = cc e

pub length-map {ℓ ℓ'} :
    {A : Type ℓ} {B : Type ℓ'} (f : A → B) (xs : List A) → length (map f xs) ≡ length xs
length-map f [] = refl
length-map f (x ∷ xs) = ap suc (length-map f xs)

pub get_or-map {ℓ ℓ'} :
    {A : Type ℓ} {B : Type ℓ'} (f : A → B) (xs : List A) (i : ℕ) (d : A) (e : B)
    → i < length xs
    → get_or (map f xs) i e ≡ f (get_or xs i d)
get_or-map f [] i d e h = absurd (omega arith)
get_or-map f (x ∷ xs) zero d e h = refl
get_or-map f (x ∷ xs) (suc i) d e h = get_or-map f xs i d e (omega arith)

pub get_elem?-some {ℓ} :
    {A : Type ℓ} (xs : List A) (i : ℕ) (a : A) → get_elem? xs i ≡ some a → i < length xs
get_elem?-some [] i a e = cc e
get_elem?-some (x ∷ xs) zero a e = omega arith
get_elem?-some (x ∷ xs) (suc i) a e = omega (arith, get_elem?-some xs i a e)

-- The place of a member.
pub find_pos-Perm :
    (xs : List ℕ) (x p : ℕ) → find_pos xs x ≡ some p → (p < length xs) × Perm xs (x ∷ erase_at xs p)
unfolding find_pos
find_pos-Perm [] x p e = cc e
find_pos-Perm (y ∷ ys) x p e = elim (Bool-cases (y == x)) [
  | inl same ↦
      let here : find_pos (y ∷ ys) x ≡ some 0 = rw same refl in
      subst (λ (q : ℕ). (q < suc (length ys)) × Perm (y ∷ ys) (x ∷ erase_at (y ∷ ys) q))
        (some_injective (sym here ∙ e))
        (omega arith, subst (λ (z : ℕ). Perm (y ∷ ys) (z ∷ ys)) (==→eq y x same) Perm.rfl)
  | inr other ↦ elim (Option-cases (find_pos ys x)) [
    | inl missing ↦
        let out : find_pos (y ∷ ys) x ≡ none = rw (other, missing) refl in
        let bad : none ≡ some p = sym out ∙ e in cc bad
    | inr (q, found) ↦
        let there : find_pos (y ∷ ys) x ≡ some (suc q) = rw (other, found) refl in
        let (h, perm) = find_pos-Perm ys x q found in
        subst (λ (q : ℕ). (q < suc (length ys)) × Perm (y ∷ ys) (x ∷ erase_at (y ∷ ys) q))
          (some_injective (sym there ∙ e))
          (omega arith, Perm.trans (Perm.cons y perm) (Perm.swap x y (erase_at ys q)))
  ]
]

length-erase_at {ℓ} :
    {A : Type ℓ} (xs : List A) (p : ℕ) → p < length xs → length (erase_at xs p) + 1 ≡ length xs
length-erase_at [] p h = absurd (omega arith)
length-erase_at (x ∷ xs) zero h = omega arith
length-erase_at (x ∷ xs) (suc p) h = omega (arith, length-erase_at xs p (omega arith))

-- One place of each bin from `i` on is gone.
pub record IsErased (ps : List ℕ) (i : ℕ) (bins bins' : List (List ℕ)) : Type 0 where
  pub inside :
      (k p : ℕ)
      → get_elem? ps k ≡ some p
      → get_or bins' (i + k) [] ≡ erase_at (get_or bins (i + k) []) p
  pub before : (j : ℕ) → j < i → get_or bins' j [] ≡ get_or bins j []
  pub behind : (j : ℕ) → i + length ps ≤ j → get_or bins' j [] ≡ get_or bins j []
  pub count : length bins' ≡ length bins

pub erase_places-IsErased :
    (bins : List (List ℕ)) (ps : List ℕ) (i : ℕ)
    → i + length ps ≤ length bins
    → IsErased ps i bins (erase_places bins ps i)
unfolding erase_places
erase_places-IsErased bins [] i h = record {
  inside = λ k p e. cc e;
  before = λ j lt. refl;
  behind = λ j le. refl;
  count = refl;
}
erase_places-IsErased bins (p ∷ ps) i h =
    let next = modify bins i (λ bin. erase_at bin p) in
    let same : length next ≡ length bins = length-modify bins i _ in
    let rest = erase_places-IsErased next ps (i + 1) (omega arith) in
    record {
      inside = λ k q e. all (erase_places next ps (i + 1)) rest k q e;
      before = λ j lt. rest.before j (omega arith) ∙ get_or-modify_ne bins i j _ [] (omega arith);
      behind = λ j le. rest.behind j (omega arith) ∙ get_or-modify_ne bins i j _ [] (omega arith);
      count = rest.count ∙ same;
    }
  where
    all :
        (next : List (List ℕ))
        → IsErased ps (i + 1) (modify bins i (λ bin. erase_at bin p)) next
        → (k q : ℕ) → get_elem? (p ∷ ps) k ≡ some q
        → get_or next (i + k) [] ≡ erase_at (get_or bins (i + k) []) q
    all next rest zero q e =
        let same : p ≡ q = cc e in
        let here : i + 0 ≡ i = omega arith in
        rw (here, ← same)
          (rest.before i (omega arith)
            ∙ get_or-modify_self bins i (λ bin. erase_at bin p) [] (omega (arith, h)))
    all next rest (suc k) q e =
        let there : i + suc k ≡ i + 1 + k = omega arith in
        rw there (
          rest.inside k q e
          ∙ ap (λ bin. erase_at bin q) (get_or-modify_ne bins i (i + 1 + k) _ [] (omega arith)))

-- Two vectors of bins that are as long in each place stay so.
pub IsErased-length :
    (ps : List ℕ) (i : ℕ) (a a' b b' : List (List ℕ))
    → IsErased ps i a a'
    → IsErased ps i b b'
    → ((k p : ℕ) → get_elem? ps k ≡ some p → p < length (get_or a (i + k) []))
    → ((j : ℕ) → length (get_or b j []) ≡ length (get_or a j []))
    → (j : ℕ) → length (get_or b' j []) ≡ length (get_or a' j [])
IsErased-length ps i a a' b b' h g within same j = elim (Bool-cases (ltb j i)) [
  | inl low ↦
      let lt = ltb→lt j i low in
      ap length (g.before j lt) ∙ same j ∙ sym (ap length (h.before j lt))
  | inr high ↦ elim (Bool-cases (ltb j (i + length ps))) [
    | inr above ↦
        let le = ltb→ge j (i + length ps) above in
        ap length (g.behind j le) ∙ same j ∙ sym (ap length (h.behind j le))
    | inl low ↦
        let ge = ltb→ge j i high in
        let lt = ltb→lt j (i + length ps) low in
        let k : ℕ = j - i in
        let there : i + k ≡ j = omega arith in
        let (p, e) = get_elem?-lt ps k (omega arith) in
        subst (λ (q : ℕ). length (get_or b' q []) ≡ length (get_or a' q [])) there
          (omega (
            arith,
            ap length (g.inside k p e),
            ap length (h.inside k p e),
            length-erase_at (get_or b (i + k) []) p (omega (arith, within k p e, same (i + k))),
            length-erase_at (get_or a (i + k) []) p (within k p e),
            same (i + k),
          ))
  ]
]

erase_at_le {ℓ} : {A : Type ℓ} (xs : List A) (p : ℕ) → length (erase_at xs p) ≤ length xs
erase_at_le [] p = omega arith
erase_at_le (x ∷ xs) zero = omega arith
erase_at_le (x ∷ xs) (suc p) = omega (arith, erase_at_le xs p)

-- No bin gets larger.
pub IsErased-le :
    (ps : List ℕ) (i : ℕ) (a a' : List (List ℕ))
    → IsErased ps i a a'
    → (j : ℕ) → length (get_or a' j []) ≤ length (get_or a j [])
IsErased-le ps i a a' h j = elim (Bool-cases (ltb j i)) [
  | inl low ↦ omega (arith, ap length (h.before j (ltb→lt j i low)))
  | inr high ↦ elim (Bool-cases (ltb j (i + length ps))) [
    | inr above ↦ omega (arith, ap length (h.behind j (ltb→ge j (i + length ps) above)))
    | inl low ↦
        let ge = ltb→ge j i high in
        let lt = ltb→lt j (i + length ps) low in
        let k : ℕ = j - i in
        let there : i + k ≡ j = omega arith in
        let (p, e) = get_elem?-lt ps k (omega arith) in
        subst (λ (q : ℕ). length (get_or a' q []) ≤ length (get_or a q [])) there
          (omega (arith, ap length (h.inside k p e), erase_at_le (get_or a (i + k) []) p))
  ]
]
