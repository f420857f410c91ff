-- ===== src/Query/Keys.antt =====
-- As many distinct keys as query powers, all of them query powers: each query power is a key.
use u_psu.Common.{
  ℕ, ◌+◌, ◌≡◌, inl, inr, true, false, List, [], ◌∷◌, length, arith, ◌==◌, if◌then◌else◌, Bool-cases,
  ◌≢◌,
}
use u_psu.Common.Sets.{contains, contains-tail, contains-head}

erase : ℕ → List ℕ → List ℕ
erase k [] = []
erase k (x ∷ xs) = if x == k then xs else x ∷ erase k xs

length-erase : (k : ℕ) (xs : List ℕ) → contains xs k ≡ true → length (erase k xs) + 1 ≡ length xs
unfolding erase
length-erase k [] h = cc
length-erase k (x ∷ xs) h = ground (arith, length-erase k xs)

contains-erase :
    (k x : ℕ) (xs : List ℕ) → k ≢ x → contains xs x ≡ true → contains (erase k xs) x ≡ true
unfolding erase
contains-erase k x [] ne h = h
contains-erase k x (y ∷ xs) ne h = ground (arith, contains-erase k x xs ne)

abbrev pub IsDistinct : List ℕ → Type 0
IsDistinct [] = Unit
IsDistinct (x ∷ xs) = (contains xs x ≡ false) × IsDistinct xs

pub pigeonhole :
    (keys powers : List ℕ) (p : ℕ)
    → IsDistinct keys
    → ((k : ℕ) → contains keys k ≡ true → contains powers k ≡ true)
    → length keys ≡ length powers
    → contains powers p ≡ true
    → contains keys p ≡ true
pigeonhole [] [] p d sub e h = h
pigeonhole [] (x ∷ powers) p d sub e h = absurd (omega arith)
pigeonhole (k ∷ keys) powers p d sub e h = elim (Bool-cases (k == p)) [
  | inl same ↦ ground arith
  | inr other ↦
      let here = sub k (contains-head k keys) in
      let left = length-erase k powers here in
      let rest =
        pigeonhole keys (erase k powers) p d.1
          (λ j m.
            contains-erase k j powers (apart k j keys d.0 m) (sub j (contains-tail k j keys m)))
          (omega arith) (contains-erase k p powers (ground arith) h) in
      contains-tail k p keys rest
]
  where
    apart : (k j : ℕ) (keys : List ℕ) → contains keys k ≡ false → contains keys j ≡ true → k ≢ j
    apart k j keys a b e = let c : contains keys k ≡ true = rw e b in cc
