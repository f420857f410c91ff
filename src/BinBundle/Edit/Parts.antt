-- ===== src/BinBundle/Edit/Parts.antt =====
-- The parts of labels: what `write_parts` writes, and where `read_parts` puts what it reads.
use u_psu.Common.{
  ℕ, zero, suc, ◌+◌, ◌*◌, ◌≡◌, ◌≢◌, ◌<◌, ◌≤◌, refl, sym, ap, ◌∙◌, ◌⊎◌, inl, inr, List, [], ◌∷◌,
  length, get_or, set, modify, arith, get_or-modify_ne, get_or-modify_self, length-modify,
  length-set, get_or-set_self, get_or-set_ne, ltb, ltb→lt, ltb→ge, Bool-cases,
}
use native.Mathlib.Nat.{mul-le-mul_right}
use u_psu.BinBundle.Edit.{write_parts, read_parts}

-- The label part at a place of a bin.
abbrev pub part_at : List (List (List ℕ)) → ℕ → ℕ → ℕ → ℕ
part_at labels part i p = get_or (get_or (get_or labels part []) i []) p 0

-- The places of a part of a label are its own.
index_ne :
    (count part k part' k' : ℕ)
    → k < count
    → k' < count
    → (part ≢ part') ⊎ (k ≢ k')
    → count * part + k ≢ count * part' + k'
index_ne count part k part' k' h g ne e = elim (Bool-cases (ltb part part')) [
  | inl t ↦
      let lt = ltb→lt part part' t in
      let m : (part + 1) * count ≤ part' * count = mul-le-mul_right count (omega arith) in
      let c : part' * count ≡ count * part' = grind arith in
      let d : (part + 1) * count ≡ count * part + count = grind arith in absurd (omega arith)
  | inr n ↦ elim (Bool-cases (ltb part' part)) [
    | inl t ↦
        let lt = ltb→lt part' part t in
        let m : (part' + 1) * count ≤ part * count = mul-le-mul_right count (omega arith) in
        let c : part * count ≡ count * part = grind arith in
        let d : (part' + 1) * count ≡ count * part' + count = grind arith in absurd (omega arith)
    | inr o ↦
        let le = ltb→ge part part' n in
        let ge = ltb→ge part' part o in
        let same : part ≡ part' = omega arith in
        let same_k : k ≡ k' = omega (arith, ap (λ (z : ℕ). count * z) same) in
        elim ne [ inl f ↦ f same | inr f ↦ f same_k ]
  ]
]

-- `read_parts` writes the parts of item `k` to its places.
pub read_parts_lem :
    (count k : ℕ) (labels : List (List (List ℕ))) (part i p : ℕ) (out : List ℕ)
    → k < count
    → count * (part + length labels) ≤ length out
    → (length (read_parts count k labels part i p out) ≡ length out)
      × ((m : ℕ)
          → m < length labels
          → get_or (read_parts count k labels part i p out) (count * (part + m) + k) 0
            ≡ part_at labels m i p)
      × ((m k' : ℕ)
          → k' < count
          → (m < part) ⊎ (k' ≢ k)
          → get_or (read_parts count k labels part i p out) (count * m + k') 0
            ≡ get_or out (count * m + k') 0)
unfolding read_parts
read_parts_lem count k [] part i p out h room =
    (refl, λ m lt. absurd (omega arith), λ m k' lt ne. refl)
read_parts_lem count k (bins ∷ rest) part i p out h room =
    let v : ℕ = get_or (get_or bins i []) p 0 in
    let next = set out (count * part + k) v in
    let size : length next ≡ length out = length-set out (count * part + k) v in
    let first_room : count * (part + suc (length rest))
        ≡ count * part + count + count * length rest =
      grind arith in
    let there : part + 1 + length rest ≡ part + suc (length rest) = omega arith in
    let room' : count * (part + 1 + length rest) ≤ length next =
      omega (arith, ap (λ (z : ℕ). count * z) there) in
    let (len, own, others) = read_parts_lem count k rest (part + 1) i p next h room' in
    (
      len ∙ size,
      own_at (read_parts count k rest (part + 1) i p next) next
          (get_or-set_self out (count * part + k) v 0 (omega (arith, first_room)))
          (others part k h (inl (omega arith))) own,
      λ m k' lt ne.
          others m k' lt (next_ne m k' ne)
          ∙ get_or-set_ne out (count * part + k) (count * m + k') v 0
              (index_ne count part k m k' h lt (apart m k' ne)),
    )
  where
    own_at :
        (r out' : List ℕ)
        → get_or out' (count * part + k) 0 ≡ get_or (get_or bins i []) p 0
        → get_or r (count * part + k) 0 ≡ get_or out' (count * part + k) 0
        → ((m : ℕ) → m < length rest → get_or r (count * (part + 1 + m) + k) 0 ≡ part_at rest m i p)
        → (m : ℕ) → m < suc (length rest)
        → get_or r (count * (part + m) + k) 0 ≡ part_at (bins ∷ rest) m i p
    own_at r out' written kept own zero lt =
        let here : part + 0 ≡ part = omega arith in rw here (kept ∙ written)
    own_at r out' written kept own (suc m) lt =
        let there : part + suc m ≡ part + 1 + m = omega arith in rw there (own m (omega arith))

    next_ne : (m k' : ℕ) → (m < part) ⊎ (k' ≢ k) → (m < part + 1) ⊎ (k' ≢ k)
    next_ne m k' (inl lt) = inl (omega arith)
    next_ne m k' (inr ne) = inr ne

    apart : (m k' : ℕ) → (m < part) ⊎ (k' ≢ k) → (part ≢ m) ⊎ (k ≢ k')
    apart m k' (inl lt) = inl (λ e. omega arith)
    apart m k' (inr ne) = inr (λ e. ne (sym e))

-- A change that keeps the length of a bin.
length-get_or-modify :
    (bins : List (List ℕ)) (i j : ℕ) (f : List ℕ → List ℕ)
    → ((bin : List ℕ) → length (f bin) ≡ length bin)
    → length (get_or (modify bins i f) j []) ≡ length (get_or bins j [])
length-get_or-modify [] i j f h = refl
length-get_or-modify (x ∷ bins) zero zero f h = h x
length-get_or-modify (x ∷ bins) zero (suc j) f h = refl
length-get_or-modify (x ∷ bins) (suc i) zero f h = refl
length-get_or-modify (x ∷ bins) (suc i) (suc j) f h = length-get_or-modify bins i j f h

pub length-write_parts :
    (labels : List (List (List ℕ))) (l : List ℕ) (i p : ℕ)
    → length (write_parts labels l i p) ≡ length labels
unfolding write_parts
length-write_parts [] l i p = refl
length-write_parts (bins ∷ rest) [] i p = refl
length-write_parts (bins ∷ rest) (x ∷ l) i p = ap suc (length-write_parts rest l i p)

-- `write_parts` writes one place of one bin in each part.
write_parts_lem :
    (labels : List (List (List ℕ))) (l : List ℕ) (i p m : ℕ)
    → m < length l
    → get_or (write_parts labels l i p) m []
      ≡ modify (get_or labels m []) i (λ bin. set bin p (get_or l m 0))
unfolding write_parts
write_parts_lem [] l i p m h = refl
write_parts_lem (bins ∷ rest) [] i p m h = absurd (omega arith)
write_parts_lem (bins ∷ rest) (x ∷ l) i p zero h = refl
write_parts_lem (bins ∷ rest) (x ∷ l) i p (suc m) h = write_parts_lem rest l i p m (omega arith)

module _ (labels : List (List (List ℕ))) (l : List ℕ) (i p m : ℕ) (h : m < length l) where
  pub part_at-write_parts_self :
      i < length (get_or labels m [])
      → p < length (get_or (get_or labels m []) i [])
      → part_at (write_parts labels l i p) m i p ≡ get_or l m 0
  part_at-write_parts_self hi hp =
      ap (λ (bins : List (List ℕ)). get_or (get_or bins i []) p 0)
        (write_parts_lem labels l i p m h)
      ∙ ap (λ (bin : List ℕ). get_or bin p 0) (get_or-modify_self (get_or labels m []) i _ [] hi)
      ∙ get_or-set_self (get_or (get_or labels m []) i []) p (get_or l m 0) 0 hp

  pub part_at-write_parts_ne :
      (j q : ℕ) → i ≢ j → part_at (write_parts labels l i p) m j q ≡ part_at labels m j q
  part_at-write_parts_ne j q ne =
      ap (λ (bins : List (List ℕ)). get_or (get_or bins j []) q 0)
        (write_parts_lem labels l i p m h)
      ∙ ap (λ (bin : List ℕ). get_or bin q 0) (get_or-modify_ne (get_or labels m []) i j _ [] ne)

  pub write_parts_bins :
      length (get_or (write_parts labels l i p) m []) ≡ length (get_or labels m [])
  write_parts_bins =
      ap length (write_parts_lem labels l i p m h) ∙ length-modify (get_or labels m []) i _

  pub write_parts_bin :
      (j : ℕ)
      → length (get_or (get_or (write_parts labels l i p) m []) j [])
        ≡ length (get_or (get_or labels m []) j [])
  write_parts_bin j =
      ap (λ (bins : List (List ℕ)). length (get_or bins j [])) (write_parts_lem labels l i p m h)
      ∙ length-get_or-modify (get_or labels m []) i j (λ bin. set bin p (get_or l m 0))
          (λ bin. length-set bin p (get_or l m 0))
