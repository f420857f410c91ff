-- ===== src/ReceiverDb/Placed.antt =====
-- The elements of some items and their places, as preprocess_unlabeled_data gives them.
use u_psu.Common.{
  ℕ, zero, suc, ◌+◌, ◌*◌, ◌≡◌, ◌<◌, refl, sym, ap, ◌∙◌, ◌⊎◌, inl, inr, true, false, some, List, [],
  ◌∷◌, ◌++◌, ◌==◌, length, get_elem?, arith, ==→eq, Bool-cases,
}
use mathlib.Core.Path.{subst}
use u_psu.Common.Sets.{contains, contains-cons, contains-head, contains-tail}
use u_psu.Common.Results.{ok_injective, ok}
use u_psu.PsuParams.{PsuParams}
use u_psu.Interpolate.{Modulus}
use u_psu.DbEncoding.{Item, same_item, algebraize_item}
use u_psu.DbEncoding.Size.{algebraize_item_lem}
use u_psu.Workers.Dispatch.{AllPlaced}
use u_psu.ReceiverDb.Prepare.{has, all_locations, place, preprocess_unlabeled_data}
use u_psu.ReceiverDb.Locations.{IsSetup, IsSized, IsSetup-IsSized, unpack_lem}

pub same_item_eq : (x y : Item) → same_item x y ≡ true → x ≡ y
same_item_eq (a, b) (c, d) h = elim (Bool-cases (a == c)) [
  | inr n ↦ absurd (ground arith)
  | inl t ↦ let e = ==→eq a c t in let g : b ≡ d = ==→eq b d (ground arith) in cc (e, g)
]

pub has-cons :
    (y x : Item) (items : List Item) → has (y ∷ items) x ≡ true → (y ≡ x) ⊎ (has items x ≡ true)
has-cons y x items h = elim (Bool-cases (same_item y x)) [
  | inl t ↦ inl (same_item_eq y x t)
  | inr n ↦ inr (ground arith)
]

AllPlaced-append :
    (bins n : ℕ) (xs ys : List (List ℕ × ℕ))
    → AllPlaced bins n xs
    → AllPlaced bins n ys
    → AllPlaced bins n (xs ++ ys)
AllPlaced-append bins n [] ys h g = g
AllPlaced-append bins n ((d, c) ∷ xs) ys (pos, fits, lt, h) g =
    (pos, fits, lt, AllPlaced-append bins n xs ys h g)

-- An entry at some place of a vector.
abbrev pub IsEntry : List (List ℕ × ℕ) → List ℕ → ℕ → Type 0
IsEntry out d c = (k : ℕ) × (get_elem? out k ≡ some (d, c))

IsEntry-append_left :
    (xs ys : List (List ℕ × ℕ)) (d : List ℕ) (c : ℕ) → IsEntry xs d c → IsEntry (xs ++ ys) d c
IsEntry-append_left [] ys d c (k, e) = cc e
IsEntry-append_left (x ∷ xs) ys d c (zero, e) = (zero, e)
IsEntry-append_left (x ∷ xs) ys d c (suc k, e) =
    let (k', e') = IsEntry-append_left xs ys d c (k, e) in (suc k', e')

IsEntry-append_right :
    (xs ys : List (List ℕ × ℕ)) (d : List ℕ) (c : ℕ) → IsEntry ys d c → IsEntry (xs ++ ys) d c
IsEntry-append_right [] ys d c h = h
IsEntry-append_right (x ∷ xs) ys d c h =
    let (k', e') = IsEntry-append_right xs ys d c h in (suc k', e')

IsEntry-place :
    (d : List ℕ) (felts : ℕ) (ls : List ℕ) (l : ℕ)
    → contains ls l ≡ true
    → IsEntry (place d felts ls) d (l * felts)
unfolding place
IsEntry-place d felts [] l h = cc h
IsEntry-place d felts (x ∷ ls) l h = elim (contains-cons x l ls h) [
  | inl e ↦ (zero, ap (λ (z : ℕ). some (d, z * felts)) e)
  | inr g ↦ let (k, e) = IsEntry-place d felts ls l g in (suc k, e)
]

module _ (location : ℕ → ℕ → Item → ℕ) where
  all_locations_lt :
      (n count i : ℕ) (item : Item) (l : ℕ)
      → ((i : ℕ) → location n i item < n)
      → contains (all_locations location n count i item) l ≡ true
      → l < n
  unfolding all_locations
  all_locations_lt n zero i item l h m = cc m
  all_locations_lt n (suc count) i item l h m =
      elim (Bool-cases
        (contains (all_locations location n count (i + 1) item) (location n i item))) [
          | inl old ↦ all_locations_lt n count (i + 1) item l h (sym (rw old refl) ∙ m)
          | inr new ↦ elim (contains-cons (location n i item) l _ (sym (rw new refl) ∙ m)) [
            | inl e ↦ subst (λ (z : ℕ). z < n) e (h i)
            | inr g ↦ all_locations_lt n count (i + 1) item l h g
          ]
        ]

AllPlaced-place :
    (p : PsuParams) (d : List ℕ) (ls : List ℕ)
    → IsSized p
    → length d ≡ p.item_params.felts_per_item
    → ((l : ℕ) → contains ls l ≡ true → l < p.table_params.table_size)
    → AllPlaced p.bins_per_bundle p.bundle_idx_count (place d p.item_params.felts_per_item ls)
unfolding place
AllPlaced-place p d [] sized size h = tt
AllPlaced-place p d (l ∷ ls) sized size h =
    let felts : ℕ = p.item_params.felts_per_item in
    let below : l < p.bundle_idx_count * p.items_per_bundle =
      subst (λ (n : ℕ). l < n) (sym sized.table_eq) (h l (contains-head l ls)) in
    let (fits, lt) =
      unpack_lem felts p.items_per_bundle p.bins_per_bundle p.bundle_idx_count l sized.felts_pos
        sized.items_pos sized.bins_eq below in
    (
      rw size sized.felts_pos,
      rw size fits,
      lt,
      AllPlaced-place p d ls sized size (λ l' m. h l' (contains-tail l l' ls m)),
    )

abbrev pub locations_of : (ℕ → ℕ → Item → ℕ) → PsuParams → Item → List ℕ
locations_of location p item =
    all_locations location p.table_params.table_size p.table_params.hash_func_count 0 item

-- The elements of an item.
abbrev pub IsAlgebraic : Modulus → PsuParams → Item → List ℕ → Type 0
IsAlgebraic m p item d =
    algebraize_item item p.item_bit_count (m.value == 0) p.seal_params.plain_modulus_bit_count
    ≡ ok d

module _ (m : Modulus) (location : ℕ → ℕ → Item → ℕ) (p : PsuParams)
    (setup : IsSetup m location p) where
  algebraic :
      (item : Item)
      → (d : List ℕ) × IsAlgebraic m p item d × (length d ≡ p.item_params.felts_per_item)
  algebraic item =
      let sized = IsSetup-IsSized m location p setup in
      let prime : (m.value == 0) ≡ false = ne_==_zero m.value setup.large in
      let (d, run, size) =
        algebraize_item_lem item p.item_params.felts_per_item p.seal_params.plain_modulus_bit_count
          sized.more sized.few sized.felts_pos sized.bits_fit in
      (d, rw (prime, sized.bits_eq) run, size)
    where
      ne_==_zero : (n : ℕ) → 1 < n → (n == 0) ≡ false
      ne_==_zero n h = ground arith

  -- Each of the items has its elements at each of its locations.
  pub preprocess_lem :
      (items : List Item)
      → (out : List (List ℕ × ℕ)) × (preprocess_unlabeled_data m location items p ≡ ok out)
        × AllPlaced p.bins_per_bundle p.bundle_idx_count out
        × ((x : Item) (d : List ℕ) (l : ℕ)
            → has items x ≡ true
            → IsAlgebraic m p x d
            → contains (locations_of location p x) l ≡ true
            → IsEntry out d (l * p.item_params.felts_per_item))
  unfolding preprocess_unlabeled_data
  preprocess_lem [] = ([], refl, tt, λ x d l h. cc h)
  preprocess_lem (item ∷ items) =
      let sized = IsSetup-IsSized m location p setup in
      let (d, run, size) = algebraic item in
      let (out, runs, placed, entries) = preprocess_lem items in
      let felts : ℕ = p.item_params.felts_per_item in
      let here : List (List ℕ × ℕ) = place d felts (locations_of location p item) in
      (
        here ++ out,
        rw (run, runs) refl,
        AllPlaced-append p.bins_per_bundle p.bundle_idx_count here out
            (AllPlaced-place p d (locations_of location p item) sized size (λ l h.
              all_locations_lt location p.table_params.table_size p.table_params.hash_func_count 0
                item l (λ i. setup.locates _ i item sized.table_pos) h))
            placed,
        λ x d' l h alg at. elim (has-cons item x items h) [
          | inr g ↦ IsEntry-append_right here out d' _ (entries x d' l g alg at)
          | inl e ↦
              let same : d ≡ d' =
                ok_injective (sym run ∙ subst (λ (z : Item). IsAlgebraic m p z d') (sym e) alg) in
              let at' : contains (locations_of location p item) l ≡ true =
                subst (λ (z : Item). contains (locations_of location p z) l ≡ true) (sym e) at in
              IsEntry-append_left here out d' _ (
                subst (λ (z : List ℕ). IsEntry here z (l * felts)) same
                  (IsEntry-place d felts (locations_of location p item) l at'))
        ],
      )
