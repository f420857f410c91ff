-- ===== src/BinBundle/Edit/Removed.antt =====
-- What BinBundle::try_multi_remove does to each bin.
use u_psu.Common.{
  ℕ, zero, suc, ◌+◌, ◌≡◌, ◌<◌, ◌≤◌, refl, sym, ap, ◌∙◌, ◌⊎◌, inl, inr, true, false, none, some,
  List, [], ◌∷◌, ◌==◌, length, get_elem?, get_or, modify, erase_at, map, arith, length-modify,
  get_elem?-lt, Bool-cases, Option-cases,
}
use mathlib.Core.Path.{subst}
use mathlib.Core.List.{Perm}
use u_psu.Common.Sets.{contains}
use u_psu.Common.Results.{ok}
use u_psu.BinBundle.{FilterOps, BinBundle, bin_at, filter_holds, no_room}
use u_psu.BinBundle.Effect.{IsWellFormed}
use u_psu.BinBundle.Edit.{
  find_pos, erase_places, get_iterator, find_places, erase_items, try_multi_remove,
}
use u_psu.BinBundle.Edit.Places.{
  some_injective, length-map, get_or-map, get_elem?-some, find_pos-Perm, IsErased,
  erase_places-IsErased, IsErased-length, IsErased-le,
}

-- Each item is gone from its bin, once, and all else is as it was.
pub record IsRemoved {F : Type 0} (items : List ℕ) (start : ℕ) (b b' : BinBundle F) : Type 0 where
  pub gone :
      (k x : ℕ)
      → get_elem? items k ≡ some x
      → Perm (bin_at b (start + k)) (x ∷ bin_at b' (start + k))
  pub before : (j : ℕ) → j < start → bin_at b' j ≡ bin_at b j
  pub behind : (j : ℕ) → start + length items ≤ j → bin_at b' j ≡ bin_at b j
  pub smaller : (j : ℕ) → length (bin_at b' j) ≤ length (bin_at b j)
  pub label_size : b'.label_size ≡ b.label_size
  pub num_bins : b'.num_bins ≡ b.num_bins
  pub stripped : b'.stripped ≡ b.stripped

find_pos-none : (xs : List ℕ) (x : ℕ) → find_pos xs x ≡ none → contains xs x ≡ false
unfolding find_pos
find_pos-none [] x e = refl
find_pos-none (y ∷ xs) x e = elim (Bool-cases (y == x)) [
  | inl same ↦
      let here : find_pos (y ∷ xs) x ≡ some 0 = rw same refl in
      let bad : none ≡ some 0 = sym e ∙ here in cc bad
  | inr other ↦ elim (Option-cases (find_pos xs x)) [
    | inl missing ↦ rw other (find_pos-none xs x missing)
    | inr (q, found) ↦
        let there : find_pos (y ∷ xs) x ≡ some (suc q) = rw (other, found) refl in
        let bad : none ≡ some (suc q) = sym e ∙ there in cc bad
  ]
]

module _ {F : Type 0} (ops : FilterOps F) where
  erase_items_lem :
      (ps : List ℕ) (i : ℕ) (b : BinBundle F)
      → ((erase_items ops ps i b).item_bins ≡ erase_places b.item_bins ps i)
        × ((erase_items ops ps i b).label_bins ≡ b.label_bins)
        × (length (erase_items ops ps i b).filters ≡ length b.filters)
        × ((erase_items ops ps i b).label_size ≡ b.label_size)
        × ((erase_items ops ps i b).num_bins ≡ b.num_bins)
        × ((erase_items ops ps i b).stripped ≡ b.stripped)
  unfolding erase_items erase_places
  erase_items_lem [] i b = (refl, refl, refl, refl, refl, refl)
  erase_items_lem (p ∷ ps) i b =
      let next : BinBundle F = record b {
        filters = modify b.filters i (λ f. (ops.remove f (get_or (bin_at b i) p 0)).1);
        item_bins = modify b.item_bins i (λ bin. erase_at bin p);
        cache_invalid = true;
      } in
      let (bins, labels, filters, size, count, stripped) = erase_items_lem ps (i + 1) next in
      (bins, labels, filters ∙ length-modify b.filters i _, size, count, stripped)

  get_iterator_lem :
      (b : BinBundle F) (i x p : ℕ)
      → get_iterator ops b i x ≡ some p
      → find_pos (bin_at b i) x ≡ some p
  unfolding get_iterator
  get_iterator_lem b i x p e = elim (Bool-cases (filter_holds ops b.filters i x)) [
    | inl holds ↦
        let same : get_iterator ops b i x ≡ find_pos (bin_at b i) x =
          rw (holds, get_iterator) refl in
        sym same ∙ e
    | inr out ↦
        let missing : get_iterator ops b i x ≡ none = rw (out, get_iterator) refl in
        let bad : none ≡ some p = sym missing ∙ e in cc bad
  ]

  abbrev IsFound : BinBundle F → List ℕ → ℕ → List ℕ → Type 0
  IsFound b xs i ps =
      (length ps ≡ length xs)
      × ((k x : ℕ)
          → get_elem? xs k ≡ some x
          → (p : ℕ) × (get_elem? ps k ≡ some p) × (find_pos (bin_at b (i + k)) x ≡ some p))

  IsFound-cons :
      (b : BinBundle F) (x : ℕ) (xs : List ℕ) (i p : ℕ) (ps : List ℕ)
      → find_pos (bin_at b i) x ≡ some p
      → IsFound b xs (i + 1) ps
      → IsFound b (x ∷ xs) i (p ∷ ps)
  IsFound-cons b x xs i p ps e h = (ap suc h.0, all)
    where
      all :
          (k y : ℕ)
          → get_elem? (x ∷ xs) k ≡ some y
          → (q : ℕ) × (get_elem? (p ∷ ps) k ≡ some q) × (find_pos (bin_at b (i + k)) y ≡ some q)
      all zero y s =
          let same : x ≡ y = cc s in
          let here : i + 0 ≡ i = omega arith in (p, refl, rw (here, ← same) e)
      all (suc k) y s =
          let there : i + suc k ≡ i + 1 + k = omega arith in
          let (q, at, found) = h.1 k y s in (q, at, rw there found)

  find_places_lem :
      (b : BinBundle F) (xs : List ℕ) (i : ℕ) (ps : List ℕ)
      → find_places ops b xs i ≡ some ps
      → IsFound b xs i ps
  unfolding find_places
  find_places_lem b [] i ps e =
      subst (λ qs. IsFound b [] i qs) (some_injective e) (refl, λ k x s. cc s)
  find_places_lem b (x ∷ xs) i ps e = elim (Option-cases (get_iterator ops b i x)) [
    | inl missing ↦
        let out : find_places ops b (x ∷ xs) i ≡ none = rw (missing, find_places) refl in
        let bad : none ≡ some ps = sym out ∙ e in cc bad
    | inr (p, found) ↦ elim (Option-cases (find_places ops b xs (i + 1))) [
      | inl missing ↦
          let out : find_places ops b (x ∷ xs) i ≡ none = rw (found, missing, find_places) refl in
          let bad : none ≡ some ps = sym out ∙ e in cc bad
      | inr (qs, rest) ↦
          let all : find_places ops b (x ∷ xs) i ≡ some (p ∷ qs) =
            rw (found, rest, find_places) refl in
          subst (λ rs. IsFound b (x ∷ xs) i rs) (some_injective (sym all ∙ e))
            (IsFound-cons b x xs i p qs (get_iterator_lem b i x p found)
              (find_places_lem b xs (i + 1) qs rest))
    ]
  ]

  -- Some item is missing: the filter of its bin does not know it, or it is not in the bin.
  abbrev pub IsMissing : List ℕ → ℕ → BinBundle F → Type 0
  IsMissing items start b =
      (k : ℕ) × (x : ℕ) × (get_elem? items k ≡ some x)
      × ((filter_holds ops b.filters (start + k) x ≡ false)
          ⊎ (contains (bin_at b (start + k)) x ≡ false))

  find_places-IsMissing :
      (b : BinBundle F) (xs : List ℕ) (i : ℕ) → find_places ops b xs i ≡ none → IsMissing xs i b
  unfolding find_places get_iterator
  find_places-IsMissing b [] i e = cc e
  find_places-IsMissing b (x ∷ xs) i e = elim (Bool-cases (filter_holds ops b.filters i x)) [
    | inr out ↦ (0, x, refl, let here : i + 0 ≡ i = omega arith in rw here (inl out))
    | inl holds ↦ elim (Option-cases (find_pos (bin_at b i) x)) [
      | inl none_there ↦
          let here : i + 0 ≡ i = omega arith in
          (0, x, refl, rw here (inr (find_pos-none (bin_at b i) x none_there)))
      | inr (p, found) ↦ elim (Option-cases (find_places ops b xs (i + 1))) [
        | inl rest ↦
            let (k, y, at, why) = find_places-IsMissing b xs (i + 1) rest in
            let there : i + suc k ≡ i + 1 + k = omega arith in (suc k, y, at, rw there why)
        | inr (ps, rest) ↦
            let all : find_places ops b (x ∷ xs) i ≡ some (p ∷ ps) =
              rw (holds, found, rest, find_places) refl in
            let bad : none ≡ some (p ∷ ps) = sym e ∙ all in cc bad
      ]
    ]
  ]

  -- The bundle behind the removal.
  abbrev removed : List ℕ → ℕ → BinBundle F → BinBundle F
  removed ps start b = record (erase_items ops ps start b) {
    label_bins = map (λ bins. erase_places bins ps start) (erase_items ops ps start b).label_bins;
  }

  module _ (items : List ℕ) (start : ℕ) (b : BinBundle F) (ps : List ℕ) (wf : IsWellFormed b)
      (fits : start + length items ≤ b.num_bins) (found : IsFound b items start ps) where
    removed-IsErased : IsErased ps start b.item_bins (removed ps start b).item_bins
    removed-IsErased =
        rw (erase_items_lem ps start b).0
          (erase_places-IsErased b.item_bins ps start (omega (arith, wf.item_count, found.0)))

    -- A place that is erased lies in its bin.
    place_lt : (k p : ℕ) → get_elem? ps k ≡ some p → p < length (bin_at b (start + k))
    place_lt k p e =
        let (x, at) = get_elem?-lt items k (omega (arith, found.0, get_elem?-some ps k p e)) in
        let (q, at', pos) = found.1 k x at in
        let same : q ≡ p = some_injective (sym at' ∙ e) in
        omega (arith, (find_pos-Perm (bin_at b (start + k)) x q pos).0)

    removed-IsRemoved : IsRemoved items start b (removed ps start b)
    removed-IsRemoved = record {
      gone = λ k x e.
          let (p, at, pos) = found.1 k x e in
          rw (removed-IsErased.inside k p at) (find_pos-Perm (bin_at b (start + k)) x p pos).1;
      before = removed-IsErased.before;
      behind = λ j le. removed-IsErased.behind j (omega (arith, found.0));
      smaller = IsErased-le ps start b.item_bins (removed ps start b).item_bins removed-IsErased;
      label_size = (erase_items_lem ps start b).3;
      num_bins = (erase_items_lem ps start b).4;
      stripped = (erase_items_lem ps start b).5;
    }

    removed-IsWellFormed : IsWellFormed (removed ps start b)
    removed-IsWellFormed =
        let (bins, labels, filters, size, count, stripped) = erase_items_lem ps start b in
        let f = λ (bins : List (List ℕ)). erase_places bins ps start in
        let within : start + length ps ≤ b.num_bins = omega (arith, found.0) in
        let part : (l : ℕ)
            → l < b.label_size
            → (get_or (removed ps start b).label_bins l [] ≡ f (get_or b.label_bins l []))
              × IsErased ps start (get_or b.label_bins l []) (f (get_or b.label_bins l [])) =
          λ l lt. (
            ap (λ bs. get_or (map f bs) l []) labels
                ∙ get_or-map f b.label_bins l [] [] (omega (arith, wf.label_count)),
            erase_places-IsErased (get_or b.label_bins l []) ps start
                (omega (arith, wf.label_bin_count l lt)),
          ) in
        record {
          item_count = omega (arith, removed-IsErased.count, wf.item_count, count);
          filter_count = omega (arith, filters, wf.filter_count, count);
          label_count = omega (
            arith,
            ap (λ bs. length (map f bs)) labels,
            length-map f b.label_bins,
            wf.label_count,
            size,
          );
          label_bin_count = λ l lt.
              let (e, erased) = part l (omega (arith, size)) in
              omega (
                arith,
                ap length e,
                erased.count,
                wf.label_bin_count l (omega (arith, size)),
                count,
              );
          parallel = λ l i lt.
              let (e, erased) = part l (omega (arith, size)) in
              ap (λ (bs : List (List ℕ)). length (get_or bs i [])) e
              ∙ IsErased-length ps start b.item_bins (removed ps start b).item_bins
                  (get_or b.label_bins l []) (f (get_or b.label_bins l [])) removed-IsErased erased
                  place_lt (λ j. wf.parallel l j (omega (arith, size))) i;
        }

-- Behind a removal of items from a bundle that is not stripped, where the range lies within the
-- bins: it ends without an exception, and either an item is missing, from its bin or from the
-- filter of the bin, and the bundle is as it was, or each item is gone, once, from its bin, and
-- the other bins are as they were. The bundle stays well-formed, the labels included.
pub try_multi_remove_lem :
    {F : Type 0} (ops : FilterOps F) (items : List ℕ) (start : ℕ) (b : BinBundle F)
    → IsWellFormed b
    → b.stripped ≡ false
    → 0 < length items
    → start + length items ≤ b.num_bins
    → ((try_multi_remove ops items start b ≡ ok (false, b)) × IsMissing ops items start b)
      ⊎ ((b' : BinBundle F) × (try_multi_remove ops items start b ≡ ok (true, b'))
          × IsRemoved items start b b'
          × IsWellFormed b')
unfolding try_multi_remove
try_multi_remove_lem ops items start b wf open_ pos fits =
    let some_item : (length items == 0) ≡ false = ground arith in
    let room : no_room b start (length items) ≡ false = ground arith in
    elim (Option-cases (find_places ops b items start)) [
      | inl missing ↦
          inl (
            simp (open_, some_item, room, missing),
            find_places-IsMissing ops b items start missing,
          )
      | inr (ps, e) ↦
          let found = find_places_lem ops b items start ps e in
          inr (
            removed ops ps start b,
            simp (open_, some_item, room, e),
            removed-IsRemoved ops items start b ps wf fits found,
            removed-IsWellFormed ops items start b ps wf fits found,
          )
    ]
