-- ===== src/Workers/Duplicate.antt =====
-- Overwriting where the last bundle of a set does not hold the item but has room for it.
use u_psu.Common.{
  ℕ, zero, suc, ◌+◌, ◌^◌, ◌≡◌, ◌≢◌, ◌<◌, ◌≤◌, refl, sym, ap, ◌∙◌, inl, inr, true, false, some, List,
  [], ◌∷◌, ◌++◌, lt→ltb, ltb, ltb→lt, ltb→ge, ◌==◌, ==→eq, ==_refl, if◌then◌else◌, Bool-cases,
  arith, length, get_elem?, get_or, length-modify, get_or-modify_self, get_or-modify_ne,
}
use u_psu.Common.Results.{ok}
use u_psu.BinBundle.{
  FilterOps, BinBundle, Size, ItemLabels, bin_at, running_max, no_room, insert_item, push_labels,
  insert_item_labels, any_present, sizes_match, multi_insert_labeled, safe_cast32,
}
use u_psu.BinBundle.Effect.{IsWellFormed}
use u_psu.BinBundle.Edit.{items_of, all_present, try_multi_overwrite_labeled}
use u_psu.BinBundle.Insert.{insert_item_labels-dry}
use u_psu.Workers.Room.{Grows, HoldsAll, contains-append_left, contains-append_self}
use u_psu.Common.Sets.{contains}
use mathlib.Core.Path.{subst}
use u_psu.Workers.{
  Overloads, Layout, try_insert, write_bundle, write_set, insert_or_assign_one, labeled_calls,
}

module _ {F T : Type 0} (calls : Overloads F T) (max_bin_size : ℕ) (d : T) (i : ℕ) where
  -- The bundles before the last one are not looked at.
  write_set_last :
      (earlier : List (BinBundle F)) (last last' : BinBundle F)
      → write_bundle calls true max_bin_size d i last ≡ ok (true, last')
      → write_set calls true max_bin_size d i (earlier ++ last ∷ [])
        ≡ ok (true, earlier ++ last' ∷ [])
  unfolding write_set
  write_set_last [] last last' e = rw e refl
  write_set_last (b ∷ earlier) last last' e = rw (write_set_last earlier last last' e) refl

  write_bundle_inserts :
      (b b' : BinBundle F) (n : ℕ) (size : Size)
      → calls.overwrite d i b ≡ ok (false, b)
      → calls.insert d i true b ≡ ok (some n, b)
      → 0 < n
      → n < max_bin_size
      → calls.insert d i false b ≡ ok (size, b')
      → write_bundle calls true max_bin_size d i b ≡ ok (true, b')
  unfolding write_bundle try_insert
  write_bundle_inserts b b' n size missing dry pos small run =
      let p = lt→ltb 0 n pos in
      let q = lt→ltb n max_bin_size small in rw (missing, dry, p, q, run) refl

module _ {F : Type 0} (ops : FilterOps F) where
  -- The bundle behind the insertion of one item.
  abbrev one_more : BinBundle F → ℕ → ℕ → List ℕ → BinBundle F
  one_more b i x l = record (insert_item ops b i x) {
    label_bins = push_labels (insert_item ops b i x).label_bins l i;
  }

  one_more-Grows : (b : BinBundle F) (i x : ℕ) (l : List ℕ) → Grows b (one_more b i x l)
  unfolding insert_item
  one_more-Grows b i x l j y m = elim (Bool-cases (j == i)) [
    | inr other ↦
        let ne : i ≢ j = λ e. cc (other, ap (λ (z : ℕ). z == i) e, ==_refl i) in
        rw (get_or-modify_ne b.item_bins i j (λ bin. bin ++ x ∷ []) [] ne) m
    | inl same ↦
        let e = ==→eq j i same in
        elim (Bool-cases (ltb j (length b.item_bins))) [
          | inl t ↦
              let within : i < length b.item_bins =
                omega (arith, ltb→lt j (length b.item_bins) t) in
              let bin = get_or-modify_self b.item_bins i (λ bin. bin ++ x ∷ []) [] within in
              subst (λ (z : ℕ). contains (bin_at (one_more b i x l) z) y ≡ true) (sym e)
                (rw bin (
                  contains-append_left (bin_at b i) x y
                    (subst (λ (z : ℕ). contains (bin_at b z) y ≡ true) e m)))
          | inr t ↦ absurd (beyond b.item_bins j y (ltb→ge j (length b.item_bins) t) m)
        ]
  ]
    where
      beyond :
          (bins : List (List ℕ)) (j y : ℕ)
          → length bins ≤ j
          → contains (get_or bins j []) y ≡ true
          → ⊥
      beyond [] j y h m = cc m
      beyond (bin ∷ bins) zero y h m = omega arith
      beyond (bin ∷ bins) (suc j) y h m = beyond bins j y (omega arith) m

  length-one_more :
      (b : BinBundle F) (i x : ℕ) (l : List ℕ)
      → length (one_more b i x l).item_bins ≡ length b.item_bins
  unfolding insert_item
  length-one_more b i x l = length-modify b.item_bins i _

  one_more_holds :
      (b : BinBundle F) (i x : ℕ) (l : List ℕ)
      → i < length b.item_bins
      → contains (bin_at (one_more b i x l) i) x ≡ true
  unfolding insert_item
  one_more_holds b i x l h =
      rw (get_or-modify_self b.item_bins i (λ bin. bin ++ x ∷ []) [] h)
        (contains-append_self (bin_at b i) x)

  insert_item_labels-HoldsAll :
      (xs : ItemLabels) (i m : ℕ) (b : BinBundle F)
      → i + length xs ≤ length b.item_bins
      → Grows b (insert_item_labels ops xs i false m b).1
        × HoldsAll (insert_item_labels ops xs i false m b).1 (items_of xs) i
  unfolding insert_item_labels
  insert_item_labels-HoldsAll [] i m b h = (λ j y e. e, λ k x e. cc e)
  insert_item_labels-HoldsAll ((x, l) ∷ xs) i m b h =
      let next = one_more b i x l in
      let same : length next.item_bins ≡ length b.item_bins = length-one_more b i x l in
      let (grows, holds) =
        insert_item_labels-HoldsAll xs (i + 1) (running_max m b i) next (omega arith) in
      (
        λ j y e. grows j y (one_more-Grows b i x l j y e),
        all x xs i (insert_item_labels ops xs (i + 1) false (running_max m b i) next).1
            (grows i x (one_more_holds b i x l (omega arith))) holds,
      )
    where
      all :
          (x : ℕ) (xs : ItemLabels) (i : ℕ) (b : BinBundle F)
          → contains (bin_at b i) x ≡ true
          → HoldsAll b (items_of xs) (i + 1)
          → (k y : ℕ) → get_elem? (x ∷ items_of xs) k ≡ some y
          → contains (bin_at b (i + k)) y ≡ true
      all x xs i b first rest zero y e =
          let same : x ≡ y = cc e in let here : i + 0 ≡ i = omega arith in rw (here, ← same) first
      all x xs i b first rest (suc k) y e =
          let there : i + suc k ≡ i + 1 + k = omega arith in rw there (rest k y e)

  -- The size that a dry run finds stays below a bound.
  insert_item_labels_bound :
      (most : ℕ) (xs : ItemLabels) (i m : ℕ) (b : BinBundle F)
      → ((j : ℕ) → length (bin_at b j) + 1 < most)
      → m < most
      → (n : ℕ) × (insert_item_labels ops xs i true m b ≡ (n, b))
        × (n < most)
        × (m ≤ n)
        × ((0 < length xs) → 0 < n)
  unfolding insert_item_labels
  insert_item_labels_bound most [] i m b room h = (m, refl, h, omega arith, λ e. omega arith)
  insert_item_labels_bound most ((x, l) ∷ xs) i m b room h =
      let next : (running_max m b i < most) × (m ≤ running_max m b i) × (0 < running_max m b i) =
        step m (length (bin_at b i)) most (room i) h in
      let (n, run, below, more, pos) =
        insert_item_labels_bound most xs (i + 1) (running_max m b i) b room next.0 in
      (n, run, below, omega (arith, next.1), λ e. omega (arith, next.2))
    where
      step :
          (m len most : ℕ)
          → len + 1 < most
          → m < most
          → ((if ltb m (len + 1) then len + 1 else m) < most)
            × (m ≤ (if ltb m (len + 1) then len + 1 else m))
            × (0 < (if ltb m (len + 1) then len + 1 else m))
      step m len most h g = elim (Bool-cases (ltb m (len + 1))) [
        | inl t ↦ let lt = ltb→lt m (len + 1) t in rw t (h, omega arith, omega arith)
        | inr t ↦ let ge = ltb→ge m (len + 1) t in rw t (g, omega arith, omega arith)
      ]

all_present-false :
    {F : Type 0} (ops : FilterOps F) (b : BinBundle F) (xs : ItemLabels) (i : ℕ)
    → 0 < length xs
    → any_present ops b xs i ≡ false
    → all_present ops b (items_of xs) i ≡ false
unfolding any_present all_present
all_present-false ops b [] i pos h = absurd (omega arith)
all_present-false ops b ((x, l) ∷ xs) i pos h = ground arith

-- Overwriting the labels of an item, with labels of the right size and a `max_bin_size` below 2^31,
-- in a set whose last bundle is well-formed, labeled and not stripped, has none of the item's
-- elements by `is_present`, but room for them in each bin: no exception is thrown, the earlier
-- bundles stay as they were, even if one of them holds the item with its old label, and the last
-- bundle now holds the item as well and keeps what it held.
pub insert_or_assign_one-duplicate :
    {F : Type 0} (ops : FilterOps F) (layout : Layout) (xs : ItemLabels) (i : ℕ)
    (earlier : List (BinBundle F)) (last : BinBundle F)
    → IsWellFormed last
    → last.stripped ≡ false
    → 0 < last.label_size
    → 0 < length xs
    → sizes_match last.label_size xs ≡ true
    → i + length xs ≤ last.num_bins
    → any_present ops last xs i ≡ false
    → ((j : ℕ) → length (bin_at last j) + 1 < layout.max_bin_size)
    → layout.max_bin_size < 2 ^ 31
    → (last' : BinBundle F) × (insert_or_assign_one ops
          (labeled_calls ops)
          layout
          true
          xs
          i
          (earlier ++ last ∷ [])
        ≡ ok (earlier ++ last' ∷ []))
      × HoldsAll last' (items_of xs) i
      × Grows last last'
unfolding insert_or_assign_one multi_insert_labeled try_multi_overwrite_labeled safe_cast32
insert_or_assign_one-duplicate ops layout xs i earlier last wf open_ labels pos sizes fits missing
      room small =
    let some_item : (length xs == 0) ≡ false = ne_==_zero (length xs) pos in
    let some_labels : (last.label_size == 0) ≡ false = ne_==_zero last.label_size labels in
    let free : no_room last i (length xs) ≡ false = ground arith in
    let (n, run, below, _, more) =
      insert_item_labels_bound ops layout.max_bin_size xs i 0 last room
        (let r = room 0 in omega arith) in
    let r = insert_item_labels ops xs i false 0 last in
    let same : n ≡ r.0 =
      ap (λ (p : ℕ × BinBundle _). p.0)
        (sym run ∙ insert_item_labels-dry ops xs i 0 last last (λ j le. refl)) in
    let cast : ltb r.0 (2 ^ 31) ≡ true = lt→ltb r.0 (2 ^ 31) (omega arith) in
    let cast_dry : ltb n (2 ^ 31) ≡ true = lt→ltb n (2 ^ 31) (omega arith) in
    let none_there = all_present-false ops last xs i pos missing in
    let overwrite : try_multi_overwrite_labeled ops xs i last ≡ ok (false, last) =
      simp (open_, some_item, sizes, free, none_there) in
    let dry : multi_insert_labeled ops xs i true last ≡ ok (some n, last) =
      simp (open_, some_item, some_labels, sizes, free, missing, run, cast_dry) in
    let real : multi_insert_labeled ops xs i false last ≡ ok (some r.0, r.1) =
      simp (open_, some_item, some_labels, sizes, free, missing, cast) in
    let (grows, holds) =
      insert_item_labels-HoldsAll ops xs i 0 last (omega (arith, wf.item_count)) in
    let w = write_set_last (labeled_calls ops) layout.max_bin_size xs i earlier last r.1 (
      write_bundle_inserts (labeled_calls ops) layout.max_bin_size xs i last r.1 n (some r.0)
        overwrite dry (more pos) below real) in
    (r.1, rw w refl, holds, grows)
  where
    ne_==_zero : (n : ℕ) → 0 < n → (n == 0) ≡ false
    ne_==_zero n h = ground arith
