-- ===== src/BinBundle/Insert.antt =====
-- Dry runs of the two insertions.
use u_psu.Common.{
  ℕ, ◌+◌, ◌^◌, ◌≡◌, refl, ap, Bool, true, false, not, none, List, [], ◌∷◌, ltb, ◌==◌, if◌then◌else◌,
  length, arith, get_or-modify_ne, Bool-cases, inl, inr, ◌≤◌, ◌∙◌, sym,
}
use u_psu.Common.Results.{Result, ok, err, logic_error, invalid_argument, ◌>>=◌}
use u_psu.BinBundle.{
  FilterOps, BinBundle, Size, safe_cast32, bin_at, insert_item, running_max, insert_items, finish,
  no_room, multi_insert, push_labels, ItemLabels, insert_item_labels, multi_insert_labeled,
  sizes_match, any_present,
}

-- The same result, with the bundle as it was.
abbrev pub keep :
    {F : Type 0} → BinBundle F → Result (Size × BinBundle F) → Result (Size × BinBundle F)
keep b r = r >>= λ p. ok (p.0, b)

module _ {F : Type 0} (ops : FilterOps F) where
  insert_items-dry :
      (xs : List ℕ) (i m : ℕ) (b b' : BinBundle F)
      → ((j : ℕ) → i ≤ j → bin_at b j ≡ bin_at b' j)
      → insert_items ops xs i true m b ≡ ((insert_items ops xs i false m b').0, b)
  unfolding insert_items insert_item
  insert_items-dry [] i m b b' h = refl
  insert_items-dry (x ∷ xs) i m b b' h =
      let same : running_max m b i ≡ running_max m b' i = rw (h i (omega arith)) in
      insert_items-dry xs (i + 1) (running_max m b i) b (insert_item ops b' i x)
        (λ j le. h j (omega arith) ∙ sym (get_or-modify_ne b'.item_bins i j _ [] (omega arith)))
      ∙ ap (λ k. ((insert_items ops xs (i + 1) false k (insert_item ops b' i x)).0, b)) same

  pub insert_item_labels-dry :
      (xs : ItemLabels) (i m : ℕ) (b b' : BinBundle F)
      → ((j : ℕ) → i ≤ j → bin_at b j ≡ bin_at b' j)
      → insert_item_labels ops xs i true m b ≡ ((insert_item_labels ops xs i false m b').0, b)
  unfolding insert_item_labels insert_item
  insert_item_labels-dry [] i m b b' h = refl
  insert_item_labels-dry ((x, l) ∷ xs) i m b b' h =
      let same : running_max m b i ≡ running_max m b' i = rw (h i (omega arith)) in
      let next : BinBundle F = insert_item ops b' i x in
      let after : BinBundle F = record next { label_bins = push_labels next.label_bins l i } in
      insert_item_labels-dry xs (i + 1) (running_max m b i) b after
        (λ j le. h j (omega arith) ∙ sym (get_or-modify_ne b'.item_bins i j _ [] (omega arith)))
      ∙ ap (λ k. ((insert_item_labels ops xs (i + 1) false k after).0, b)) same

module _ {F : Type 0} where
  finish-dry :
      (r s : ℕ × BinBundle F) (b : BinBundle F) → r ≡ (s.0, b) → finish r ≡ keep b (finish s)
  unfolding safe_cast32
  finish-dry r s b e = elim (Bool-cases (ltb s.0 (2 ^ 31))) [
    | inl t ↦ rw (e, t)
    | inr t ↦ rw (e, t)
  ]

  -- The tests before the insertion of items, in their order.
  abbrev tests :
      BinBundle F
      → Bool
      → Bool
      → Bool
      → Bool
      → Result (Size × BinBundle F)
      → Result (Size × BinBundle F)
  tests b stripped empty wrong full rest =
      if stripped
      then err logic_error
      else (if empty
          then ok (none, b)
          else (if wrong then err logic_error else (if full then ok (none, b) else rest)))

  tests-keep :
      (b : BinBundle F) (stripped empty wrong full : Bool) (r r' : Result (Size × BinBundle F))
      → r ≡ keep b r'
      → tests b stripped empty wrong full r ≡ keep b (tests b stripped empty wrong full r')
  tests-keep b true e w f r r' h = refl
  tests-keep b false true w f r r' h = refl
  tests-keep b false false true f r r' h = refl
  tests-keep b false false false true r r' h = refl
  tests-keep b false false false false r r' h = h

  -- The tests before the insertion of items with labels.
  abbrev tests_labeled :
      BinBundle F
      → Bool
      → Bool
      → Bool
      → Bool
      → Bool
      → Bool
      → Result (Size × BinBundle F)
      → Result (Size × BinBundle F)
  tests_labeled b stripped empty wrong sizes full present rest =
      if stripped
      then err logic_error
      else (if empty
          then ok (none, b)
          else (if wrong
              then err logic_error
              else (if sizes
                  then err invalid_argument
                  else (if full then ok (none, b) else (if present then ok (none, b) else rest)))))

  tests_labeled-keep :
      (b : BinBundle F) (stripped empty wrong sizes full present : Bool)
      (r r' : Result (Size × BinBundle F))
      → r ≡ keep b r'
      → tests_labeled b stripped empty wrong sizes full present r
        ≡ keep b (tests_labeled b stripped empty wrong sizes full present r')
  tests_labeled-keep b true e w s f p r r' h = refl
  tests_labeled-keep b false true w s f p r r' h = refl
  tests_labeled-keep b false false true s f p r r' h = refl
  tests_labeled-keep b false false false true f p r r' h = refl
  tests_labeled-keep b false false false false true p r r' h = refl
  tests_labeled-keep b false false false false false true r r' h = refl
  tests_labeled-keep b false false false false false false r r' h = h

-- On every branch, exceptions included, a dry run returns what the insertion returns and leaves
-- the bundle as it was.
pub multi_insert-dry_run :
    {F : Type 0} (ops : FilterOps F) (items : List ℕ) (start : ℕ) (b : BinBundle F)
    → multi_insert ops items start true b ≡ keep b (multi_insert ops items start false b)
unfolding multi_insert
multi_insert-dry_run ops items start b =
    tests-keep b b.stripped (length items == 0) (not (b.label_size == 0))
      (no_room b start (length items)) _ _
      (finish-dry _ (insert_items ops items start false 0 b) b
        (insert_items-dry ops items start 0 b b (λ j le. refl)))

-- With labels, on every branch, exceptions included, a dry run returns what the insertion returns
-- and leaves the bundle as it was.
pub multi_insert_labeled-dry_run :
    {F : Type 0} (ops : FilterOps F) (items : ItemLabels) (start : ℕ) (b : BinBundle F)
    → multi_insert_labeled ops items start true b
      ≡ keep b (multi_insert_labeled ops items start false b)
unfolding multi_insert_labeled
multi_insert_labeled-dry_run ops items start b =
    tests_labeled-keep b b.stripped (length items == 0) (b.label_size == 0)
      (not (sizes_match b.label_size items)) (no_room b start (length items))
      (any_present ops b items start) _ _
      (finish-dry _ (insert_item_labels ops items start false 0 b) b
        (insert_item_labels-dry ops items start 0 b b (λ j le. refl)))
