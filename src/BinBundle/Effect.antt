-- ===== src/BinBundle/Effect.antt =====
-- What an insertion of items without labels does to each bin.
use u_psu.Common.{
  ℕ, zero, suc, ◌+◌, ◌^◌, ◌≡◌, refl, ap, true, false, some, List, [], ◌∷◌, ◌++◌, ltb, ◌==◌, length,
  get_elem?, get_or, arith, get_or-modify_ne, get_or-modify_self, length-modify, length-append, inl,
  inr, ◌⊎◌, ◌<◌, ◌≤◌, ◌∙◌, sym, lt→ltb, get_elem?-lt,
}
use u_psu.Common.Results.{ok}
use u_psu.BinBundle.{
  FilterOps, BinBundle, safe_cast32, bin_at, insert_item, running_max, insert_items, no_room,
  multi_insert,
}

module _ {F : Type 0} (xs : List ℕ) (i : ℕ) (b b' : BinBundle F) where
  -- Each item stands at the end of its bin, and all else is as it was.
  pub record IsInserted : Type 0 where
    pub appended :
        (k x : ℕ) → get_elem? xs k ≡ some x → bin_at b' (i + k) ≡ bin_at b (i + k) ++ x ∷ []
    pub before : (j : ℕ) → j < i → bin_at b' j ≡ bin_at b j
    pub behind : (j : ℕ) → i + length xs ≤ j → bin_at b' j ≡ bin_at b j
    pub bins : length b'.item_bins ≡ length b.item_bins
    pub filters : length b'.filters ≡ length b.filters
    pub labels : b'.label_bins ≡ b.label_bins
    pub label_size : b'.label_size ≡ b.label_size
    pub num_bins : b'.num_bins ≡ b.num_bins
    pub max_bin_size : b'.max_bin_size ≡ b.max_bin_size
    pub stripped : b'.stripped ≡ b.stripped

  -- The greatest size of a bin in the range after the insertion.
  pub record IsLargest (n : ℕ) : Type 0 where
    pub bound : (k : ℕ) → k < length xs → length (bin_at b' (i + k)) ≤ n
    pub attained : (k : ℕ) × (k < length xs) × (length (bin_at b' (i + k)) ≡ n)

module _ {F : Type 0} (ops : FilterOps F) where
  insert_item-IsInserted :
      (x i : ℕ) (b : BinBundle F)
      → i < length b.item_bins
      → IsInserted (x ∷ []) i b (insert_item ops b i x)
  unfolding insert_item
  insert_item-IsInserted x i b h = record {
    appended = λ k y e. one k y e;
    before = λ j lt. get_or-modify_ne b.item_bins i j _ [] (omega arith);
    behind = λ j le. get_or-modify_ne b.item_bins i j _ [] (omega arith);
    bins = length-modify b.item_bins i _;
    filters = length-modify b.filters i _;
    labels = refl;
    label_size = refl;
    num_bins = refl;
    max_bin_size = refl;
    stripped = refl;
  }
    where
      one :
          (k y : ℕ)
          → get_elem? (x ∷ []) k ≡ some y
          → bin_at (insert_item ops b i x) (i + k) ≡ bin_at b (i + k) ++ y ∷ []
      one zero y e =
          let same : x ≡ y = cc e in
          let here : i + 0 ≡ i = omega arith in
          rw (here, ← same) (get_or-modify_self b.item_bins i (λ bin. bin ++ x ∷ []) [] h)
      one (suc k) y e = cc e

  IsInserted-cons :
      (x : ℕ) (xs : List ℕ) (i : ℕ) (b b' b'' : BinBundle F)
      → IsInserted (x ∷ []) i b b'
      → IsInserted xs (i + 1) b' b''
      → IsInserted (x ∷ xs) i b b''
  IsInserted-cons x xs i b b' b'' h k = record {
    appended = all;
    before = λ j lt. k.before j (omega arith) ∙ h.before j lt;
    behind = λ j le. k.behind j (omega arith) ∙ h.behind j (omega arith);
    bins = k.bins ∙ h.bins;
    filters = k.filters ∙ h.filters;
    labels = k.labels ∙ h.labels;
    label_size = k.label_size ∙ h.label_size;
    num_bins = k.num_bins ∙ h.num_bins;
    max_bin_size = k.max_bin_size ∙ h.max_bin_size;
    stripped = k.stripped ∙ h.stripped;
  }
    where
      all :
          (j y : ℕ)
          → get_elem? (x ∷ xs) j ≡ some y
          → bin_at b'' (i + j) ≡ bin_at b (i + j) ++ y ∷ []
      all zero y e = k.before (i + 0) (omega arith) ∙ h.appended zero y e
      all (suc j) y e =
          let there : i + suc j ≡ i + 1 + j = omega arith in
          rw there
            (k.appended j y e ∙ ap (λ bin. bin ++ y ∷ []) (h.behind (i + 1 + j) (omega arith)))

  insert_items-IsInserted :
      (xs : List ℕ) (i m : ℕ) (b : BinBundle F)
      → i + length xs ≤ length b.item_bins
      → IsInserted xs i b (insert_items ops xs i false m b).1
  unfolding insert_items
  insert_items-IsInserted [] i m b h = record {
    appended = λ k x e. cc e;
    before = λ j lt. refl;
    behind = λ j le. refl;
    bins = refl;
    filters = refl;
    labels = refl;
    label_size = refl;
    num_bins = refl;
    max_bin_size = refl;
    stripped = refl;
  }
  insert_items-IsInserted (x ∷ xs) i m b h =
      let first = insert_item-IsInserted x i b (omega arith) in
      IsInserted-cons x xs i b (insert_item ops b i x) _ first (
        insert_items-IsInserted xs (i + 1) (running_max m b i) (insert_item ops b i x)
          (omega (arith, first.bins)))

  -- The running maximum, in terms of the bins before the insertion.
  insert_items_max :
      (xs : List ℕ) (i m : ℕ) (b : BinBundle F)
      → i + length xs ≤ length b.item_bins
      → (m ≤ (insert_items ops xs i false m b).0)
        × ((k : ℕ)
            → k < length xs
            → length (bin_at b (i + k)) + 1 ≤ (insert_items ops xs i false m b).0)
        × (((insert_items ops xs i false m b).0 ≡ m)
            ⊎ ((k : ℕ) × (k < length xs)
                × (length (bin_at b (i + k)) + 1 ≡ (insert_items ops xs i false m b).0)))
  unfolding insert_items
  insert_items_max [] i m b h = (omega arith, λ k lt. absurd (omega arith), inl refl)
  insert_items_max (x ∷ xs) i m b h =
      let next : BinBundle F = insert_item ops b i x in
      let first = insert_item-IsInserted x i b (omega arith) in
      let top = running_max m b i in
      let (low, each, attained) =
        insert_items_max xs (i + 1) top next (omega (arith, first.bins)) in
      let n = (insert_items ops xs (i + 1) false top next).0 in
      let step_low : m ≤ top = ground arith in
      let step_new : length (bin_at b i) + 1 ≤ top = ground arith in
      let step_from : (top ≡ m) ⊎ (top ≡ length (bin_at b i) + 1) = ground arith in
      (
        omega arith,
        λ k lt. bound k lt n low step_new first each,
        elim attained [
          | inr (k, lt, e) ↦
              let there : i + suc k ≡ i + 1 + k = omega arith in
              inr (suc k, omega arith, rw (there, ← first.behind (i + 1 + k) (omega arith)) e)
          | inl e ↦ elim step_from [
            | inl f ↦ inl (e ∙ f)
            | inr f ↦
                let here : i + 0 ≡ i = omega arith in inr (0, omega arith, rw here (sym (e ∙ f)))
          ]
        ],
      )
    where
      bound :
          (k : ℕ)
          → k < suc (length xs)
          → (n : ℕ) → running_max m b i ≤ n
          → length (bin_at b i) + 1 ≤ running_max m b i
          → IsInserted (x ∷ []) i b (insert_item ops b i x)
          → ((k : ℕ) → k < length xs → length (bin_at (insert_item ops b i x) (i + 1 + k)) + 1 ≤ n)
          → length (bin_at b (i + k)) + 1 ≤ n
      bound zero lt n low new first each = let e : i + 0 ≡ i = omega arith in rw e (omega arith)
      bound (suc k) lt n low new first each =
          let e : i + suc k ≡ i + 1 + k = omega arith in
          rw (e, ← first.behind (i + 1 + k) (omega arith)) (each k (omega arith))

  -- The running maximum, in terms of the bins after the insertion.
  insert_items-IsLargest :
      (xs : List ℕ) (i : ℕ) (b : BinBundle F)
      → i + length xs ≤ length b.item_bins
      → 0 < length xs
      → IsLargest xs i b (insert_items ops xs i false 0 b).1 (insert_items ops xs i false 0 b).0
  insert_items-IsLargest xs i b h pos =
      let (low, each, attained) = insert_items_max xs i 0 b h in
      let done = insert_items-IsInserted xs i 0 b h in
      let after = (insert_items ops xs i false 0 b).1 in
      let size = λ (k : ℕ) (lt : k < length xs). new_size xs i b after done k lt in
      record {
        bound = λ k lt. omega (arith, each k lt, size k lt);
        attained = elim attained [
          | inl z ↦ absurd (omega (arith, each 0 pos))
          | inr (k, lt, e) ↦ (k, lt, omega (arith, size k lt))
        ];
      }
    where
      new_size :
          (xs : List ℕ) (i : ℕ) (b b' : BinBundle F)
          → IsInserted xs i b b'
          → (k : ℕ) → k < length xs
          → length (bin_at b' (i + k)) ≡ length (bin_at b (i + k)) + 1
      new_size xs i b b' h k lt =
          let (x, e) = get_elem?-lt xs k lt in
          rw (h.appended k x e) (length-append (bin_at b (i + k)) (x ∷ []))

-- The vectors of a bundle that is not stripped have the dimensions that the constructor gives
-- them, and each bin of labels is as long as its bin of items.
pub record IsWellFormed {F : Type 0} (b : BinBundle F) : Type 0 where
  pub item_count : length b.item_bins ≡ b.num_bins
  pub filter_count : length b.filters ≡ b.num_bins
  pub label_count : length b.label_bins ≡ b.label_size
  pub label_bin_count : (l : ℕ) → l < b.label_size → length (get_or b.label_bins l []) ≡ b.num_bins
  pub parallel :
      (l i : ℕ)
      → l < b.label_size
      → length (get_or (get_or b.label_bins l []) i []) ≡ length (bin_at b i)

ne_==_zero : (n : ℕ) → 0 < n → (n == 0) ≡ false
ne_==_zero n h = ground arith

room :
    {F : Type 0} (start : ℕ) (b : BinBundle F) (n : ℕ)
    → start + n ≤ b.num_bins
    → 0 < n
    → no_room b start n ≡ false
room start b n h pos = ground arith

-- Items for an unlabeled bundle, where the range lies within the bins and the sizes within 31
-- bits: the insertion succeeds and appends each item to its bin, the other bins, the labels and
-- the parameters stay, the bundle stays well-formed, and the result is the greatest new size.
pub multi_insert_lem :
    {F : Type 0} (ops : FilterOps F) (items : List ℕ) (start : ℕ) (b : BinBundle F)
    → IsWellFormed b
    → b.stripped ≡ false
    → b.label_size ≡ 0
    → 0 < length items
    → start + length items ≤ b.num_bins
    → ((j : ℕ) → length (bin_at b j) + 1 < 2 ^ 31)
    → (n : ℕ) × (b' : BinBundle F) × (multi_insert ops items start false b ≡ ok (some n, b'))
      × IsInserted items start b b'
      × IsLargest items start b b' n
      × IsWellFormed b'
unfolding multi_insert safe_cast32
multi_insert_lem ops items start b wf open_ unlabeled pos fits small =
    let r = insert_items ops items start false 0 b in
    let within : start + length items ≤ length b.item_bins = omega (arith, wf.item_count) in
    let done = insert_items-IsInserted ops items start 0 b within in
    let (low, each, attained) = insert_items_max ops items start 0 b within in
    let cast : ltb r.0 (2 ^ 31) ≡ true = elim attained [
      | inl z ↦ lt→ltb _ _ (omega arith)
      | inr (k, lt, e) ↦ lt→ltb _ _ (omega (arith, small (start + k)))
    ] in
    (
      r.0,
      r.1,
      simp (open_, ne_==_zero _ pos, unlabeled, room start b (length items) fits pos, cast),
      done,
      insert_items-IsLargest ops items start b within pos,
      record {
        item_count = done.bins ∙ wf.item_count ∙ sym done.num_bins;
        filter_count = done.filters ∙ wf.filter_count ∙ sym done.num_bins;
        label_count = ap length done.labels ∙ wf.label_count ∙ sym done.label_size;
        label_bin_count = λ l lt. absurd (omega (arith, done.label_size));
        parallel = λ l i lt. absurd (omega (arith, done.label_size));
      },
    )
