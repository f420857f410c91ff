-- ===== src/Workers/Room.antt =====
-- The bundles of a set and the bound on their bins, behind an insertion of items without labels.
use u_psu.Common.{
  ℕ, ◌+◌, ◌-◌, ◌^◌, ◌≡◌, ◌<◌, ◌≤◌, refl, sym, ap, ◌∙◌, ◌⊎◌, inl, inr, Bool, true, false, some, List,
  [], ◌∷◌, ◌++◌, ◌==◌, ltb, length, get_elem?, arith, ltb→lt, ltb→ge, Bool-cases, get_elem?-lt,
  le→ltb_false, get_or-replicate_self,
}
use mathlib.Core.Path.{subst}
use u_psu.Common.Sets.{contains}
use u_psu.Common.Results.{ok}
use u_psu.BinBundle.{FilterOps, BinBundle, bin_at, multi_insert}
use u_psu.BinBundle.Effect.{IsInserted, IsLargest, IsWellFormed, multi_insert_lem}
use u_psu.BinBundle.Insert.{keep, multi_insert-dry_run}
use u_psu.BinBundle.Edit.{new, clear, initial}
use u_psu.BinBundle.Edit.Cleared.{clear-IsWellFormed}
use u_psu.Workers.{unlabeled_calls, Layout, within_bound, try_insert, insert_new}

pub contains-append_left :
    (xs : List ℕ) (y x : ℕ) → contains xs x ≡ true → contains (xs ++ y ∷ []) x ≡ true
contains-append_left [] y x e = cc e
contains-append_left (z ∷ xs) y x e = ground (arith, contains-append_left xs y x)

pub contains-append_self : (xs : List ℕ) (x : ℕ) → contains (xs ++ x ∷ []) x ≡ true
contains-append_self [] x = ground arith
contains-append_self (z ∷ xs) x = ground (arith, contains-append_self xs x)

module _ {F : Type 0} where
  -- What a bundle holds, the next one holds.
  abbrev pub Grows : BinBundle F → BinBundle F → Type 0
  Grows b b' = (i x : ℕ) → contains (bin_at b i) x ≡ true → contains (bin_at b' i) x ≡ true

  -- Each of the elements stands in its bin, from bin `i` on.
  abbrev pub HoldsAll : BinBundle F → List ℕ → ℕ → Type 0
  HoldsAll b d i = (k x : ℕ) → get_elem? d k ≡ some x → contains (bin_at b (i + k)) x ≡ true

-- A bundle in the set at some index: well-formed, with the dimensions of the layout, and each bin
-- below the bound.
pub record IsBundle {F : Type 0} (layout : Layout) (b : BinBundle F) : Type 0 where
  pub formed : IsWellFormed b
  pub open_ : b.stripped ≡ false
  pub label_size : b.label_size ≡ layout.label_size
  pub num_bins : b.num_bins ≡ layout.bins_per_bundle
  pub bound : (i : ℕ) → length (bin_at b i) < layout.max_bin_size

-- The layouts of a database without labels.
pub record IsUnlabeled (layout : Layout) : Type 0 where
  pub no_labels : layout.label_size ≡ 0
  pub some_room : 1 < layout.max_bin_size
  pub small : layout.max_bin_size < 2 ^ 31
  pub low_degree : layout.ps_low_degree ≤ layout.max_bin_size
  pub some_bins : 0 < layout.bins_per_bundle

module _ {F : Type 0} (d : List ℕ) (i : ℕ) (b b' : BinBundle F) (h : IsInserted d i b b') where
  -- The three parts of the bins.
  place_cases : (j : ℕ) → (j < i) ⊎ ((i + length d ≤ j) ⊎ ((k : ℕ) × (k < length d) × (i + k ≡ j)))
  place_cases j = elim (Bool-cases (ltb j i)) [
    | inl low ↦ inl (ltb→lt j i low)
    | inr high ↦ elim (Bool-cases (ltb j (i + length d))) [
      | inr above ↦ inr (inl (ltb→ge j (i + length d) above))
      | inl low ↦
          let ge = ltb→ge j i high in
          let lt = ltb→lt j (i + length d) low in inr (inr (j - i, omega arith, omega arith))
    ]
  ]

  IsInserted-Grows : Grows b b'
  IsInserted-Grows j x e = elim (place_cases j) [
    | inl lt ↦ rw (h.before j lt) e
    | inr (inl le) ↦ rw (h.behind j le) e
    | inr (inr (k, lt, there)) ↦
        let (y, at) = get_elem?-lt d k lt in
        let e' = subst (λ (q : ℕ). contains (bin_at b q) x ≡ true) (sym there) e in
        subst (λ (q : ℕ). contains (bin_at b' q) x ≡ true) there
          (rw (h.appended k y at) (contains-append_left (bin_at b (i + k)) y x e'))
  ]

  IsInserted-HoldsAll : HoldsAll b' d i
  IsInserted-HoldsAll k x at = rw (h.appended k x at) (contains-append_self (bin_at b (i + k)) x)

  -- Where the greatest new size is below the bound, all sizes are.
  IsInserted_bound :
      (n max : ℕ)
      → IsLargest d i b b' n
      → n < max
      → ((j : ℕ) → length (bin_at b j) < max)
      → (j : ℕ) → length (bin_at b' j) < max
  IsInserted_bound n max largest lt old j = elim (place_cases j) [
    | inl low ↦ rw (h.before j low) (old j)
    | inr (inl le) ↦ rw (h.behind j le) (old j)
    | inr (inr (k, k_lt, there)) ↦
        let all = largest.bound k k_lt in
        subst (λ (q : ℕ). length (bin_at b' q) < max) there (omega arith)
  ]

module _ {F : Type 0} (ops : FilterOps F) (layout : Layout) (plain : IsUnlabeled layout)
    (d : List ℕ) (i : ℕ) (pos : 0 < length d) (fits : i + length d ≤ layout.bins_per_bundle) where
  -- An insertion into a bundle with the bins below some bound.
  insert_lem :
      (b : BinBundle F)
      → IsBundle layout b
      → (n : ℕ) × (b' : BinBundle F) × (multi_insert ops d i false b ≡ ok (some n, b'))
        × IsInserted d i b b'
        × IsLargest d i b b' n
        × IsWellFormed b'
  insert_lem b h =
      multi_insert_lem ops d i b h.formed h.open_ (h.label_size ∙ plain.no_labels) pos
        (omega (arith, h.num_bins)) (λ j. omega (arith, h.bound j, plain.small))

  inserted-IsBundle :
      (b b' : BinBundle F) (n : ℕ)
      → IsBundle layout b
      → IsInserted d i b b'
      → IsLargest d i b b' n
      → IsWellFormed b'
      → n < layout.max_bin_size
      → IsBundle layout b'
  inserted-IsBundle b b' n h done largest formed lt = record {
    formed = formed;
    open_ = done.stripped ∙ h.open_;
    label_size = done.label_size ∙ h.label_size;
    num_bins = done.num_bins ∙ h.num_bins;
    bound = IsInserted_bound d i b b' done n layout.max_bin_size largest lt h.bound;
  }

  pub try_insert_lem :
      (b : BinBundle F)
      → IsBundle layout b
      → (written : Bool) × (b' : BinBundle F) × (try_insert
            (unlabeled_calls ops)
            layout.max_bin_size
            d
            i
            b
          ≡ ok (written, b'))
        × IsBundle layout b'
        × Grows b b'
        × (written ≡ true → HoldsAll b' d i)
  unfolding try_insert
  try_insert_lem b h =
      let (n, b', run, done, largest, formed) = insert_lem b h in
      let dry : multi_insert ops d i true b ≡ ok (some n, b) =
        multi_insert-dry_run ops d i b ∙ ap (keep b) run in
      elim (Bool-cases (within_bound layout.max_bin_size (some n))) [
        | inl room ↦
            let lt : n < layout.max_bin_size = ground arith in
            (
              true,
              b',
              rw (dry, room, run) refl,
              inserted-IsBundle b b' n h done largest formed lt,
              IsInserted-Grows d i b b' done,
              λ w. IsInserted-HoldsAll d i b b' done,
            )
        | inr full ↦ (false, b, rw (dry, full) refl, h, λ j x e. e, λ w. cc w)
      ]

  -- The bundle that `insert_new` starts from.
  abbrev fresh : BinBundle F
  fresh =
      clear ops false
        (initial layout.label_size layout.max_bin_size layout.ps_low_degree layout.bins_per_bundle)

  fresh_bins : (j : ℕ) → bin_at fresh j ≡ []
  unfolding clear
  fresh_bins j = get_or-replicate_self layout.bins_per_bundle j []

  fresh-IsBundle : IsBundle layout fresh
  unfolding clear
  fresh-IsBundle = record {
    formed =
        (clear-IsWellFormed ops
          (initial layout.label_size layout.max_bin_size layout.ps_low_degree
            layout.bins_per_bundle)
          0 0 plain.some_bins).0;
    open_ = refl;
    label_size = refl;
    num_bins = refl;
    bound = λ j. omega (arith, ap length (fresh_bins j), plain.some_room);
  }

  new-fresh :
      new ops true layout.label_size layout.max_bin_size layout.ps_low_degree layout.bins_per_bundle
        false
      ≡ ok fresh
  unfolding new
  new-fresh =
      let degree : ltb layout.max_bin_size layout.ps_low_degree ≡ false =
        le→ltb_false layout.max_bin_size layout.ps_low_degree plain.low_degree in
      let bins : (layout.bins_per_bundle == 0) ≡ false = let h = plain.some_bins in ground arith in
      rw (degree, bins) refl

  pub insert_new_lem :
      (b : BinBundle F) × (insert_new ops (unlabeled_calls ops) layout d i ≡ ok b)
      × IsBundle layout b
      × HoldsAll b d i
  unfolding insert_new
  insert_new_lem =
      let (n, b', run, done, largest, formed) = insert_lem fresh fresh-IsBundle in
      let (k, k_lt, size) = largest.attained in
      let (x, at) = get_elem?-lt d k k_lt in
      let one : n ≡ 1 =
        sym size
        ∙ ap length
            (done.appended k x at ∙ ap (λ (bin : List ℕ). bin ++ x ∷ []) (fresh_bins (i + k))) in
      (
        b',
        rw (new-fresh, run) refl,
        inserted-IsBundle fresh b' n fresh-IsBundle done largest formed
            (omega (arith, plain.some_room)),
        IsInserted-HoldsAll d i fresh b' done,
      )
