-- ===== src/Workers/Dispatch.antt =====
-- The insertion of items without labels by all tasks of dispatch_insert_or_assign.
use u_psu.Common.{
  ℕ, zero, suc, ◌+◌, ◌≡◌, ◌<◌, ◌≤◌, refl, sym, ap, ◌∙◌, ◌⊎◌, inl, inr, true, false, Option, none,
  some, List, [], ◌∷◌, ◌==◌, length, get_elem?, get_or, set, arith, Bool-cases, length-set,
  get_or-set_self, get_or-set_ne, ==→eq, ==_refl,
}
use mathlib.Core.Path.{subst}
use u_psu.Common.Sets.{contains, contains-cons}
use u_psu.Common.Results.{Result, ok}
use u_psu.BinBundle.{FilterOps, BinBundle}
use u_psu.Workers.{
  unlabeled_calls, Layout, unpack_cuckoo_idx, for_bundle, insert_or_assign_worker, insert_index,
  bundle_indices, run_tasks, dispatch_insert_or_assign,
}
use u_psu.Workers.Room.{IsUnlabeled}
use u_psu.Workers.Insertion.{AllBundles, IsHeld, SetGrows, insert_or_assign_one_lem}

some_injective {ℓ} : {A : Type ℓ} {a b : A} → ◌≡◌ {A = Option A} (some a) (some b) → a ≡ b
some_injective e = cc e

contains-insert_index_self : (i : ℕ) (js : List ℕ) → contains (insert_index i js) i ≡ true
unfolding insert_index
contains-insert_index_self i [] = ground arith
contains-insert_index_self i (j ∷ js) = ground (arith, contains-insert_index_self i js)

contains-insert_index :
    (i k : ℕ) (js : List ℕ) → contains js k ≡ true → contains (insert_index i js) k ≡ true
unfolding insert_index
contains-insert_index i k [] e = cc e
contains-insert_index i k (j ∷ js) e = ground (arith, contains-insert_index i k js)

-- Each entry has a task.
contains-bundle_indices :
    {T : Type 0} (bins : ℕ) (items : List (T × ℕ)) (k : ℕ) (d : T) (c : ℕ)
    → get_elem? items k ≡ some (d, c)
    → contains (bundle_indices bins items) (unpack_cuckoo_idx c bins).1 ≡ true
unfolding bundle_indices
contains-bundle_indices bins [] k d c e = cc e
contains-bundle_indices {T = T} bins ((d', c') ∷ items) zero d c e =
    let same : c' ≡ c = ap (λ (o : Option (T × ℕ)). elim o [ none ↦ c | some q ↦ q.1 ]) e in
    subst
      (λ (z : ℕ).
        contains (insert_index (unpack_cuckoo_idx c' bins).1 (bundle_indices bins items))
          (unpack_cuckoo_idx z bins).1
        ≡ true)
      same (contains-insert_index_self (unpack_cuckoo_idx c' bins).1 (bundle_indices bins items))
contains-bundle_indices bins ((d', c') ∷ items) (suc k) d c e =
    contains-insert_index (unpack_cuckoo_idx c' bins).1 (unpack_cuckoo_idx c bins).1
      (bundle_indices bins items) (contains-bundle_indices bins items k d c e)

-- The entries lie within the bundles, and the bundles within the vector.
abbrev pub AllPlaced : ℕ → ℕ → List (List ℕ × ℕ) → Type 0
AllPlaced bins n [] = Unit
AllPlaced bins n ((d, c) ∷ items) =
    (0 < length d)
    × ((unpack_cuckoo_idx c bins).0 + length d ≤ bins)
    × ((unpack_cuckoo_idx c bins).1 < n)
    × AllPlaced bins n items

module _ {F : Type 0} where
  abbrev pub AllSets : Layout → List (List (BinBundle F)) → Type 0
  AllSets layout bs = (j : ℕ) → AllBundles layout (get_or bs j [])

  abbrev pub IsHeldAt : ℕ → List (List (BinBundle F)) → List ℕ → ℕ → Type 0
  IsHeldAt bins bs d c =
      IsHeld d (unpack_cuckoo_idx c bins).0 (get_or bs (unpack_cuckoo_idx c bins).1 [])

  abbrev pub AllGrow : List (List (BinBundle F)) → List (List (BinBundle F)) → Type 0
  AllGrow bs bs' = (j : ℕ) → SetGrows (get_or bs j []) (get_or bs' j [])

  -- A new set at one index.
  set-AllSets :
      (layout : Layout) (bs : List (List (BinBundle F))) (j : ℕ) (s : List (BinBundle F))
      → j < length bs
      → AllSets layout bs
      → AllBundles layout s
      → AllSets layout (set bs j s)
  set-AllSets layout bs j s h all new k = elim (Bool-cases (j == k)) [
    | inl t ↦
        subst (λ (q : ℕ). AllBundles layout (get_or (set bs j s) q [])) (==→eq j k t)
          (rw (get_or-set_self bs j s [] h) new)
    | inr n ↦
        rw (get_or-set_ne bs j k s [] (λ e. cc (n, ap (λ (q : ℕ). j == q) (sym e), ==_refl j)))
          (all k)
  ]

  set-AllGrow :
      (bs : List (List (BinBundle F))) (j : ℕ) (s : List (BinBundle F))
      → j < length bs
      → SetGrows (get_or bs j []) s
      → AllGrow bs (set bs j s)
  set-AllGrow bs j s h grows k = elim (Bool-cases (j == k)) [
    | inl t ↦
        subst (λ (q : ℕ). SetGrows (get_or bs q []) (get_or (set bs j s) q [])) (==→eq j k t)
          (rw (get_or-set_self bs j s [] h) grows)
    | inr n ↦
        rw (get_or-set_ne bs j k s [] (λ e. cc (n, ap (λ (q : ℕ). j == q) (sym e), ==_refl j)))
          (λ d i e. e)
  ]

module _ {F : Type 0} (ops : FilterOps F) (layout : Layout) (plain : IsUnlabeled layout) where
  abbrev worker :
      ℕ → List (List ℕ × ℕ) → List (List (BinBundle F)) → Result (List (List (BinBundle F)))
  worker i items bs = insert_or_assign_worker ops (unlabeled_calls ops) layout false i items bs

  -- The vectors of bundles before and behind a task, or some tasks.
  pub record IsStep (bs bs' : List (List (BinBundle F))) : Type 0 where
    pub all : AllSets layout bs'
    pub size : length bs' ≡ length bs
    pub grow : AllGrow bs bs'

  IsStep-trans :
      (bs bs' bs'' : List (List (BinBundle F))) → IsStep bs bs' → IsStep bs' bs'' → IsStep bs bs''
  IsStep-trans bs bs' bs'' h g = record {
    all = g.all;
    size = g.size ∙ h.size;
    grow = λ j d i e. g.grow j d i (h.grow j d i e);
  }

  worker_lem :
      (bundle_index : ℕ) (items : List (List ℕ × ℕ)) (bs : List (List (BinBundle F)))
      → AllSets layout bs
      → AllPlaced layout.bins_per_bundle (length bs) items
      → (bs' : List (List (BinBundle F))) × (worker bundle_index items bs ≡ ok bs')
        × IsStep bs bs'
        × ((k : ℕ) (d : List ℕ) (c : ℕ)
            → get_elem? items k ≡ some (d, c)
            → (unpack_cuckoo_idx c layout.bins_per_bundle).1 ≡ bundle_index
            → IsHeldAt layout.bins_per_bundle bs' d c)
  unfolding insert_or_assign_worker for_bundle
  worker_lem bundle_index [] bs all placed =
      (bs, refl, record { all = all; size = refl; grow = λ j d i e. e }, λ k d c e. cc e)
  worker_lem bundle_index ((d, c) ∷ items) bs all (pos, fits, lt, placed) =
      let bin : ℕ = (unpack_cuckoo_idx c layout.bins_per_bundle).0 in
      let j : ℕ = (unpack_cuckoo_idx c layout.bins_per_bundle).1 in
      elim (Bool-cases (j == bundle_index)) [
        | inr other ↦
            let (bs', run, step, held) = worker_lem bundle_index items bs all placed in
            (
              bs',
              rw other run,
              step,
              later d c items bs' bundle_index held
                  (λ e. absurd (ne_of_==_false j bundle_index other e)),
            )
        | inl mine ↦
            let (s', run, new, grows, holds) =
              insert_or_assign_one_lem ops layout plain d bin pos fits (get_or bs j []) (all j) in
            let bs1 = set bs j s' in
            let size : length bs1 ≡ length bs = length-set bs j s' in
            let (bs', run', step, held) =
              worker_lem bundle_index items bs1 (set-AllSets layout bs j s' lt all new)
                (subst (λ (n : ℕ). AllPlaced layout.bins_per_bundle n items) (sym size) placed) in
            let first : IsStep bs bs1 = record {
              all = set-AllSets layout bs j s' lt all new;
              size = size;
              grow = set-AllGrow bs j s' lt grows;
            } in
            (
              bs',
              rw (mine, run) run',
              IsStep-trans bs bs1 bs' first step,
              later d c items bs' bundle_index held
                  (λ e. step.grow j d bin (rw (get_or-set_self bs j s' [] lt) holds)),
            )
      ]
    where
      ne_of_==_false : (a b : ℕ) → (a == b) ≡ false → a ≡ b → ⊥
      ne_of_==_false a b n e = cc (n, ap (λ (q : ℕ). a == q) (sym e), ==_refl a)

      later :
          (d : List ℕ) (c : ℕ) (items : List (List ℕ × ℕ)) (bs' : List (List (BinBundle F)))
          (bundle_index : ℕ)
          → ((k : ℕ) (d : List ℕ) (c : ℕ)
              → get_elem? items k ≡ some (d, c)
              → (unpack_cuckoo_idx c layout.bins_per_bundle).1 ≡ bundle_index
              → IsHeldAt layout.bins_per_bundle bs' d c)
          → ((unpack_cuckoo_idx c layout.bins_per_bundle).1 ≡ bundle_index
              → IsHeldAt layout.bins_per_bundle bs' d c)
          → (k : ℕ) (d' : List ℕ) (c' : ℕ) → get_elem? ((d, c) ∷ items) k ≡ some (d', c')
          → (unpack_cuckoo_idx c' layout.bins_per_bundle).1 ≡ bundle_index
          → IsHeldAt layout.bins_per_bundle bs' d' c'
      later d c items bs' bundle_index held here zero d' c' e mine =
          let same = some_injective e in
          subst (λ (q : List ℕ × ℕ). IsHeldAt layout.bins_per_bundle bs' q.0 q.1) same
            (here (
              ap (λ (q : List ℕ × ℕ). (unpack_cuckoo_idx q.1 layout.bins_per_bundle).1) same
              ∙ mine))
      later d c items bs' bundle_index held here (suc k) d' c' e mine = held k d' c' e mine

  -- The tasks in some order: each entry whose index has a task is held.
  tasks_lem :
      (items : List (List ℕ × ℕ)) (order : List ℕ) (bs : List (List (BinBundle F)))
      → AllSets layout bs
      → AllPlaced layout.bins_per_bundle (length bs) items
      → (bs' : List (List (BinBundle F))) × (run_tasks (λ i bs. worker i items bs) order bs
          ≡ ok bs')
        × IsStep bs bs'
        × ((k : ℕ) (d : List ℕ) (c : ℕ)
            → get_elem? items k ≡ some (d, c)
            → contains order (unpack_cuckoo_idx c layout.bins_per_bundle).1 ≡ true
            → IsHeldAt layout.bins_per_bundle bs' d c)
  unfolding run_tasks
  tasks_lem items [] bs all placed =
      (bs, refl, record { all = all; size = refl; grow = λ j d i e. e }, λ k d c e m. cc m)
  tasks_lem items (i ∷ order) bs all placed =
      let (bs1, run, first, mine) = worker_lem i items bs all placed in
      let (bs', run', rest, held) =
        tasks_lem items order bs1 first.all
          (subst (λ (n : ℕ). AllPlaced layout.bins_per_bundle n items) (sym first.size) placed) in
      (
        bs',
        rw run run',
        IsStep-trans bs bs1 bs' first rest,
        λ k d c e m. elim (contains-cons i (unpack_cuckoo_idx c layout.bins_per_bundle).1 order m) [
          | inl here ↦ rest.grow _ d _ (mine k d c e (sym here))
          | inr there ↦ held k d c e there
        ],
      )

-- The whole dispatch, for all entries at once.
pub dispatch_all_lem :
    {F : Type 0} (ops : FilterOps F) (layout : Layout) (plain : IsUnlabeled layout)
    (items : List (List ℕ × ℕ)) (bs : List (List (BinBundle F)))
    → AllSets layout bs
    → AllPlaced layout.bins_per_bundle (length bs) items
    → (bs' : List (List (BinBundle F))) × (dispatch_insert_or_assign ops
          (unlabeled_calls ops)
          layout
          false
          items
          bs
        ≡ ok bs')
      × IsStep ops layout plain bs bs'
      × ((k : ℕ) (d : List ℕ) (c : ℕ)
          → get_elem? items k ≡ some (d, c)
          → IsHeldAt layout.bins_per_bundle bs' d c)
unfolding dispatch_insert_or_assign
dispatch_all_lem ops layout plain items bs all placed =
    let (bs', run, step, held) =
      tasks_lem ops layout plain items (bundle_indices layout.bins_per_bundle items) bs all
        placed in
    (
      bs',
      run,
      step,
      λ k d c e. held k d c e (contains-bundle_indices layout.bins_per_bundle items k d c e),
    )

-- Items without labels are inserted into a database whose bundles are well-formed, with each bin
-- below `max_bin_size`, which is at least 2 and fits 31 bits; the entries lie within the bundles
-- and the vector. It ends without an exception, the bundles are well-formed and each bin is below
-- the bound, each entry is held by a bundle at its index, and what was held before still is.
pub dispatch_insert_or_assign_lem :
    {F : Type 0} (ops : FilterOps F) (layout : Layout) (items : List (List ℕ × ℕ))
    (bs : List (List (BinBundle F))) (k : ℕ) (d : List ℕ) (c : ℕ)
    → IsUnlabeled layout
    → AllSets layout bs
    → AllPlaced layout.bins_per_bundle (length bs) items
    → (get_elem? items k ≡ some (d, c)) ⊎ IsHeldAt layout.bins_per_bundle bs d c
    → (bs' : List (List (BinBundle F))) × (dispatch_insert_or_assign ops
          (unlabeled_calls ops)
          layout
          false
          items
          bs
        ≡ ok bs')
      × AllSets layout bs'
      × (length bs' ≡ length bs)
      × IsHeldAt layout.bins_per_bundle bs' d c
dispatch_insert_or_assign_lem ops layout items bs k d c plain all placed old =
    let (bs', run, step, held) = dispatch_all_lem ops layout plain items bs all placed in
    (bs', run, step.all, step.size, elim old [ inl e ↦ held k d c e | inr h ↦ step.grow _ d _ h ])
