-- ===== src/CuckooFilter/Removing.antt =====
-- CuckooFilter::remove and try_eliminate_overflow keep a filter well-formed.
use u_psu.Common.{
  ℕ, ◌≡◌, refl, sym, ◌∙◌, ◌⊎◌, inl, inr, Bool, true, false, ◌&&◌, ◌||◌, ◌==◌, if◌then◌else◌, arith,
  Bool-cases,
}
use mathlib.Core.Path.{subst}
use u_psu.Common.Results.{ok}
use u_psu.CuckooTable.{CuckooFilterTable, delete_tag}
use u_psu.CuckooFilter.{
  CuckooFilter, contains, remove, add_index_tag, try_eliminate_overflow, one_less, get_alt_index,
}
use u_psu.CuckooFilter.Tags.{IsSameShape, delete_tag_lem}
use u_psu.CuckooFilter.Indices.{get_index-lt, get_alt_index-lt}
use u_psu.CuckooFilter.Members.{
  IsFilter, tag_of, index_of, tag_of_bounds, is_waiting_lem, contains_lem, IsLocated-contains,
}
use u_psu.CuckooFilter.Adding.{add_index_tag-IsFilter}

module _ (random_array rnd : ℕ → ℕ) where
  try_eliminate_overflow-IsFilter :
      (f : CuckooFilter)
      → IsFilter f
      → (f' : CuckooFilter) × (try_eliminate_overflow random_array rnd f ≡ ok f') × IsFilter f'
  unfolding try_eliminate_overflow
  try_eliminate_overflow-IsFilter f h = elim (Bool-cases f.overflow.used) [
    | inr empty ↦ (f, simp empty, h)
    | inl used ↦
        let g : CuckooFilter = record f { overflow = record f.overflow { used = false } } in
        let hg : IsFilter g = record { table = h.table; power = h.power; overflow = λ e. cc e } in
        let (c, pos, fits) = h.overflow used in
        let (f', run, h') =
          add_index_tag-IsFilter random_array rnd g hg refl f.overflow.index f.overflow.tag c pos
            fits in
        (
          f',
          subst
              (λ b.
                (if b
                  then add_index_tag random_array rnd f.overflow.index f.overflow.tag g
                  else ok f)
                ≡ ok f')
              (sym used) run,
          h',
        )
  ]

  -- A filter that lost a tag.
  one_less-IsFilter :
      (f : CuckooFilter) (t' : CuckooFilterTable)
      → IsFilter f
      → IsSameShape f.table t'
      → IsFilter (one_less f t')
  one_less-IsFilter f t' h shape = record {
    table = shape.table;
    power = (h.power.0, shape.buckets ∙ h.power.1);
    overflow = λ e.
        let (c, pos, fits) = h.overflow e in
        (omega (arith, shape.buckets), pos, rw shape.bits fits);
  }

  -- The same test, in the order of `remove`.
  waiting_order :
      (used tag here there : Bool)
      → (used && (here || there) && tag) ≡ (used && tag && (here || there))
  waiting_order false tag here there = refl
  waiting_order true false false false = refl
  waiting_order true false false true = refl
  waiting_order true false true there = refl
  waiting_order true true false false = refl
  waiting_order true true false true = refl
  waiting_order true true true there = refl

  -- Neither bucket has the tag.
  module _ (f : CuckooFilter) (item : ℕ)
      (missing : delete_tag f.table
          (index_of random_array f.table item)
          (tag_of random_array f.table item)
        ≡ ok (false, f.table))
      (missing' : delete_tag f.table
          (get_alt_index random_array f.table
            (index_of random_array f.table item)
            (tag_of random_array f.table item))
          (tag_of random_array f.table item)
        ≡ ok (false, f.table)) where
    abbrev waits : Bool
    waits =
        f.overflow.used
        && ((f.overflow.index == index_of random_array f.table item)
            || (f.overflow.index
                == get_alt_index random_array f.table (index_of random_array f.table item)
                    (tag_of random_array f.table item)))
        && (f.overflow.tag == tag_of random_array f.table item)

    remove-waiting :
        waits ≡ true
        → remove random_array rnd item f
          ≡ ok (true, record (one_less f f.table) { overflow = record f.overflow { used = false } })
    unfolding remove
    remove-waiting w = rw (missing, missing', w) refl

    remove-missing : waits ≡ false → remove random_array rnd item f ≡ ok (false, f)
    unfolding remove
    remove-missing w = rw (missing, missing', w) refl

  -- The removal of an item ends without an exception and keeps the filter well-formed. It returns
  -- true exactly when `contains` finds the item, and otherwise the filter is as it was.
  pub remove-contains :
      (f : CuckooFilter) (item : ℕ)
      → IsFilter f
      → ((f' : CuckooFilter) × (remove random_array rnd item f ≡ ok (true, f'))
          × (contains random_array f item ≡ ok true)
          × IsFilter f')
        ⊎ ((remove random_array rnd item f ≡ ok (false, f))
            × (contains random_array f item ≡ ok false))
  unfolding remove
  remove-contains f item h =
      let x : ℕ = tag_of random_array f.table item in
      let k : ℕ = index_of random_array f.table item in
      let l : ℕ = get_alt_index random_array f.table k x in
      let hk = get_index-lt f.table h.power random_array item in
      let hl = get_alt_index-lt f.table h.power random_array k x hk in
      let (pos, fits) = tag_of_bounds random_array f.table item h.table in
      let o = f.overflow in
      elim (delete_tag_lem f.table k x h.table hk fits) [
        | inl (t', run, shape, has) ↦
            let (f', run', h') =
              try_eliminate_overflow-IsFilter (one_less f t') (one_less-IsFilter f t' h shape) in
            inl (f', rw (run, run') refl, IsLocated-contains random_array f item h (inl has), h')
        | inr (missing, none_here) ↦ elim (delete_tag_lem f.table l x h.table hl fits) [
          | inl (t', run, shape, has) ↦
              let (f', run', h') =
                try_eliminate_overflow-IsFilter (one_less f t') (one_less-IsFilter f t' h shape) in
              inl (
                f',
                rw (missing, run, run') refl,
                IsLocated-contains random_array f item h (inr (inl has)),
                h',
              )
          | inr (missing', none_there) ↦
              let order = waiting_order o.used (o.tag == x) (o.index == k) (o.index == l) in
              elim (is_waiting_lem random_array f.table h.power o k x) [
                | inl (w, carried) ↦
                    let test = order ∙ w in
                    inl (
                      record (one_less f f.table) { overflow = record o { used = false } },
                      remove-waiting f item missing missing' test,
                      IsLocated-contains random_array f item h (inr (inr carried)),
                      record { table = h.table; power = h.power; overflow = λ e. cc e },
                    )
                | inr (w, free) ↦ inr (
                  remove-missing f item missing missing' (order ∙ w),
                  elim (contains_lem random_array f item h) [
                    | inr (e, out) ↦ e
                    | inl (e, located) ↦ elim located [
                      | inl has ↦ absurd (none_here has)
                      | inr rest ↦ elim rest [
                        | inl has ↦ absurd (none_there has)
                        | inr carried ↦ absurd (free carried)
                      ]
                    ]
                  ],
                )
              ]
        ]
      ]
