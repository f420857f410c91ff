-- ===== src/CuckooFilter/Adding.antt =====
-- CuckooFilter::add and add_index_tag of receiver/apsu/util/cuckoo_filter.cpp: no item gets lost.
use u_psu.Common.{
  ℕ, ◌+◌, ◌%◌, ◌^◌, ◌<◌, ◌≡◌, refl, sym, ap, ◌∙◌, ◌⊎◌, inl, inr, Bool, true, false, Option, none,
  some, if◌then◌else◌, arith,
}
use mathlib.Core.Path.{subst}
use u_psu.Common.Results.{Result, ok, ◌>>=◌}
use u_psu.CuckooTable.{CuckooFilterTable}
use u_psu.CuckooFilter.{CuckooFilter, contains, add, add_index_tag, kick, max_cuckoo_kicks}
use u_psu.CuckooFilter.Tags.{HasTag, IsSameShape}
use u_psu.CuckooFilter.Indices.{HasPowerOfTwo, get_index-lt}
use u_psu.CuckooFilter.Kicks.{
  IsLocated, IsCarried, IsKicked, kick-IsKicked, get_alt_index-IsSameShape,
}
use u_psu.CuckooFilter.Members.{
  waiting, IsFilter, tag_of, index_of, tag_of_bounds, get_tag_and_index-IsSameShape,
  IsLocated-contains, contains-IsLocated,
}

-- The filter behind `add_index_tag`, by the tag that found no room.
abbrev placed : CuckooFilter → CuckooFilterTable → Option (ℕ × ℕ) → CuckooFilter
placed f t' none = record f { table = t' }
placed f t' (some (i, x)) = record f {
  table = t';
  overflow = record { index = i; tag = x; used = true };
}

module _ (random_array rnd : ℕ → ℕ) where
  -- The place of a tag by the buckets of the new table.
  IsLocated-rebase :
      (t t' : CuckooFilterTable) (power : HasPowerOfTwo t) (power' : HasPowerOfTwo t')
      (carry : Option (ℕ × ℕ)) (k x : ℕ)
      → t'.num_buckets ≡ t.num_buckets
      → IsLocated random_array t power t' carry k x
      → IsLocated random_array t' power' t' carry k x
  IsLocated-rebase t t' power power' carry k x e (inl has) = inl has
  IsLocated-rebase t t' power power' carry k x e (inr (inl has)) = inr (
      inl (
        subst (λ (z : ℕ). HasTag t' z x) (sym (get_alt_index-IsSameShape random_array t t' k x e))
          has))
  IsLocated-rebase t t' power power' none k x e (inr (inr l)) = absurd l
  IsLocated-rebase t t' power power' (some (c, y)) k x e (inr (inr (same, inl here))) =
      inr (inr (same, inl here))
  IsLocated-rebase t t' power power' (some (c, y)) k x e (inr (inr (same, inr there))) =
      inr (inr (same, inr (there ∙ sym (get_alt_index-IsSameShape random_array t t' k x e))))

  IsLocated-IsSameShape :
      (t t' : CuckooFilterTable) (power : HasPowerOfTwo t) (power' : HasPowerOfTwo t')
      (carry : Option (ℕ × ℕ)) (item : ℕ)
      → IsSameShape t t'
      → IsLocated random_array t power t' carry
          (index_of random_array t item)
          (tag_of random_array t item)
      → IsLocated random_array t' power' t' carry
          (index_of random_array t' item)
          (tag_of random_array t' item)
  IsLocated-IsSameShape t t' power power' carry item shape l =
      subst (λ (p : ℕ × ℕ). IsLocated random_array t' power' t' carry p.1 p.0)
        (sym (get_tag_and_index-IsSameShape random_array t t' item shape))
        (IsLocated-rebase t t' power power' carry (index_of random_array t item)
          (tag_of random_array t item) shape.buckets l)

  add_index_tag-placed :
      (f : CuckooFilter) (c y : ℕ) (t' : CuckooFilterTable) (carry : Option (ℕ × ℕ))
      → kick random_array rnd max_cuckoo_kicks 0 c y f.table ≡ ok (t', carry)
      → add_index_tag random_array rnd c y f ≡ ok (placed f t' carry)
  unfolding add_index_tag
  add_index_tag-placed f c y t' none run = rw run refl
  add_index_tag-placed f c y t' (some (i, x)) run = rw run refl

  placed-IsFilter :
      (f : CuckooFilter) (h : IsFilter f) (c y : ℕ) (t' : CuckooFilterTable)
      (carry : Option (ℕ × ℕ))
      → f.overflow.used ≡ false
      → IsKicked random_array f.table h.power f.table c y t' carry
      → IsFilter (placed f t' carry)
  placed-IsFilter f h c y t' none empty k = record {
    table = k.shape.table;
    power = (h.power.0, k.shape.buckets ∙ h.power.1);
    overflow = λ u. cc (u, empty);
  }
  placed-IsFilter f h c y t' (some (i, x)) empty k = record {
    table = k.shape.table;
    power = (h.power.0, k.shape.buckets ∙ h.power.1);
    overflow =
        λ u. (omega (arith, k.placed.0, k.shape.buckets), k.placed.1, rw k.shape.bits k.placed.2);
  }

  waiting-placed :
      (f : CuckooFilter) (t' : CuckooFilterTable) (carry : Option (ℕ × ℕ))
      → f.overflow.used ≡ false
      → waiting (placed f t' carry).overflow ≡ carry
  waiting-placed f t' none empty = simp empty
  waiting-placed f t' (some (i, x)) empty = refl

  placed-table :
      (f : CuckooFilter) (t' : CuckooFilterTable) (carry : Option (ℕ × ℕ))
      → (placed f t' carry).table ≡ t'
  placed-table f t' none = refl
  placed-table f t' (some (i, x)) = refl

  add_index_tag_lem :
      (f : CuckooFilter) (h : IsFilter f) (c y : ℕ)
      → c < f.table.num_buckets
      → 0 < y
      → y < 2 ^ f.table.bits_per_tag
      → (t' : CuckooFilterTable) × (carry : Option (ℕ × ℕ)) × (add_index_tag random_array rnd c y f
          ≡ ok (placed f t' carry))
        × IsKicked random_array f.table h.power f.table c y t' carry
  add_index_tag_lem f h c y hc pos fits =
      let (t', carry, run, k) =
        kick-IsKicked random_array f.table h.power rnd max_cuckoo_kicks 0 c y f.table
          (record { table = h.table; bits = refl; buckets = refl }) (hc, pos, fits) in
      (t', carry, add_index_tag-placed f c y t' carry run, k)

  pub add_index_tag-IsFilter :
      (f : CuckooFilter)
      → IsFilter f
      → f.overflow.used ≡ false
      → (c y : ℕ) → c < f.table.num_buckets
      → 0 < y
      → y < 2 ^ f.table.bits_per_tag
      → (f' : CuckooFilter) × (add_index_tag random_array rnd c y f ≡ ok f') × IsFilter f'
  add_index_tag-IsFilter f h empty c y hc pos fits =
      let (t', carry, run, k) = add_index_tag_lem f h c y hc pos fits in
      (placed f t' carry, run, placed-IsFilter f h c y t' carry empty k)

  -- A tag located behind the loop is found in the filter.
  placed-contains :
      (f : CuckooFilter) (h : IsFilter f) (c y : ℕ) (t' : CuckooFilterTable)
      (carry : Option (ℕ × ℕ)) (item : ℕ)
      → f.overflow.used ≡ false
      → IsKicked random_array f.table h.power f.table c y t' carry
      → IsLocated random_array f.table h.power t' carry
          (index_of random_array f.table item)
          (tag_of random_array f.table item)
      → contains random_array (placed f t' carry) item ≡ ok true
  placed-contains f h c y t' none item empty k l =
      let h' = placed-IsFilter f h c y t' none empty k in
      IsLocated-contains random_array (placed f t' none) item h' (
        subst
          (λ w.
            IsLocated random_array t' h'.power t' w (index_of random_array t' item)
              (tag_of random_array t' item))
          (sym (waiting-placed f t' none empty))
          (IsLocated-IsSameShape f.table t' h.power h'.power none item k.shape l))
  placed-contains f h c y t' (some (i, x)) item empty k l =
      let h' = placed-IsFilter f h c y t' (some (i, x)) empty k in
      IsLocated-contains random_array (placed f t' (some (i, x))) item h'
        (IsLocated-IsSameShape f.table t' h.power h'.power (some (i, x)) item k.shape l)

  -- An item that is found, or is the new one, is located when the loop starts.
  IsLocated-start :
      (f : CuckooFilter) (h : IsFilter f) (item other : ℕ)
      → f.overflow.used ≡ false
      → (other ≡ item) ⊎ (contains random_array f other ≡ ok true)
      → IsLocated random_array f.table h.power f.table
          (some (index_of random_array f.table item, tag_of random_array f.table item))
          (index_of random_array f.table other)
          (tag_of random_array f.table other)
  IsLocated-start f h item other empty (inl same) = inr (
      inr (
        ap (λ (z : ℕ). tag_of random_array f.table z) (sym same),
        inl (ap (λ (z : ℕ). index_of random_array f.table z) (sym same)),
      ))
  IsLocated-start f h item other empty (inr found) =
      elim (contains-IsLocated random_array f other h found) [
        | inl has ↦ inl has
        | inr (inl has) ↦ inr (inl has)
        | inr (inr carried) ↦ absurd (
            subst
              (λ b.
                IsCarried random_array f.table h.power
                  (if b then some (f.overflow.index, f.overflow.tag) else none)
                  (index_of random_array f.table other) (tag_of random_array f.table other))
              empty carried)
      ]

  add-placed :
      (f : CuckooFilter) (item : ℕ) (g : CuckooFilter)
      → f.overflow.used ≡ false
      → add_index_tag random_array rnd
          (index_of random_array f.table item)
          (tag_of random_array f.table item)
          f
        ≡ ok g
      → add random_array rnd item f ≡ ok (true, record g { num_items = (g.num_items + 1) % 2 ^ 64 })
  unfolding add
  add-placed f item g empty run =
      let rest = λ (r : Result CuckooFilter). r >>= λ f'.
      let done : Result (Bool × CuckooFilter) =
        ok (true, record f' { num_items = (f'.num_items + 1) % 2 ^ 64 }) in
      done in
      subst
        (λ b.
          (if b
            then ok (false, f)
            else rest (
                add_index_tag random_array rnd (index_of random_array f.table item)
                  (tag_of random_array f.table item) f))
          ≡ ok (true, record g { num_items = (g.num_items + 1) % 2 ^ 64 }))
        (sym empty) (ap rest run)

  contains-counted :
      (f : CuckooFilter) (n item : ℕ)
      → contains random_array (record f { num_items = n }) item ≡ contains random_array f item
  unfolding contains
  contains-counted f n item = refl

  -- `add` on a filter whose overflow slot is free ends without an exception, and behind it
  -- `contains` finds the item and all that it found before.
  pub add-contains :
      (f : CuckooFilter) (item other : ℕ)
      → IsFilter f
      → f.overflow.used ≡ false
      → (other ≡ item) ⊎ (contains random_array f other ≡ ok true)
      → (f' : CuckooFilter) × (add random_array rnd item f ≡ ok (true, f'))
        × IsFilter f'
        × (contains random_array f' other ≡ ok true)
  add-contains f item other h empty start =
      let pos_fits = tag_of_bounds random_array f.table item h.table in
      let (t', carry, run, k) =
        add_index_tag_lem f h (index_of random_array f.table item)
          (tag_of random_array f.table item) (get_index-lt f.table h.power random_array item)
          pos_fits.0 pos_fits.1 in
      let g = placed f t' carry in
      let h' = placed-IsFilter f h _ _ t' carry empty k in
      let other_bounds = tag_of_bounds random_array f.table other h.table in
      let l =
        k.located (index_of random_array f.table other) (tag_of random_array f.table other)
          other_bounds.0 (get_index-lt f.table h.power random_array other)
          (IsLocated-start f h item other empty start) in
      (
        record g { num_items = (g.num_items + 1) % 2 ^ 64 },
        add-placed f item g empty run,
        record { table = h'.table; power = h'.power; overflow = h'.overflow },
        contains-counted g _ other ∙ placed-contains f h _ _ t' carry other empty k l,
      )
