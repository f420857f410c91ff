-- ===== src/CuckooFilter/Members.antt =====
-- Membership in a filter, and what adding an item does to it.
use u_psu.Common.{
  ℕ, ◌^◌, ◌<◌, ◌≡◌, refl, sym, ap, ◌∙◌, ◌⊎◌, inl, inr, Bool, true, false, Option, none, some, ◌&&◌,
  ◌||◌, ◌==◌, if◌then◌else◌, Bool-cases, ==→eq, ==_refl,
}
use mathlib.Core.Path.{subst}
use u_psu.Common.Results.{ok}
use u_psu.CuckooTable.{CuckooFilterTable}
use u_psu.CuckooTable.RoundTrip.{IsTable}
use u_psu.CuckooTable.Create.{new-IsTable}
use u_psu.CuckooFilter.{
  CuckooFilter, OverflowCache, new, contains, get_tag_and_index, get_alt_index, tag_bit_limit,
  idx_bucket_limit,
}
use u_psu.CuckooFilter.Tags.{IsSameShape, find_tag_in_buckets_lem, ok_injective}
use u_psu.CuckooFilter.Indices.{HasPowerOfTwo, get_alt_index-lt, get_index-lt, tag_bit_limit_bounds}
use u_psu.CuckooFilter.Kicks.{IsLocated, IsCarried}

-- The overflow item, if there is one.
abbrev pub waiting : OverflowCache → Option (ℕ × ℕ)
waiting o = if o.used then some (o.index, o.tag) else none

-- A filter as its constructor and its operations make it.
pub record IsFilter (f : CuckooFilter) : Type 0 where
  pub table : IsTable f.table
  pub power : HasPowerOfTwo f.table
  pub overflow :
      f.overflow.used ≡ true
      → (f.overflow.index < f.table.num_buckets)
        × (0 < f.overflow.tag)
        × (f.overflow.tag < 2 ^ f.table.bits_per_tag)

pub new-IsFilter : (n b : ℕ) → n < 2 ^ 50 → 0 < b → b < 32 → IsFilter (new n b)
unfolding new
new-IsFilter n b h pos narrow =
    let (table, (k, e, below), fill) = new-IsTable n b h pos narrow in
    record { table = table; power = (k, e); overflow = λ e. cc e }

module _ (random_array : ℕ → ℕ) where
  abbrev pub tag_of : CuckooFilterTable → ℕ → ℕ
  tag_of t item = (get_tag_and_index random_array t item).0

  abbrev pub index_of : CuckooFilterTable → ℕ → ℕ
  index_of t item = (get_tag_and_index random_array t item).1

  pub tag_of_bounds :
      (t : CuckooFilterTable) (item : ℕ)
      → IsTable t
      → (0 < tag_of t item) × (tag_of t item < 2 ^ t.bits_per_tag)
  unfolding get_tag_and_index
  tag_of_bounds t item h = tag_bit_limit_bounds t _ h.pos

  pub get_tag_and_index-IsSameShape :
      (t t' : CuckooFilterTable) (item : ℕ)
      → IsSameShape t t'
      → get_tag_and_index random_array t' item ≡ get_tag_and_index random_array t item
  unfolding get_tag_and_index tag_bit_limit idx_bucket_limit
  get_tag_and_index-IsSameShape t t' item h = simp (h.bits, h.buckets)

  -- The test for the overflow item.
  abbrev pub is_waiting : OverflowCache → ℕ → ℕ → ℕ → Bool
  is_waiting o k l x = o.used && (o.tag == x) && ((o.index == k) || (o.index == l))

  pub is_waiting_lem :
      (t : CuckooFilterTable) (power : HasPowerOfTwo t) (o : OverflowCache) (k x : ℕ)
      → ((is_waiting o k (get_alt_index random_array t k x) x ≡ true)
          × IsCarried random_array t power (waiting o) k x)
        ⊎ ((is_waiting o k (get_alt_index random_array t k x) x ≡ false)
            × (IsCarried random_array t power (waiting o) k x → ⊥))
  is_waiting_lem t power o k x =
      let l : ℕ = get_alt_index random_array t k x in
      elim (Bool-cases o.used) [
        | inr empty ↦ inr (
          simp empty,
          λ c.
              subst
                (λ b.
                  IsCarried random_array t power (if b then some (o.index, o.tag) else none) k x)
                empty c,
        )
        | inl u ↦
            let carried =
              subst
                (λ b.
                  IsCarried random_array t power (if b then some (o.index, o.tag) else none) k x)
                (sym u) in
            elim (Bool-cases (o.tag == x)) [
              | inr other ↦ inr (
                simp (u, other),
                λ c.
                    let (e, w) =
                      subst
                        (λ b.
                          IsCarried random_array t power (if b then some (o.index, o.tag) else none)
                            k x)
                        u c in
                    cc (other, ap (λ (q : ℕ). q == x) e, ==_refl x),
              )
              | inl same ↦ elim (Bool-cases (o.index == k)) [
                | inl here ↦
                    inl (
                      simp (u, same, here),
                      carried (==→eq o.tag x same, inl (==→eq o.index k here)),
                    )
                | inr away ↦ elim (Bool-cases (o.index == l)) [
                  | inl there ↦ inl (
                    simp (u, same, away, there),
                    carried (==→eq o.tag x same, inr (==→eq o.index l there)),
                  )
                  | inr gone ↦ inr (
                    simp (u, same, away, gone),
                    λ c.
                        let (e, w) =
                          subst
                            (λ b.
                              IsCarried random_array t power
                                (if b then some (o.index, o.tag) else none) k x)
                            u c in
                        elim w [
                          | inl i ↦ cc (away, ap (λ (q : ℕ). q == k) i, ==_refl k)
                          | inr i ↦ cc (gone, i, ==_refl l)
                        ],
                  )
                ]
              ]
            ]
      ]

  -- `contains` ends without an exception, and finds an item exactly when its tag is located.
  pub contains_lem :
      (f : CuckooFilter) (item : ℕ)
      → (h : IsFilter f)
      → ((contains random_array f item ≡ ok true)
          × IsLocated random_array f.table h.power f.table
              (waiting f.overflow)
              (index_of f.table item)
              (tag_of f.table item))
        ⊎ ((contains random_array f item ≡ ok false)
            × (IsLocated random_array f.table h.power f.table
                  (waiting f.overflow)
                  (index_of f.table item)
                  (tag_of f.table item)
                → ⊥))
  unfolding contains
  contains_lem f item h =
      let x : ℕ = tag_of f.table item in
      let k : ℕ = index_of f.table item in
      let l : ℕ = get_alt_index random_array f.table k x in
      let hk : k < f.table.num_buckets = get_index-lt f.table h.power random_array item in
      let hl = get_alt_index-lt f.table h.power random_array k x hk in
      let (pos, fits) = tag_of_bounds f.table item h.table in
      let look = find_tag_in_buckets_lem f.table k l x h.table hk hl fits in
      elim (is_waiting_lem f.table h.power f.overflow k x) [
        | inl (w, c) ↦ inl (rw w refl, inr (inr c))
        | inr (w, free) ↦ elim look [
          | inl (found, inl has) ↦ inl (rw w found, inl has)
          | inl (found, inr has) ↦ inl (rw w found, inr (inl has))
          | inr (missing, out) ↦ inr (
            rw w missing,
            λ p. elim p [
              | inl has ↦ out (inl has)
              | inr q ↦ elim q [ inl has ↦ out (inr has) | inr c ↦ free c ]
            ],
          )
        ]
      ]

  -- A located item is found, and a found item is located.
  pub IsLocated-contains :
      (f : CuckooFilter) (item : ℕ) (h : IsFilter f)
      → IsLocated random_array f.table h.power f.table
          (waiting f.overflow)
          (index_of f.table item)
          (tag_of f.table item)
      → contains random_array f item ≡ ok true
  IsLocated-contains f item h l = elim (contains_lem f item h) [
    | inl (e, _) ↦ e
    | inr (_, out) ↦ absurd (out l)
  ]

  pub contains-IsLocated :
      (f : CuckooFilter) (item : ℕ) (h : IsFilter f)
      → contains random_array f item ≡ ok true
      → IsLocated random_array f.table h.power f.table
          (waiting f.overflow)
          (index_of f.table item)
          (tag_of f.table item)
  contains-IsLocated f item h e = elim (contains_lem f item h) [
    | inl (_, l) ↦ l
    | inr (missing, _) ↦ let same : true ≡ false = ok_injective (sym e ∙ missing) in cc same
  ]
