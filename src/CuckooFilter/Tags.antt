-- ===== src/CuckooFilter/Tags.antt =====
-- A table as buckets of tags: what each operation of CuckooFilterTable finds, adds and drops.
use u_psu.Common.{
  ℕ, zero, suc, ◌+◌, ◌%◌, ◌^◌, ◌≤◌, ◌<◌, ◌≡◌, ◌≢◌, refl, sym, ap, ◌∙◌, ◌⊎◌, inl, inr, Bool, true,
  false, none, some, leb, ◌==◌, if◌then◌else◌, ◌&&◌, arith, Bool-cases, ==→eq, ==_refl,
}
use u_psu.Common.Results.{Result, ok}
use u_psu.CuckooTable.{
  CuckooFilterTable, read_tag, find_from, insert_tag, delete_tag, find_tag_in_bucket,
  find_tag_in_buckets, tags_per_bucket,
}
use u_psu.CuckooTable.RoundTrip.{
  IsTable, tag_at, read_tag_lem, write_tag_lem, read_word-lt, too_wide_lem,
}

pub ok_injective {ℓ} : {A : Type ℓ} {a b : A} → ◌≡◌ {A = Result A} (ok a) (ok b) → a ≡ b
ok_injective e = cc e

-- Bucket `k` holds the tag.
abbrev pub HasTag : CuckooFilterTable → ℕ → ℕ → Type 0
HasTag t k x = (i : ℕ) × (i < 4) × (read_tag t k i ≡ ok x)

-- What a table keeps under every operation.
pub record IsSameShape (t t' : CuckooFilterTable) : Type 0 where
  pub table : IsTable t'
  pub bits : t'.bits_per_tag ≡ t.bits_per_tag
  pub buckets : t'.num_buckets ≡ t.num_buckets

find_from_lem :
    (t : CuckooFilterTable) (h : IsTable t) (k x count i : ℕ)
    → k < t.num_buckets
    → i + count ≤ 4
    → ((j : ℕ) × (j < 4) × (find_from t k x count i ≡ ok (some j)) × (read_tag t k j ≡ ok x))
      ⊎ ((find_from t k x count i ≡ ok none)
          × ((j : ℕ) → i ≤ j → j < i + count → read_tag t k j ≢ ok x))
unfolding find_from
find_from_lem t h k x zero i hk hi = inr (refl, λ j le lt. absurd (omega arith))
find_from_lem t h k x (suc count) i hk hi =
    let here = read_tag_lem t h k i hk (omega arith) in
    let next = find_from_lem t h k x count (i + 1) hk (omega arith) in
    elim (Bool-cases (tag_at t h k i == x)) [
      | inl t' ↦
          let same = ==→eq (tag_at t h k i) x t' in
          inl (i, omega arith, rw (here, t') refl, here ∙ ap (λ (y : ℕ). ok y) same)
      | inr n ↦ elim next [
        | inl (j, lt, found, e) ↦ inl (j, lt, rw (here, n) found, e)
        | inr (missing, ne) ↦ inr (
          rw (here, n) missing,
          λ j le lt e. elim (Bool-cases (i == j)) [
            | inl s ↦
                let at = ==→eq i j s in
                let same : tag_at t h k i ≡ x =
                  ok_injective (sym here ∙ ap (λ (q : ℕ). read_tag t k q) at ∙ e) in
                cc (n, ap (λ (q : ℕ). q == x) same, ==_refl x)
            | inr d ↦ ne j (next_index i j le d) (omega arith) e
          ],
        )
      ]
    ]
  where
    next_index : (i j : ℕ) → i ≤ j → (i == j) ≡ false → i + 1 ≤ j
    next_index i j le d = ground arith

-- The tags of a table with one tag written.
write_tag-HasTag :
    (t t' : CuckooFilterTable) (k i x : ℕ)
    → k < t.num_buckets
    → i < 4
    → ((l j : ℕ)
        → l < t.num_buckets
        → j < tags_per_bucket
        → read_tag t' l j ≡ (if (l == k) && (j == i) then ok x else read_tag t l j))
    → HasTag t' k x
      × ((l y : ℕ)
          → l < t.num_buckets
          → HasTag t l y
          → HasTag t' l y ⊎ ((l ≡ k) × (read_tag t k i ≡ ok y)))
write_tag-HasTag t t' k i x hk hi reads = (
  (i, hi, reads k i hk hi ∙ rw (==_refl k, ==_refl i) refl),
  λ l y hl (j, hj, e). elim (Bool-cases ((l == k) && (j == i))) [
    | inr other ↦ inl (j, hj, reads l j hl hj ∙ rw other e)
    | inl same ↦
        let (el, ej) = both l j same in
        inr (
          el,
          ap (λ (q : ℕ). read_tag t k q) (sym ej) ∙ ap (λ (q : ℕ). read_tag t q j) (sym el) ∙ e,
        )
  ],
)
  where
    both : (l j : ℕ) → ((l == k) && (j == i)) ≡ true → (l ≡ k) × (j ≡ i)
    both l j e = ground arith

-- An insertion into a bucket: it succeeds, and the tag stands in the bucket unless the bucket is
-- full and nothing may be kicked out; every other tag stays but one, `old`.
pub record IsInserted (t : CuckooFilterTable) (k x : ℕ) (kickout done : Bool)
    (t' : CuckooFilterTable) (old : ℕ) : Type 0 where
  pub shape : IsSameShape t t'
  pub there : (done ≡ true) ⊎ (kickout ≡ true) → HasTag t' k x
  pub kept :
      (l y : ℕ)
      → 0 < y
      → l < t.num_buckets
      → HasTag t l y
      → HasTag t' l y ⊎ ((done ≡ false) × (kickout ≡ true) × (l ≡ k) × (y ≡ old))
  pub old_fits : done ≡ false → kickout ≡ true → (0 < old) × (old < 2 ^ t.bits_per_tag)

pub insert_tag-IsInserted :
    (t : CuckooFilterTable) (k x : ℕ) (kickout : Bool) (rnd : ℕ)
    → IsTable t
    → k < t.num_buckets
    → x < 2 ^ t.bits_per_tag
    → (done : Bool) × (t' : CuckooFilterTable) × (old : ℕ) × (insert_tag t k x kickout rnd 0
        ≡ ok (done, t', old))
      × IsInserted t k x kickout done t' old
unfolding insert_tag
insert_tag-IsInserted t k x kickout rnd h hk fits =
    elim (find_from_lem t h k 0 4 0 hk (omega arith)) [
      | inl (i, hi, found, free) ↦
          let (t', w, h', bits, buckets, reads) = write_tag_lem t k i x h hk hi fits in
          let (there, kept) = write_tag-HasTag t t' k i x hk hi reads in
          (
            true,
            t',
            0,
            rw (found, w) refl,
            record {
              shape = record { table = h'; bits = bits; buckets = buckets };
              there = λ s. there;
              kept = λ l y pos hl has. elim (kept l y hl has) [
                | inl same ↦ inl same
                | inr (el, e) ↦
                    let none : y ≡ 0 = ok_injective (sym e ∙ free) in absurd (omega arith)
              ];
              old_fits = λ d s. cc d;
            },
          )
      | inr (full, taken) ↦ elim (Bool-cases kickout) [
        | inr stay ↦ (
          false,
          t,
          0,
          rw (full, stay) refl,
          record {
            shape = record { table = h; bits = refl; buckets = refl };
            there = λ s. elim s [ inl e ↦ cc e | inr e ↦ cc (e, stay) ];
            kept = λ l y pos hl has. inl has;
            old_fits = λ d e. cc (e, stay);
          },
        )
        | inl go ↦
            let i : ℕ = rnd % 4 in
            let hi : i < 4 = omega arith in
            let old = tag_at t h k i in
            let read = read_tag_lem t h k i hk hi in
            let (t', w, h', bits, buckets, reads) = write_tag_lem t k i x h hk hi fits in
            let (there, kept) = write_tag-HasTag t t' k i x hk hi reads in
            (
              false,
              t',
              old,
              rw (full, go, read, w) refl,
              record {
                shape = record { table = h'; bits = bits; buckets = buckets };
                there = λ s. there;
                kept = λ l y pos hl has. elim (kept l y hl has) [
                  | inl same ↦ inl same
                  | inr (el, e) ↦ inr (refl, go, el, ok_injective (sym e ∙ read))
                ];
                old_fits = λ d s. (
                  nonzero old
                      (λ z. taken i (omega arith) (omega arith) (read ∙ ap (λ (q : ℕ). ok q) z)),
                  read_word-lt t.table t.bits_per_tag k i h.pos h.narrow,
                );
              },
            )
      ]
    ]
  where
    nonzero : (n : ℕ) → n ≢ 0 → 0 < n
    nonzero zero ne = absurd (ne refl)
    nonzero (suc n) ne = omega arith

-- Looking for a tag finds it exactly when the bucket holds it.
pub find_tag_in_bucket_lem :
    (t : CuckooFilterTable) (k x : ℕ)
    → IsTable t
    → k < t.num_buckets
    → x < 2 ^ t.bits_per_tag
    → ((find_tag_in_bucket t k x ≡ ok true) × HasTag t k x)
      ⊎ ((find_tag_in_bucket t k x ≡ ok false) × (HasTag t k x → ⊥))
unfolding find_tag_in_bucket
find_tag_in_bucket_lem t k x h hk fits =
    let in_range : leb t.num_buckets k ≡ false = ground arith in
    let narrow = too_wide_lem t x h fits in
    elim (find_from_lem t h k x 4 0 hk (omega arith)) [
      | inl (i, hi, found, e) ↦ inl (rw (in_range, narrow, found) refl, (i, hi, e))
      | inr (missing, ne) ↦
          inr
            (rw (in_range, narrow, missing) refl, λ (i, hi, e). ne i (omega arith) (omega arith) e)
    ]

pub find_tag_in_buckets_lem :
    (t : CuckooFilterTable) (k l x : ℕ)
    → IsTable t
    → k < t.num_buckets
    → l < t.num_buckets
    → x < 2 ^ t.bits_per_tag
    → ((find_tag_in_buckets t k l x ≡ ok true) × (HasTag t k x ⊎ HasTag t l x))
      ⊎ ((find_tag_in_buckets t k l x ≡ ok false) × (HasTag t k x ⊎ HasTag t l x → ⊥))
unfolding find_tag_in_buckets
find_tag_in_buckets_lem t k l x h hk hl fits =
    let in_range : leb t.num_buckets k ≡ false = ground arith in
    let in_range' : leb t.num_buckets l ≡ false = ground arith in
    elim (find_tag_in_bucket_lem t k x h hk fits) [
      | inl (found, has) ↦ inl (rw (in_range, in_range', found) refl, inl has)
      | inr (missing, no_tag) ↦ elim (find_tag_in_bucket_lem t l x h hl fits) [
        | inl (found, has) ↦ inl (rw (in_range, in_range', missing, found) refl, inr has)
        | inr (missing', no_tag') ↦ inr (
          rw (in_range, in_range', missing, missing') refl,
          λ s. elim s [ inl has ↦ no_tag has | inr has ↦ no_tag' has ],
        )
      ]
    ]

-- A deletion ends without an exception, and the table keeps its shape; it deletes a tag exactly
-- when the bucket holds it.
pub delete_tag_lem :
    (t : CuckooFilterTable) (k x : ℕ)
    → IsTable t
    → k < t.num_buckets
    → x < 2 ^ t.bits_per_tag
    → ((t' : CuckooFilterTable) × (delete_tag t k x ≡ ok (true, t'))
        × IsSameShape t t'
        × HasTag t k x)
      ⊎ ((delete_tag t k x ≡ ok (false, t)) × (HasTag t k x → ⊥))
unfolding delete_tag
delete_tag_lem t k x h hk fits =
    let in_range : leb t.num_buckets k ≡ false = ground arith in
    let narrow = too_wide_lem t x h fits in
    elim (find_from_lem t h k x 4 0 hk (omega arith)) [
      | inl (i, hi, found, e) ↦
          let (t', w, h', bits, buckets, reads) =
            write_tag_lem t k i 0 h hk hi (omega (arith, fits)) in
          inl (
            t',
            rw (in_range, narrow, found, w) refl,
            record { table = h'; bits = bits; buckets = buckets },
            (i, hi, e),
          )
      | inr (missing, ne) ↦
          inr
            (rw (in_range, narrow, missing) refl, λ (i, hi, e). ne i (omega arith) (omega arith) e)
    ]
