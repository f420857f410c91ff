-- ===== src/CuckooFilter/Kicks.antt =====
-- The loop of add_index_tag: no tag is lost on the way.
use u_psu.Common.{
  ℕ, zero, suc, ◌+◌, ◌-◌, ◌^◌, ◌<◌, ◌≡◌, refl, sym, ap, ◌∙◌, ◌⊎◌, inl, inr, Bool, true, false,
  Option, none, some, ltb, if◌then◌else◌, arith, Bool-cases,
}
use Prim.Native.Nat.{bit_and, bit_xor}
use mathlib.Core.Path.{subst}
use u_psu.Common.Results.{Result, ok}
use u_psu.CuckooTable.{CuckooFilterTable, insert_tag}
use u_psu.CuckooFilter.{hasher, idx_bucket_limit, get_alt_index, kick}
use u_psu.CuckooFilter.Tags.{HasTag, IsSameShape, IsInserted, insert_tag-IsInserted}
use u_psu.CuckooFilter.Indices.{HasPowerOfTwo, get_alt_index-lt, get_alt_index_involutive}

-- The alternate index depends on the number of buckets only.
pub get_alt_index-IsSameShape :
    (random_array : ℕ → ℕ) (t t' : CuckooFilterTable) (k x : ℕ)
    → t'.num_buckets ≡ t.num_buckets
    → get_alt_index random_array t' k x ≡ get_alt_index random_array t k x
unfolding get_alt_index idx_bucket_limit
get_alt_index-IsSameShape random_array t t' k x e =
    ap (λ (n : ℕ). bit_xor k (bit_and (hasher random_array x) (n - 1))) e

module _ (random_array : ℕ → ℕ) (t0 : CuckooFilterTable) (power : HasPowerOfTwo t0) where
  abbrev pub alt : ℕ → ℕ → ℕ
  alt k x = get_alt_index random_array t0 k x

  -- The tag that waits for room belongs to the index `k`.
  abbrev pub IsCarried : Option (ℕ × ℕ) → ℕ → ℕ → Type 0
  IsCarried none k x = ⊥
  IsCarried (some (c, y)) k x = (y ≡ x) × ((c ≡ k) ⊎ (c ≡ alt k x))

  -- The tag stands in one of its two buckets or waits.
  abbrev pub IsLocated : CuckooFilterTable → Option (ℕ × ℕ) → ℕ → ℕ → Type 0
  IsLocated t carry k x = HasTag t k x ⊎ (HasTag t (alt k x) x ⊎ IsCarried carry k x)

  pub IsSameShape-trans :
      (t t' : CuckooFilterTable) → IsSameShape t0 t → IsSameShape t t' → IsSameShape t0 t'
  IsSameShape-trans t t' h g = record {
    table = g.table;
    bits = g.bits ∙ h.bits;
    buckets = g.buckets ∙ h.buckets;
  }

  -- One insertion that finds room.
  IsLocated-done :
      (t t' : CuckooFilterTable) (c y old : ℕ) (kickout : Bool)
      → IsSameShape t0 t
      → IsInserted t c y kickout true t' old
      → (k x : ℕ) → 0 < x
      → k < t0.num_buckets
      → IsLocated t (some (c, y)) k x
      → IsLocated t' none k x
  IsLocated-done t t' c y old kickout shape h k x pos hk (inl has) =
      elim (h.kept k x pos (omega (arith, shape.buckets)) has) [
        | inl has' ↦ inl has'
        | inr (e, _, _, _) ↦ cc e
      ]
  IsLocated-done t t' c y old kickout shape h k x pos hk (inr (inl has)) =
      let ha = get_alt_index-lt t0 power random_array k x hk in
      elim (h.kept (alt k x) x pos (omega (arith, shape.buckets)) has) [
        | inl has' ↦ inr (inl has')
        | inr (e, _, _, _) ↦ cc e
      ]
  IsLocated-done t t' c y old kickout shape h k x pos hk (inr (inr (e, inl ec))) = inl (
      subst (λ (z : ℕ). HasTag t' z x) ec (subst (λ (z : ℕ). HasTag t' c z) e (h.there (inl refl))))
  IsLocated-done t t' c y old kickout shape h k x pos hk (inr (inr (e, inr ec))) = inr (
      inl (
        subst (λ (z : ℕ). HasTag t' z x) ec
          (subst (λ (z : ℕ). HasTag t' c z) e (h.there (inl refl)))))

  -- A full bucket without a kick: the tag goes on to its other bucket.
  IsLocated-full :
      (t t' : CuckooFilterTable) (c y old : ℕ)
      → IsSameShape t0 t
      → IsInserted t c y false false t' old
      → (k x : ℕ) → 0 < x
      → k < t0.num_buckets
      → IsLocated t (some (c, y)) k x
      → IsLocated t' (some (alt c y, y)) k x
  IsLocated-full t t' c y old shape h k x pos hk (inl has) =
      elim (h.kept k x pos (omega (arith, shape.buckets)) has) [
        | inl has' ↦ inl has'
        | inr (_, e, _, _) ↦ cc e
      ]
  IsLocated-full t t' c y old shape h k x pos hk (inr (inl has)) =
      let ha = get_alt_index-lt t0 power random_array k x hk in
      elim (h.kept (alt k x) x pos (omega (arith, shape.buckets)) has) [
        | inl has' ↦ inr (inl has')
        | inr (_, e, _, _) ↦ cc e
      ]
  IsLocated-full t t' c y old shape h k x pos hk (inr (inr (e, inl ec))) =
      inr (inr (e, inr (ap (λ (z : ℕ). alt z y) ec ∙ ap (λ (z : ℕ). alt k z) e)))
  IsLocated-full t t' c y old shape h k x pos hk (inr (inr (e, inr ec))) = inr (
      inr (
        e,
        inl (
            ap (λ (z : ℕ). alt z y) ec
            ∙ ap (λ (z : ℕ). alt (alt k x) z) e
            ∙ get_alt_index_involutive t0 power random_array k x hk),
      ))

  -- A kick: the tag takes the place of `old`, which goes on to its other bucket.
  IsLocated-kicked :
      (t t' : CuckooFilterTable) (c y old : ℕ)
      → IsSameShape t0 t
      → IsInserted t c y true false t' old
      → (k x : ℕ) → 0 < x
      → k < t0.num_buckets
      → IsLocated t (some (c, y)) k x
      → IsLocated t' (some (alt c old, old)) k x
  IsLocated-kicked t t' c y old shape h k x pos hk (inl has) =
      elim (h.kept k x pos (omega (arith, shape.buckets)) has) [
        | inl has' ↦ inl has'
        | inr (_, _, ek, ex) ↦ inr (
            inr
              (sym ex, inr (ap (λ (z : ℕ). alt z old) (sym ek) ∙ ap (λ (z : ℕ). alt k z) (sym ex))))
      ]
  IsLocated-kicked t t' c y old shape h k x pos hk (inr (inl has)) =
      let ha = get_alt_index-lt t0 power random_array k x hk in
      elim (h.kept (alt k x) x pos (omega (arith, shape.buckets)) has) [
        | inl has' ↦ inr (inl has')
        | inr (_, _, ek, ex) ↦ inr (
            inr (
              sym ex,
              inl (
                  ap (λ (z : ℕ). alt z old) (sym ek)
                  ∙ ap (λ (z : ℕ). alt (alt k x) z) (sym ex)
                  ∙ get_alt_index_involutive t0 power random_array k x hk),
            ))
      ]
  IsLocated-kicked t t' c y old shape h k x pos hk (inr (inr (e, inl ec))) = inl (
      subst (λ (z : ℕ). HasTag t' z x) ec (subst (λ (z : ℕ). HasTag t' c z) e (h.there (inr refl))))
  IsLocated-kicked t t' c y old shape h k x pos hk (inr (inr (e, inr ec))) = inr (
      inl (
        subst (λ (z : ℕ). HasTag t' z x) ec
          (subst (λ (z : ℕ). HasTag t' c z) e (h.there (inr refl)))))

  -- A tag of the table and an index in range.
  abbrev pub IsPlaced : Option (ℕ × ℕ) → Type 0
  IsPlaced none = Unit {0}
  IsPlaced (some (c, y)) = (c < t0.num_buckets) × (0 < y) × (y < 2 ^ t0.bits_per_tag)

  -- The loop ends without an exception, and whatever was located is located behind it.
  pub record IsKicked (t : CuckooFilterTable) (c y : ℕ) (t' : CuckooFilterTable)
      (carry : Option (ℕ × ℕ)) : Type 0 where
    pub shape : IsSameShape t0 t'
    pub placed : IsPlaced carry
    pub located :
        (k x : ℕ)
        → 0 < x
        → k < t0.num_buckets
        → IsLocated t (some (c, y)) k x
        → IsLocated t' carry k x

  -- A round that does not find room.
  kick_round :
      (rnd : ℕ → ℕ) (rounds i c y old next : ℕ) (t t' : CuckooFilterTable)
      (r : Result (CuckooFilterTable × Option (ℕ × ℕ)))
      → insert_tag t c y (ltb 0 i) (rnd i) 0 ≡ ok (false, t', old)
      → (if ltb 0 i then old else y) ≡ next
      → kick random_array rnd rounds (i + 1) (get_alt_index random_array t' c next) next t' ≡ r
      → kick random_array rnd (suc rounds) i c y t ≡ r
  unfolding kick
  kick_round rnd rounds i c y old next t t' r run e rest = rw (run, e) rest

  pub kick-IsKicked :
      (rnd : ℕ → ℕ) (rounds i c y : ℕ) (t : CuckooFilterTable)
      → IsSameShape t0 t
      → IsPlaced (some (c, y))
      → (t' : CuckooFilterTable) × (carry : Option (ℕ × ℕ)) × (kick random_array rnd rounds i c y t
          ≡ ok (t', carry))
        × IsKicked t c y t' carry
  unfolding kick
  kick-IsKicked rnd zero i c y t shape placed =
      (t, some (c, y), refl, record { shape = shape; placed = placed; located = λ k x pos hk l. l })
  kick-IsKicked rnd (suc rounds) i c y t shape placed =
      let (done, t', old, run, h) =
        insert_tag-IsInserted t c y (ltb 0 i) (rnd i) shape.table (omega (arith, shape.buckets))
          (rw shape.bits placed.2) in
      let shape' = IsSameShape-trans t t' shape h.shape in
      elim (Bool-cases done) [
        | inl yes_done ↦
            let h' = subst (λ d. IsInserted t c y (ltb 0 i) d t' old) yes_done h in
            (
              t',
              none,
              rw (run, yes_done) refl,
              record {
                shape = shape';
                placed = tt;
                located = IsLocated-done t t' c y old (ltb 0 i) shape h';
              },
            )
        | inr not_done ↦ elim (Bool-cases (ltb 0 i)) [
          | inr first ↦
              let h' =
                subst (λ b. IsInserted t c y b false t' old) first
                  (subst (λ d. IsInserted t c y (ltb 0 i) d t' old) not_done h) in
              let c' = get_alt_index random_array t' c y in
              let same : c' ≡ alt c y =
                get_alt_index-IsSameShape random_array t0 t' c y shape'.buckets in
              let in_range : c' < t0.num_buckets =
                omega (arith, get_alt_index-lt t0 power random_array c y placed.0) in
              let (t'', carry, run', k') =
                kick-IsKicked rnd rounds (i + 1) c' y t' shape' (in_range, placed.1, placed.2) in
              (
                t'',
                carry,
                kick_round rnd rounds i c y old y t t' _ (run ∙ ap (λ d. ok (d, t', old)) not_done)
                    (rw first refl) run',
                record {
                  shape = k'.shape;
                  placed = k'.placed;
                  located = λ k x pos hk l. k'.located k x pos hk (
                      subst (λ (z : ℕ). IsLocated t' (some (z, y)) k x) (sym same)
                        (IsLocated-full t t' c y old shape h' k x pos hk l));
                },
              )
          | inl later ↦
              let h' =
                subst (λ b. IsInserted t c y b false t' old) later
                  (subst (λ d. IsInserted t c y (ltb 0 i) d t' old) not_done h) in
              let c' = get_alt_index random_array t' c old in
              let same : c' ≡ alt c old =
                get_alt_index-IsSameShape random_array t0 t' c old shape'.buckets in
              let in_range : c' < t0.num_buckets =
                omega (arith, get_alt_index-lt t0 power random_array c old placed.0) in
              let (pos_old, fits_old) = h'.old_fits refl refl in
              let (t'', carry, run', k') =
                kick-IsKicked rnd rounds (i + 1) c' old t' shape'
                  (in_range, pos_old, rw (← shape.bits) fits_old) in
              (
                t'',
                carry,
                kick_round rnd rounds i c y old old t t' _
                    (run ∙ ap (λ d. ok (d, t', old)) not_done) (rw later refl) run',
                record {
                  shape = k'.shape;
                  placed = k'.placed;
                  located = λ k x pos hk l. k'.located k x pos hk (
                      subst (λ (z : ℕ). IsLocated t' (some (z, old)) k x) (sym same)
                        (IsLocated-kicked t t' c y old shape h' k x pos hk l));
                },
              )
        ]
      ]
