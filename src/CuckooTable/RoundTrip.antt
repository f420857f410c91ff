-- ===== src/CuckooTable/RoundTrip.antt =====
-- A table as an array of tags: what is read behind a write.
use u_psu.Common.{
  ℕ, ◌+◌, ◌-◌, ◌*◌, ◌%◌, ◌^◌, ◌≤◌, ◌<◌, ◌≡◌, ◌≢◌, refl, sym, ap, ◌∙◌, ◌⊎◌, inl, inr, false, List,
  ltb, leb, ◌==◌, if◌then◌else◌, arith, length, Bool-cases, ltb→lt, ltb→ge, ==→eq, ==_refl, ◌&&◌,
}
use Prim.Native.Nat.{bit_and}
use native.Mathlib.Nat.{mul-le-mul_right, pow-le-pow_right}
use u_psu.Common.Digits.{
  bit, bit-zero, bit_ext, bit-bit_and, bit-mod_low, bit-mul_low, bit-lt_pow, bit_and-lt_pow,
}
use u_psu.Common.Results.{ok}
use u_psu.CuckooTable.{
  CuckooFilterTable, tag_index_info, read_word, write_word, read_tag, write_tag, too_wide,
  tags_per_bucket,
}
use u_psu.CuckooTable.Words.{table_bit, place, split_place}
use u_psu.CuckooTable.Fields.{bit-read_place, bit-read_split, read_place-lt, read_split-lt}
use u_psu.CuckooTable.Places.{Fits64, IsOutside, IsWritten, place-IsWritten, split_place-IsWritten}

-- A table as its constructor makes it.
pub record IsTable (t : CuckooFilterTable) : Type 0 where
  pub pos : 0 < t.bits_per_tag
  pub narrow : t.bits_per_tag < 32
  pub mask : t.tag_input_mask ≡ ((2 ^ 32 - 1) * 2 ^ t.bits_per_tag) % 2 ^ 32
  pub words : Fits64 t.table
  pub room : t.num_buckets * tags_per_bucket * t.bits_per_tag ≤ 64 * length t.table

-- The first digit of a tag.
abbrev pub start : ℕ → ℕ → ℕ → ℕ
start b bucket i = bucket * b * tags_per_bucket + i * b

start-eq : (b bucket i : ℕ) → start b bucket i ≡ (bucket * tags_per_bucket + i) * b
start-eq b bucket i = grind arith

-- Different tags stand apart.
start-IsOutside :
    (b k j bucket i p : ℕ)
    → j < 4
    → i < 4
    → p < b
    → (k ≢ bucket) ⊎ (j ≢ i)
    → IsOutside b (start b bucket i) (start b k j + p)
start-IsOutside b k j bucket i p hj hi hp apart =
    let q : ℕ = k * tags_per_bucket + j in
    let r : ℕ = bucket * tags_per_bucket + i in
    let eq = start-eq b k j in
    let er = start-eq b bucket i in
    elim (Bool-cases (ltb q r)) [
      | inl lt ↦
          let h : (q + 1) * b ≤ r * b = mul-le-mul_right b (omega (arith, ltb→lt q r lt)) in
          let d : (q + 1) * b ≡ q * b + b = grind arith in inl (omega arith)
      | inr ge ↦
          let ge' = ltb→ge q r ge in
          let differ : q ≢ r =
            λ e. elim apart [ inl ne ↦ ne (omega arith) | inr ne ↦ ne (omega arith) ] in
          let h : (r + 1) * b ≤ q * b = mul-le-mul_right b (omega arith) in
          let d : (r + 1) * b ≡ r * b + b = grind arith in inr (omega arith)
    ]

tag_index_info-cases :
    (b bucket i : ℕ)
    → b < 32
    → ((start b bucket i % 64 + b ≤ 64) × (tag_index_info b bucket i ≡ place b (start b bucket i)))
      ⊎ ((64 < start b bucket i % 64 + b)
          × (tag_index_info b bucket i ≡ split_place b (start b bucket i)))
unfolding tag_index_info
tag_index_info-cases b bucket i h =
    let s : ℕ = start b bucket i in
    elim (Bool-cases (ltb (64 - b) (s % 64))) [
      | inl t ↦ let lt = ltb→lt (64 - b) (s % 64) t in inr (omega arith, rw t refl)
      | inr n ↦ let ge = ltb→ge (64 - b) (s % 64) n in inl (omega arith, rw n refl)
    ]

module _ (table : List ℕ) (b bucket i : ℕ) (pos : 0 < b) (narrow : b < 32) where
  bit-read_word :
      (p : ℕ)
      → p < b
      → bit (read_word table (tag_index_info b bucket i)) p ≡ table_bit table (start b bucket i + p)
  bit-read_word p h = elim (tag_index_info-cases b bucket i narrow) [
    | inl (one, e) ↦ rw e (bit-read_place table b (start b bucket i) pos narrow p one h)
    | inr (two, e) ↦ rw e (bit-read_split table b (start b bucket i) pos narrow p two h)
  ]

  pub read_word-lt : read_word table (tag_index_info b bucket i) < 2 ^ b
  read_word-lt = elim (tag_index_info-cases b bucket i narrow) [
    | inl (one, e) ↦ rw e (read_place-lt table b (start b bucket i) pos narrow)
    | inr (two, e) ↦ rw e (read_split-lt table b (start b bucket i) pos narrow two)
  ]

  write_word-IsWritten :
      (tag : ℕ) (fits : tag < 2 ^ b) (room : start b bucket i + b ≤ 64 * length table)
      → IsWritten table b (start b bucket i) tag pos narrow fits room (tag_index_info b bucket i)
  write_word-IsWritten tag fits room = elim (tag_index_info-cases b bucket i narrow) [
    | inl (one, e) ↦ rw e (place-IsWritten table b (start b bucket i) tag pos narrow fits room one)
    | inr (two, e) ↦
        rw e (split_place-IsWritten table b (start b bucket i) tag pos narrow fits room two)
  ]

-- The tags of a vector behind a write.
module _ (table : List ℕ) (b bucket i tag : ℕ) (pos : 0 < b) (narrow : b < 32) (fits : tag < 2 ^ b)
    (room : start b bucket i + b ≤ 64 * length table) where
  abbrev table' : List ℕ
  table' = write_word table b (tag_index_info b bucket i) tag

  read_word-write_word_self : read_word table' (tag_index_info b bucket i) ≡ tag
  read_word-write_word_self =
      let w = write_word-IsWritten table b bucket i pos narrow tag fits room in
      bit_ext b (read_word table' (tag_index_info b bucket i)) tag
        (read_word-lt table' b bucket i pos narrow) fits
        (λ p lt. bit-read_word table' b bucket i pos narrow p lt ∙ w.inside p lt)

  read_word-write_word_ne :
      (k j : ℕ)
      → j < 4
      → i < 4
      → (k ≢ bucket) ⊎ (j ≢ i)
      → read_word table' (tag_index_info b k j) ≡ read_word table (tag_index_info b k j)
  read_word-write_word_ne k j hj hi apart =
      let w = write_word-IsWritten table b bucket i pos narrow tag fits room in
      bit_ext b (read_word table' (tag_index_info b k j)) (read_word table (tag_index_info b k j))
        (read_word-lt table' b k j pos narrow) (read_word-lt table b k j pos narrow)
        (λ p lt.
          bit-read_word table' b k j pos narrow p lt
          ∙ w.outside (start b k j + p) (start-IsOutside b k j bucket i p hj hi lt apart)
          ∙ sym (bit-read_word table b k j pos narrow p lt))

  read_word-write_word :
      (k j : ℕ)
      → j < 4
      → i < 4
      → read_word table' (tag_index_info b k j)
        ≡ (if (k == bucket) && (j == i) then tag else read_word table (tag_index_info b k j))
  read_word-write_word k j hj hi = elim (Bool-cases (k == bucket)) [
    | inr n ↦ rw n (read_word-write_word_ne k j hj hi (inl (λ e. ==-ne k bucket n e)))
    | inl t ↦ elim (Bool-cases (j == i)) [
      | inr n ↦ rw (t, n) (read_word-write_word_ne k j hj hi (inr (λ e. ==-ne j i n e)))
      | inl u ↦
          let ek = ==→eq k bucket t in
          let ej = ==→eq j i u in
          rw (t, u)
            (ap (λ (q : ℕ). read_word table' (tag_index_info b q j)) ek
              ∙ ap (λ (q : ℕ). read_word table' (tag_index_info b bucket q)) ej
              ∙ read_word-write_word_self)
    ]
  ]
    where
      ==-ne : (a c : ℕ) → (a == c) ≡ false → a ≡ c → ⊥
      ==-ne a c n e = cc (n, ap (λ (x : ℕ). a == x) (sym e), ==_refl a)

-- A tag that fits passes the test of the input mask.
pub too_wide_lem :
    (t : CuckooFilterTable) (tag : ℕ)
    → IsTable t
    → tag < 2 ^ t.bits_per_tag
    → too_wide t tag ≡ false
too_wide_lem t tag h fits =
    let b : ℕ = t.bits_per_tag in
    let mask : ℕ = ((2 ^ 32 - 1) * 2 ^ b) % 2 ^ 32 in
    let wide = pow-le-pow_right {n = 2} (omega arith) {i = b} {j = 32} (omega (arith, h.narrow)) in
    let apart : bit_and tag mask ≡ 0 =
      bit_ext 32 (bit_and tag mask) 0 (bit_and-lt_pow 32 tag mask (omega arith)) (omega arith)
        (λ p lt. bit-bit_and tag mask p ∙ elim (Bool-cases (ltb p b)) [
          | inl low ↦ omega (
            arith,
            bit-mod_low ((2 ^ 32 - 1) * 2 ^ b) 32 p lt,
            bit-mul_low (2 ^ 32 - 1) b p (ltb→lt p b low),
            bit-zero p,
          )
          | inr high ↦ omega (arith, bit-lt_pow tag b p fits (ltb→ge p b high), bit-zero p)
        ]) in
    rw (h.mask, apart) refl

module _ (t : CuckooFilterTable) (h : IsTable t) where
  slot_room :
      (bucket i : ℕ)
      → bucket < t.num_buckets
      → i < 4
      → start t.bits_per_tag bucket i + t.bits_per_tag ≤ 64 * length t.table
  slot_room bucket i hb hi =
      let b : ℕ = t.bits_per_tag in
      let q : ℕ = bucket * tags_per_bucket + i in
      let m : (q + 1) * b ≤ t.num_buckets * tags_per_bucket * b =
        mul-le-mul_right b (omega arith) in
      let d : (q + 1) * b ≡ q * b + b = grind arith in omega (arith, start-eq b bucket i, h.room)

  -- The tag that a read in range gives.
  abbrev pub tag_at : ℕ → ℕ → ℕ
  tag_at bucket i = read_word t.table (tag_index_info t.bits_per_tag bucket i)

  pub read_tag_lem :
      (bucket i : ℕ) → bucket < t.num_buckets → i < 4 → read_tag t bucket i ≡ ok (tag_at bucket i)
  unfolding read_tag
  read_tag_lem bucket i hb hi =
      let in_range : leb t.num_buckets bucket ≡ false = ground arith in
      let in_bucket : leb 4 i ≡ false = ground arith in simp (in_range, in_bucket)

-- A write within range succeeds and changes one place.
pub write_tag_lem :
    (t : CuckooFilterTable) (bucket i tag : ℕ)
    → IsTable t
    → bucket < t.num_buckets
    → i < tags_per_bucket
    → tag < 2 ^ t.bits_per_tag
    → (t' : CuckooFilterTable) × (write_tag t bucket i tag ≡ ok t')
      × IsTable t'
      × (t'.bits_per_tag ≡ t.bits_per_tag)
      × (t'.num_buckets ≡ t.num_buckets)
      × ((k j : ℕ)
          → k < t.num_buckets
          → j < tags_per_bucket
          → read_tag t' k j ≡ (if (k == bucket) && (j == i) then ok tag else read_tag t k j))
unfolding write_tag
write_tag_lem t bucket i tag h hb hi fits =
    let b : ℕ = t.bits_per_tag in
    let room = slot_room t h bucket i hb hi in
    let w = write_word-IsWritten t.table b bucket i h.pos h.narrow tag fits room in
    let table' = write_word t.table b (tag_index_info b bucket i) tag in
    let t' : CuckooFilterTable = record t { table = table' } in
    let in_range : leb t.num_buckets bucket ≡ false = ground arith in
    let in_bucket : leb 4 i ≡ false = ground arith in
    let h' : IsTable t' = record {
      pos = h.pos;
      narrow = h.narrow;
      mask = h.mask;
      words = w.words h.words;
      room = omega (arith, h.room, w.count);
    } in
    (
      t',
      simp (in_range, in_bucket, too_wide_lem t tag h fits),
      h',
      refl,
      refl,
      λ k j hk hj.
          let value =
            read_word-write_word t.table b bucket i tag h.pos h.narrow fits room k j hj hi in
          read_tag_lem t' h' k j hk hj
          ∙ ap (λ (x : ℕ). ok x) value
          ∙ elim (Bool-cases ((k == bucket) && (j == i))) [
            | inl same ↦ rw same refl
            | inr other ↦ rw (other, read_tag_lem t h k j hk hj) refl
          ],
    )

-- A write within range of a tag that fits succeeds, and the table stays well-formed, with its
-- number of buckets and the bits of its tags. A read within range then gives the tag at the
-- place of the write, and elsewhere what it gave before.
pub read_tag-write_tag :
    (t : CuckooFilterTable) (bucket i tag k j : ℕ)
    → IsTable t
    → bucket < t.num_buckets
    → i < tags_per_bucket
    → tag < 2 ^ t.bits_per_tag
    → k < t.num_buckets
    → j < tags_per_bucket
    → (t' : CuckooFilterTable) × (write_tag t bucket i tag ≡ ok t')
      × IsTable t'
      × (t'.bits_per_tag ≡ t.bits_per_tag)
      × (t'.num_buckets ≡ t.num_buckets)
      × (read_tag t' k j ≡ (if (k == bucket) && (j == i) then ok tag else read_tag t k j))
read_tag-write_tag t bucket i tag k j h hb hi fits hk hj =
    let (t', run, h', bits, buckets, reads) = write_tag_lem t bucket i tag h hb hi fits in
    (t', run, h', bits, buckets, reads k j hk hj)
