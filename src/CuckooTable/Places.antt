-- ===== src/CuckooTable/Places.antt =====
-- Reads and writes of a place, whether it lies in one word or in two.
use u_psu.Common.{
  ℕ, ◌+◌, ◌-◌, ◌*◌, ◌/◌, ◌%◌, ◌^◌, ◌≤◌, ◌<◌, ◌≡◌, refl, ap, ◌∙◌, ◌⊎◌, inl, inr, true, false, List,
  ltb, ◌==◌, if◌then◌else◌, get_or, modify, arith, length, Bool-cases, ltb→lt, ltb→ge,
  length-modify, ==→eq, ==_refl,
}
use u_psu.Common.Digits.{bit}
use u_psu.CuckooTable.{shl64, TagIndexInfo, write_word}
use u_psu.CuckooTable.Words.{put, put-lt, table_bit, place, split_place}
use u_psu.CuckooTable.Writes.{
  mask1, mask2, tag2-lt, put1-inside, put1-outside, put2-inside, put2-outside, get_or-modify_lem,
}

-- All words fit 64 bits.
abbrev pub Fits64 : List ℕ → Type 0
Fits64 table = (k : ℕ) → get_or table k 0 < 2 ^ 64

abbrev pub IsOutside : ℕ → ℕ → ℕ → Type 0
IsOutside b s j = (j < s) ⊎ (s + b ≤ j)

module _ (table : List ℕ) (b s tag : ℕ) (pos : 0 < b) (narrow : b < 32) (fits : tag < 2 ^ b)
    (room : s + b ≤ 64 * length table) where
  abbrev pub off : ℕ
  off = s % 64

  -- The word `k` behind a write.
  pub word_place :
      (k : ℕ)
      → get_or (write_word table b (place b s) tag) k 0 ≡ (
          if k == s / 64
          then put (get_or table k 0) (mask1 b tag pos narrow fits off) (shl64 tag off)
          else get_or table k 0)
  unfolding write_word
  word_place k =
      get_or-modify_lem table (s / 64) k
        (λ w. put w (mask1 b tag pos narrow fits off) (shl64 tag off)) (omega arith)

  pub bit-write_place_inside :
      (i : ℕ)
      → off + b ≤ 64
      → i < b
      → table_bit (write_word table b (place b s) tag) (s + i) ≡ bit tag i
  bit-write_place_inside i one h =
      let word : (s + i) / 64 ≡ s / 64 = omega arith in
      let at : (s + i) % 64 ≡ off + i = omega arith in
      rw (word, at, word_place (s / 64), ==_refl (s / 64))
        (put1-inside b tag pos narrow fits (get_or table (s / 64) 0) off i h (omega arith))

  pub bit-write_place_outside :
      (j : ℕ)
      → off + b ≤ 64
      → IsOutside b s j
      → table_bit (write_word table b (place b s) tag) j ≡ table_bit table j
  bit-write_place_outside j one out = elim (Bool-cases (j / 64 == s / 64)) [
    | inr n ↦ rw (word_place (j / 64), n) refl
    | inl t ↦
        let same = ==→eq (j / 64) (s / 64) t in
        rw (word_place (j / 64), t)
          (put1-outside b tag pos narrow fits (get_or table (j / 64) 0) off (j % 64) (omega arith)
            (elim out [ inl lt ↦ inl (omega arith) | inr ge ↦ inr (omega arith) ]))
  ]

  -- The number of digits in the first of two words.
  abbrev pub first : ℕ
  first = 64 - off

  pub word_split :
      (k : ℕ)
      → 64 < off + b
      → get_or (write_word table b (split_place b s) tag) k 0 ≡ (
          if k == s / 64 + 1
          then put (get_or table k 0) (mask2 b tag pos narrow fits first) (tag / 2 ^ first)
          else (if k == s / 64
              then put (get_or table k 0) (mask1 b tag pos narrow fits off) (shl64 tag off)
              else get_or table k 0))
  unfolding write_word
  word_split k crosses =
      let some_left : (b - first == 0) ≡ false = ground arith in
      let f : ℕ → ℕ = λ w. put w (mask1 b tag pos narrow fits off) (shl64 tag off) in
      let g : ℕ → ℕ = λ w. put w (mask2 b tag pos narrow fits first) (tag / 2 ^ first) in
      rw some_left (
        get_or-modify_lem (modify table (s / 64) f) (s / 64 + 1) k g
          (omega (arith, length-modify table (s / 64) f))
        ∙ elim (Bool-cases (k == s / 64 + 1)) [
          | inl t ↦
              let e = ==→eq k (s / 64 + 1) t in
              let other : (k == s / 64) ≡ false = ground arith in
              rw (t, get_or-modify_lem table (s / 64) k f (omega arith), other) refl
          | inr n ↦ rw (n, get_or-modify_lem table (s / 64) k f (omega arith)) refl
        ])

  pub bit-write_split_inside :
      (i : ℕ)
      → 64 < off + b
      → i < b
      → table_bit (write_word table b (split_place b s) tag) (s + i) ≡ bit tag i
  bit-write_split_inside i crosses h = elim (Bool-cases (ltb i first)) [
    | inl low ↦
        let lt = ltb→lt i first low in
        let word : (s + i) / 64 ≡ s / 64 = omega arith in
        let at : (s + i) % 64 ≡ off + i = omega arith in
        let other : (s / 64 == s / 64 + 1) ≡ false = ground arith in
        rw (word, at, word_split (s / 64) crosses, other, ==_refl (s / 64))
          (put1-inside b tag pos narrow fits (get_or table (s / 64) 0) off i h (omega arith))
    | inr high ↦
        let ge = ltb→ge i first high in
        let word : (s + i) / 64 ≡ s / 64 + 1 = omega arith in
        let at : (s + i) % 64 ≡ i - first = omega arith in
        let whole : first + (i - first) ≡ i = omega arith in
        rw (word, at, word_split (s / 64 + 1) crosses, ==_refl (s / 64 + 1))
          (put2-inside b tag pos narrow fits (get_or table (s / 64 + 1) 0) first (i - first)
              (omega arith)
            ∙ ap (bit tag) whole)
  ]

  pub bit-write_split_outside :
      (j : ℕ)
      → 64 < off + b
      → IsOutside b s j
      → table_bit (write_word table b (split_place b s) tag) j ≡ table_bit table j
  bit-write_split_outside j crosses out =
      let split = word_split (j / 64) crosses in
      elim (Bool-cases (j / 64 == s / 64 + 1)) [
        | inl t ↦
            let same = ==→eq (j / 64) (s / 64 + 1) t in
            rw (split, t)
              (put2-outside b tag pos narrow fits (get_or table (j / 64) 0) first (j % 64)
                (omega arith) (elim out [ inl lt ↦ absurd (omega arith) | inr ge ↦ omega arith ]))
        | inr n ↦ elim (Bool-cases (j / 64 == s / 64)) [
          | inr n' ↦ rw (split, n, n') refl
          | inl t ↦
              let same = ==→eq (j / 64) (s / 64) t in
              rw (split, n, t)
                (put1-outside b tag pos narrow fits (get_or table (j / 64) 0) off (j % 64)
                  (omega arith)
                  (elim out [ inl lt ↦ inl (omega arith) | inr ge ↦ absurd (beyond j n t ge) ]))
        ]
      ]
    where
      beyond : (j : ℕ) → (j / 64 == s / 64 + 1) ≡ false → (j / 64 == s / 64) ≡ true → s + b ≤ j → ⊥
      beyond j n t ge = let same = ==→eq (j / 64) (s / 64) t in omega arith

  write_place-Fits64 : Fits64 table → Fits64 (write_word table b (place b s) tag)
  write_place-Fits64 words k = elim (Bool-cases (k == s / 64)) [
    | inl t ↦
        rw (word_place k, t)
          (put-lt (get_or table k 0) (mask1 b tag pos narrow fits off) (shl64 tag off) (words k)
            (omega arith))
    | inr n ↦ rw (word_place k, n) (words k)
  ]

  write_split-Fits64 :
      64 < off + b → Fits64 table → Fits64 (write_word table b (split_place b s) tag)
  write_split-Fits64 crosses words k = elim (Bool-cases (k == s / 64 + 1)) [
    | inl t ↦
        rw (word_split k crosses, t)
          (put-lt (get_or table k 0) (mask2 b tag pos narrow fits first) (tag / 2 ^ first) (words k)
            (tag2-lt b tag pos narrow fits first))
    | inr n ↦ elim (Bool-cases (k == s / 64)) [
      | inl t ↦
          rw (word_split k crosses, n, t)
            (put-lt (get_or table k 0) (mask1 b tag pos narrow fits off) (shl64 tag off) (words k)
              (omega arith))
      | inr n' ↦ rw (word_split k crosses, n, n') (words k)
    ]
  ]

  -- What a write to the place leaves.
  pub record IsWritten (tii : TagIndexInfo) : Type 0 where
    pub inside : (i : ℕ) → i < b → table_bit (write_word table b tii tag) (s + i) ≡ bit tag i
    pub outside :
        (j : ℕ) → IsOutside b s j → table_bit (write_word table b tii tag) j ≡ table_bit table j
    pub words : Fits64 table → Fits64 (write_word table b tii tag)
    pub count : length (write_word table b tii tag) ≡ length table

  pub place-IsWritten : off + b ≤ 64 → IsWritten (place b s)
  unfolding write_word
  place-IsWritten one = record {
    inside = λ i h. bit-write_place_inside i one h;
    outside = λ j out. bit-write_place_outside j one out;
    words = write_place-Fits64;
    count = length-modify table (s / 64) _;
  }

  pub split_place-IsWritten : 64 < off + b → IsWritten (split_place b s)
  unfolding write_word
  split_place-IsWritten crosses =
      let some_left : (b - first == 0) ≡ false = ground arith in
      record {
        inside = λ i h. bit-write_split_inside i crosses h;
        outside = λ j out. bit-write_split_outside j crosses out;
        words = write_split-Fits64 crosses;
        count = rw some_left (length-modify _ (s / 64 + 1) _ ∙ length-modify table (s / 64) _);
      }
