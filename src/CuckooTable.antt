-- ===== src/CuckooTable.antt =====
-- CuckooFilterTable of receiver/apsu/util/cuckoo_filter_table.h and cuckoo_filter_table.cpp: tags
-- of a few bits, packed into 64-bit words, and next_power_of_2 of common/apsu/util/utils.cpp.
-- Outside the vector, which the code does not check, a read gives 0 and a write changes nothing.
pub mod PowerOfTwo
pub mod Words
pub mod Fields
pub mod Writes
pub mod Places
pub mod RoundTrip
pub mod Create
use u_psu.Common.{
  ℕ, zero, suc, ◌+◌, ◌-◌, ◌*◌, ◌/◌, ◌%◌, ◌^◌, max, Bool, true, false, not, Option, none, some, List,
  [], ◌∷◌, ltb, leb, ◌==◌, if◌then◌else◌, get_or, modify, replicate,
}
use Prim.Native.Nat.{bit_and, bit_or}
use u_psu.Common.Results.{Result, ok, err, invalid_argument, ◌>>=◌, ◌>>◌, throw_if}

-- `~x` for 64-bit words.
abbrev pub not64 : ℕ → ℕ
not64 x = 2 ^ 64 - 1 - x

abbrev pub shl64 : ℕ → ℕ → ℕ
shl64 x k = (x * 2 ^ k) % 2 ^ 64

-- `v |= v >> k`
abbrev pub smear : ℕ → ℕ → ℕ
smear v k = bit_or v (v / 2 ^ k)

-- All shifts in turn, and the steps behind them.
abbrev pub smear_all : ℕ → ℕ
smear_all v = smear (smear (smear (smear (smear (smear v 1) 2) 4) 8) 16) 32

abbrev pub next_of : ℕ → ℕ
next_of ones = let next : ℕ = (ones + 1) % 2 ^ 64 in if next == 0 then next + 1 else next

unfoldable pub next_power_of_2 : ℕ → ℕ
next_power_of_2 v = next_of (smear_all ((v + 2 ^ 64 - 1) % 2 ^ 64))

abbrev pub tags_per_bucket : ℕ
tags_per_bucket = 4

pub record CuckooFilterTable : Type 0 where
  pub bits_per_tag : ℕ
  pub tag_input_mask : ℕ
  pub table : List ℕ
  pub num_buckets : ℕ

-- Where a tag stands.
pub record TagIndexInfo : Type 0 where
  pub tag_start_idx : ℕ
  pub tag_start_offset : ℕ
  pub bits_first_word : ℕ
  pub bits_second_word : ℕ

unfoldable pub tag_index_info : ℕ → ℕ → ℕ → TagIndexInfo
tag_index_info bits_per_tag bucket tag_idx =
    let tag_start_bit : ℕ = bucket * bits_per_tag * tags_per_bucket + tag_idx * bits_per_tag in
    let offset : ℕ = tag_start_bit % 64 in
    let crosses = ltb (64 - bits_per_tag) offset in
    record {
      tag_start_idx = tag_start_bit / 64;
      tag_start_offset = offset;
      bits_first_word = if crosses then 64 - offset else bits_per_tag;
      bits_second_word = if crosses then bits_per_tag - (64 - offset) else 0;
    }

-- The comparison of the ratio with 0.96 is exact for fewer than 2^50 items.
unfoldable pub bucket_count : ℕ → ℕ
unfolding next_power_of_2
bucket_count num_items =
    let n = next_power_of_2 (max 1 (num_items / tags_per_bucket)) in
    if ltb (96 * (n * tags_per_bucket)) (num_items * 100) then n * 2 else n

unfoldable pub new : ℕ → ℕ → CuckooFilterTable
unfolding bucket_count
new num_items bits_per_tag =
    let n = bucket_count num_items in
    record {
      bits_per_tag = bits_per_tag;
      tag_input_mask = ((2 ^ 32 - 1) * 2 ^ bits_per_tag) % 2 ^ 32;
      table = replicate ((tags_per_bucket * bits_per_tag * n + 63) / 64) 0;
      num_buckets = n;
    }

-- `~(~0 << k)`
abbrev pub low_mask : ℕ → ℕ
low_mask k = not64 (shl64 (2 ^ 64 - 1) k)

-- The tag at the place, taken from one word or two.
unfoldable pub read_word : List ℕ → TagIndexInfo → ℕ
read_word table tii =
    let first : ℕ =
      bit_and (get_or table tii.tag_start_idx 0 / 2 ^ tii.tag_start_offset)
        (low_mask tii.bits_first_word)
      % 2 ^ 32 in
    let second : ℕ =
      bit_and (get_or table (tii.tag_start_idx + 1) 0 % 2 ^ 32)
        (low_mask tii.bits_second_word % 2 ^ 32) in
    if tii.bits_second_word == 0
    then first
    else bit_or first ((second * 2 ^ tii.bits_first_word) % 2 ^ 32)

unfoldable pub write_word : List ℕ → ℕ → TagIndexInfo → ℕ → List ℕ
write_word table bits_per_tag tii tag =
    let tag_ones : ℕ = shl64 1 bits_per_tag - 1 in
    let first = modify table tii.tag_start_idx (λ w.
      bit_or (bit_and w (not64 (shl64 tag_ones tii.tag_start_offset)))
        (shl64 tag tii.tag_start_offset)) in
    if tii.bits_second_word == 0
    then first
    else modify first (tii.tag_start_idx + 1) (λ w.
      bit_or (bit_and w (not64 (tag_ones / 2 ^ tii.bits_first_word)))
        (tag / 2 ^ tii.bits_first_word))

-- `tag & tag_input_mask_`
abbrev pub too_wide : CuckooFilterTable → ℕ → Bool
too_wide t tag = not (bit_and tag t.tag_input_mask == 0)

unfoldable pub read_tag : CuckooFilterTable → ℕ → ℕ → Result ℕ
unfolding read_word tag_index_info
read_tag t bucket tag_idx =
    throw_if (leb t.num_buckets bucket) invalid_argument
    >> throw_if (leb tags_per_bucket tag_idx) invalid_argument
    >> ok (read_word t.table (tag_index_info t.bits_per_tag bucket tag_idx))

unfoldable pub write_tag : CuckooFilterTable → ℕ → ℕ → ℕ → Result CuckooFilterTable
unfolding write_word tag_index_info
write_tag t bucket tag_idx tag =
    throw_if (leb t.num_buckets bucket) invalid_argument
    >> throw_if (leb tags_per_bucket tag_idx) invalid_argument
    >> throw_if (too_wide t tag) invalid_argument
    >> ok (record t {
      table = write_word t.table t.bits_per_tag (tag_index_info t.bits_per_tag bucket tag_idx) tag;
    })

-- The first of `count` tags from `tag_idx` on that is `tag`.
unfoldable pub find_from : CuckooFilterTable → ℕ → ℕ → ℕ → ℕ → Result (Option ℕ)
unfolding read_tag
find_from t bucket tag zero tag_idx = ok none
find_from t bucket tag (suc count) tag_idx =
    let rest = find_from t bucket tag count (tag_idx + 1) in
    read_tag t bucket tag_idx >>= λ x. if x == tag then ok (some tag_idx) else rest

-- `rnd` is the value of `rand()`. The result is whether the tag found room, the table and
-- `old_tag`.
unfoldable pub insert_tag :
    CuckooFilterTable → ℕ → ℕ → Bool → ℕ → ℕ → Result (Bool × CuckooFilterTable × ℕ)
insert_tag t bucket tag kickout rnd old_tag = find_from t bucket 0 tags_per_bucket 0 >>= λ free.
    elim free [
      | some i ↦ write_tag t bucket i tag >>= λ t'. ok (true, t', old_tag)
      | none ↦
          let i : ℕ = rnd % tags_per_bucket in
          let kicked =
            read_tag t bucket i >>= λ old. write_tag t bucket i tag >>= λ t'. ok (false, t', old) in
          if kickout then kicked else ok (false, t, old_tag)
    ]

unfoldable pub delete_tag : CuckooFilterTable → ℕ → ℕ → Result (Bool × CuckooFilterTable)
delete_tag t bucket tag =
    throw_if (leb t.num_buckets bucket) invalid_argument
    >> throw_if (too_wide t tag) invalid_argument
    >> (find_from t bucket tag tags_per_bucket 0 >>= λ found. elim found [
      | some i ↦ write_tag t bucket i 0 >>= λ t'. ok (true, t')
      | none ↦ ok (false, t)
    ])

unfoldable pub find_tag_in_bucket : CuckooFilterTable → ℕ → ℕ → Result Bool
find_tag_in_bucket t bucket tag =
    throw_if (leb t.num_buckets bucket) invalid_argument
    >> throw_if (too_wide t tag) invalid_argument
    >> (find_from t bucket tag tags_per_bucket 0 >>= λ found.
        ok (elim found [ some i ↦ true | none ↦ false ]))

unfoldable pub find_tag_in_buckets : CuckooFilterTable → ℕ → ℕ → ℕ → Result Bool
find_tag_in_buckets t bucket1 bucket2 tag =
    throw_if (leb t.num_buckets bucket1) invalid_argument
    >> throw_if (leb t.num_buckets bucket2) invalid_argument
    >> (find_tag_in_bucket t bucket1 tag >>= λ here.
        if here then ok true else find_tag_in_bucket t bucket2 tag)
