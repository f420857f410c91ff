-- ===== src/CuckooFilter.antt =====
-- CuckooFilter of receiver/apsu/util/cuckoo_filter.h and cuckoo_filter.cpp, with the hash function
-- of receiver/apsu/util/hash.h. The random array of the hash function, which BLAKE2 fills, is an
-- argument, and so are the values of `rand()`, by the round of the loop that asks for them.
pub mod Tags
pub mod Indices
pub mod Kicks
pub mod Members
pub mod Adding
pub mod Removing
use u_psu.Common.{
  ℕ, zero, suc, ◌+◌, ◌-◌, ◌*◌, ◌/◌, ◌%◌, ◌^◌, Bool, true, false, ◌&&◌, ◌||◌, Option, none, some,
  ltb, ◌==◌, if◌then◌else◌,
}
use Prim.Native.Nat.{bit_and, bit_xor}
use u_psu.Common.Results.{Result, ok, err, ◌>>=◌}
use u_psu.CuckooTable.{CuckooFilterTable, insert_tag, delete_tag, find_tag_in_buckets}
use u_psu.CuckooTable

abbrev pub max_cuckoo_kicks : ℕ
max_cuckoo_kicks = 500

pub record OverflowCache : Type 0 where
  pub index : ℕ
  pub tag : ℕ
  pub used : Bool

pub record CuckooFilter : Type 0 where
  pub num_items : ℕ
  pub overflow : OverflowCache
  pub table : CuckooFilterTable

unfoldable pub new : ℕ → ℕ → CuckooFilter
new key_count_max bits_per_tag = record {
  num_items = 0;
  overflow = record { index = 0; tag = 0; used = false };
  table = CuckooTable.new key_count_max bits_per_tag;
}

-- Byte `k` of an item chooses the entry of block `k`.
abbrev pub hash_entry : (ℕ → ℕ) → ℕ → ℕ → ℕ
hash_entry random_array item k = random_array (k * 256 + item / 2 ^ (8 * k) % 256)

unfoldable pub hasher : (ℕ → ℕ) → ℕ → ℕ
hasher random_array item =
    let e = hash_entry random_array item in
    bit_xor
      (bit_xor (bit_xor (bit_xor (bit_xor (bit_xor (bit_xor (e 0) (e 1)) (e 2)) (e 3)) (e 4)) (e 5))
        (e 6))
      (e 7)

unfoldable pub tag_bit_limit : CuckooFilterTable → ℕ → ℕ
tag_bit_limit t value =
    let tag : ℕ = bit_and value (2 ^ t.bits_per_tag - 1) in if tag == 0 then tag + 1 else tag

unfoldable pub idx_bucket_limit : CuckooFilterTable → ℕ → ℕ
idx_bucket_limit t value = bit_and value (t.num_buckets - 1)

-- `num_items` of a filter that loses an item.
abbrev pub one_less : CuckooFilter → CuckooFilterTable → CuckooFilter
one_less f t' = record f { table = t'; num_items = (f.num_items + 2 ^ 64 - 1) % 2 ^ 64 }

module _ (random_array : ℕ → ℕ) where
  -- The tag and the index of an item.
  unfoldable pub get_tag_and_index : CuckooFilterTable → ℕ → ℕ × ℕ
  get_tag_and_index t item =
      let hash = hasher random_array item in
      (tag_bit_limit t (hash % 2 ^ 32), idx_bucket_limit t (hash / 2 ^ 32))

  unfoldable pub get_alt_index : CuckooFilterTable → ℕ → ℕ → ℕ
  get_alt_index t idx tag = bit_xor idx (idx_bucket_limit t (hasher random_array tag))

  unfoldable pub contains : CuckooFilter → ℕ → Result Bool
  contains f item =
      let (tag, idx1) = get_tag_and_index f.table item in
      let idx2 = get_alt_index f.table idx1 tag in
      if f.overflow.used
        && (f.overflow.tag == tag)
        && ((f.overflow.index == idx1) || (f.overflow.index == idx2))
      then ok true
      else find_tag_in_buckets f.table idx1 idx2 tag

  -- The loop of `add_index_tag`, with the rounds left and the round. The result is the table, with
  -- the index and tag that found no room.
  unfoldable pub kick :
      (ℕ → ℕ) → ℕ → ℕ → ℕ → ℕ → CuckooFilterTable → Result (CuckooFilterTable × Option (ℕ × ℕ))
  kick rnd zero i curr_idx curr_tag t = ok (t, some (curr_idx, curr_tag))
  kick rnd (suc rounds) i curr_idx curr_tag t =
      let kickout = ltb 0 i in
      insert_tag t curr_idx curr_tag kickout (rnd i) 0 >>= λ (done, t', old_tag). elim done [
        | true ↦ ok (t', none)
        | false ↦
            let next_tag = if kickout then old_tag else curr_tag in
            kick rnd rounds (i + 1) (get_alt_index t' curr_idx next_tag) next_tag t'
      ]

  unfoldable pub add_index_tag : (ℕ → ℕ) → ℕ → ℕ → CuckooFilter → Result CuckooFilter
  add_index_tag rnd idx tag f = kick rnd max_cuckoo_kicks 0 idx tag f.table >>= λ (t', rest).
      elim rest [
        | none ↦ ok (record f { table = t' })
        | some (i, x) ↦
            ok (record f { table = t'; overflow = record { index = i; tag = x; used = true } })
      ]

  unfoldable pub add : (ℕ → ℕ) → ℕ → CuckooFilter → Result (Bool × CuckooFilter)
  add rnd item f =
      let (tag, idx) = get_tag_and_index f.table item in
      if f.overflow.used
      then ok (false, f)
      else (add_index_tag rnd idx tag f >>= λ f'.
          ok (true, record f' { num_items = (f'.num_items + 1) % 2 ^ 64 }))

  unfoldable pub try_eliminate_overflow : (ℕ → ℕ) → CuckooFilter → Result CuckooFilter
  try_eliminate_overflow rnd f =
      let o = f.overflow in
      if o.used
      then add_index_tag rnd o.index o.tag (record f { overflow = record o { used = false } })
      else ok f

  unfoldable pub remove : (ℕ → ℕ) → ℕ → CuckooFilter → Result (Bool × CuckooFilter)
  remove rnd item f =
      let (tag, idx1) = get_tag_and_index f.table item in
      let idx2 = get_alt_index f.table idx1 tag in
      let o = f.overflow in
      delete_tag f.table idx1 tag >>= λ (first, t1).
      if first
      then (try_eliminate_overflow rnd (one_less f t1) >>= λ f'. ok (true, f'))
      else (delete_tag f.table idx2 tag >>= λ (second, t2).
          if second
          then (try_eliminate_overflow rnd (one_less f t2) >>= λ f'. ok (true, f'))
          else (if o.used && ((o.index == idx1) || (o.index == idx2)) && (o.tag == tag)
              then ok (true, record (one_less f f.table) { overflow = record o { used = false } })
              else ok (false, f)))
