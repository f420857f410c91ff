-- ===== src/Tests/Cuckoo.antt =====
-- A table whose tags cross its words, and a filter of two buckets.
use u_psu.Common.{
  ℕ, ◌+◌, ◌^◌, ◌≡◌, ◌⊎◌, ◌<◌, ◌≤◌, ◌*◌, refl, true, false, [], ◌∷◌, arith, Bool, ◌%◌, inl,
}
use u_psu.Common.Results.{Result, ok, ◌>>=◌}
use u_psu.CuckooTable.{
  CuckooFilterTable, read_tag, write_tag, insert_tag, delete_tag, bucket_count, next_power_of_2,
}
use u_psu.CuckooTable
use u_psu.CuckooTable.PowerOfTwo.{next_power_of_2_lem}
use u_psu.CuckooTable.RoundTrip.{IsTable, read_tag-write_tag}
use u_psu.CuckooTable.Create.{new-IsTable}
use u_psu.CuckooFilter.{CuckooFilter, contains, add, remove}
use u_psu.CuckooFilter
use u_psu.CuckooFilter.Members.{IsFilter, new-IsFilter}
use u_psu.CuckooFilter.Adding.{add-contains}
use u_psu.CuckooFilter.Removing.{remove-contains}

abbrev empty : CuckooFilterTable
empty = CuckooTable.new 8 12

-- The second tag of bucket 1 takes the digits 60 to 71.
across : write_tag empty 1 1 2741 ≡ ok (record empty { table = 5764607523034234880 ∷ 171 ∷ 0 ∷ [] })
unfolding write_tag CuckooTable.new
across = refl

read_tag-write_tag_example :
    (t' : CuckooFilterTable) × (write_tag empty 1 1 2741 ≡ ok t')
    × IsTable t'
    × (t'.bits_per_tag ≡ 12)
    × (t'.num_buckets ≡ 4)
    × (read_tag t' 1 1 ≡ ok 2741)
unfolding CuckooTable.new
read_tag-write_tag_example =
    read_tag-write_tag empty 1 1 2741 1 1
      (new-IsTable 8 12 (omega arith) (omega arith) (omega arith)).0 (omega arith) (omega arith)
      (omega arith) (omega arith) (omega arith)

new-IsTable_example :
    IsTable empty
    × ((k : ℕ) × (empty.num_buckets ≡ 2 ^ k) × (k < 64))
    × (8 * 100 ≤ 96 * (empty.num_buckets * 4))
new-IsTable_example = new-IsTable 8 12 (omega arith) (omega arith) (omega arith)

next_power_of_2_lem_example :
    (k : ℕ) × (next_power_of_2 5 ≡ 2 ^ k) × (k < 64) × (5 ≤ 2 ^ k) × (2 ^ k < 2 * 5)
next_power_of_2_lem_example = next_power_of_2_lem 5 (omega arith) (omega arith)

-- 8 items fill 8 places by more than 96 of 100.
counts : (bucket_count 8 ≡ 4) × (next_power_of_2 9 ≡ 16)
unfolding bucket_count next_power_of_2
counts = (refl, refl)

abbrev random_array : ℕ → ℕ
random_array k = ((k + 1) * 11400714819323198485) % 2 ^ 64

abbrev rnd : ℕ → ℕ
rnd i = i

abbrev no_items : CuckooFilter
no_items = CuckooFilter.new 8 12

add-contains_example :
    (f' : CuckooFilter) × (add random_array rnd 5 no_items ≡ ok (true, f'))
    × IsFilter f'
    × (contains random_array f' 5 ≡ ok true)
unfolding CuckooFilter.new
add-contains_example =
    add-contains random_array rnd no_items 5 5
      (new-IsFilter 8 12 (omega arith) (omega arith) (omega arith)) refl (inl refl)

-- Items 5 and 7 are added and 5 is removed.
abbrev add_remove : Result (Bool × Bool)
add_remove = add random_array rnd 5 no_items >>= λ (r, f). add random_array rnd 7 f >>= λ (s, g).
    remove random_array rnd 5 g >>= λ (u, h). contains random_array h 7 >>= λ a.
    contains random_array h 5 >>= λ b. let both : Result (Bool × Bool) = ok (a, b) in both

add_remove_run : add_remove ≡ ok (true, false)
unfolding add remove contains CuckooFilter.new CuckooTable.new CuckooFilter.add_index_tag
    CuckooFilter.kick insert_tag CuckooTable.find_from CuckooFilter.get_tag_and_index
    CuckooFilter.idx_bucket_limit CuckooFilter.hasher write_tag CuckooFilter.tag_bit_limit
    delete_tag CuckooFilter.try_eliminate_overflow CuckooTable.find_tag_in_buckets
    CuckooFilter.get_alt_index CuckooTable.find_tag_in_bucket
add_remove_run = refl

remove-contains_example :
    ((f' : CuckooFilter) × (remove random_array rnd 5 no_items ≡ ok (true, f'))
      × (contains random_array no_items 5 ≡ ok true)
      × IsFilter f')
    ⊎ ((remove random_array rnd 5 no_items ≡ ok (false, no_items))
        × (contains random_array no_items 5 ≡ ok false))
remove-contains_example =
    remove-contains random_array rnd no_items 5
      (new-IsFilter 8 12 (omega arith) (omega arith) (omega arith))
