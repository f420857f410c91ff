-- ===== src/CuckooTable/Create.antt =====
-- The constructor of a table.
use u_psu.Common.{
  ℕ, ◌+◌, ◌*◌, ◌/◌, ◌^◌, ◌≤◌, ◌<◌, ◌≡◌, refl, replicate, arith, length, length-replicate,
  get_or-replicate_self,
}
use u_psu.CuckooTable.{new, bucket_count, tags_per_bucket}
use u_psu.CuckooTable.PowerOfTwo.{bucket_count_lem}
use u_psu.CuckooTable.RoundTrip.{IsTable}

-- For fewer than 2^50 items and 1 to 31 bits a tag, the constructor makes a well-formed table; the
-- number of its buckets is a power of two, and the items fill at most 96 of 100 places.
pub new-IsTable :
    (num_items bits_per_tag : ℕ)
    → num_items < 2 ^ 50
    → 0 < bits_per_tag
    → bits_per_tag < 32
    → IsTable (new num_items bits_per_tag)
      × ((k : ℕ) × ((new num_items bits_per_tag).num_buckets ≡ 2 ^ k) × (k < 64))
      × (num_items * 100 ≤ 96 * ((new num_items bits_per_tag).num_buckets * tags_per_bucket))
unfolding new
new-IsTable n b h pos narrow =
    let (k, e, below, fill) = bucket_count_lem n h in
    let words : ℕ = (tags_per_bucket * b * bucket_count n + 63) / 64 in
    let same : bucket_count n * tags_per_bucket * b ≡ tags_per_bucket * b * bucket_count n =
      grind arith in
    let count : length (replicate {A = ℕ} words 0) ≡ words = length-replicate words 0 in
    let room : bucket_count n * tags_per_bucket * b ≤ 64 * length (replicate {A = ℕ} words 0) =
      omega arith in
    (
      record {
        pos = pos;
        narrow = narrow;
        mask = refl;
        words = λ i. omega (arith, get_or-replicate_self {A = ℕ} words i 0);
        room = room;
      },
      (k, e, below),
      fill,
    )
