-- ===== src/DbEncoding.antt =====
-- common/apsu/util/db_encoding.cpp: items and labels as elements of the plaintext field. Bytes are
-- numbers below 256, the shifts and masks stay on bytes as in the source, and a machine with the
-- low byte first is meant where a word is read as bytes. Reading elements back into bits
-- (field_elts_to_bits and its callers) is not modelled.
pub mod Size
pub mod Bits
pub mod Copied
pub mod Elements
pub mod Packing
use Prim.Native.Nat.{bit_and, bit_or}
use u_psu.Common.{
  ℕ, zero, suc, ◌+◌, ◌-◌, ◌*◌, ◌/◌, ◌%◌, ◌^◌, Bool, List, [], ◌∷◌, ◌++◌, ltb, leb, ◌==◌, ◌&&◌,
  if◌then◌else◌, get_or, set, replicate, length, min,
}
use u_psu.Common.Words.{add32, sub32}
use u_psu.Common.Results.{Result, ok, err, invalid_argument, logic_error, throw_if, ◌>>=◌, ◌>>◌}
use u_psu.BinBundle.{ItemLabels}

-- The low and the high word of an item.
abbrev pub Item : Type 0
Item = ℕ × ℕ

abbrev pub same_item : Item → Item → Bool
same_item (a, b) (c, d) = (a == c) && (b == d)

unfoldable pub read_u64_little_endian : List ℕ → ℕ
read_u64_little_endian bytes = bit_or (get_or bytes 0 0) (
    bit_or (get_or bytes 1 0 * 2 ^ 8) (
      bit_or (get_or bytes 2 0 * 2 ^ 16) (
        bit_or (get_or bytes 3 0 * 2 ^ 24) (
          bit_or (get_or bytes 4 0 * 2 ^ 32) (
            bit_or (get_or bytes 5 0 * 2 ^ 40)
              (bit_or (get_or bytes 6 0 * 2 ^ 48) (get_or bytes 7 0 * 2 ^ 56)))))))

-- Each mask and shift is the byte of the number.
unfoldable pub write_u64_little_endian : ℕ → List ℕ
write_u64_little_endian num =
    num % 2 ^ 8
    ∷ num / 2 ^ 8 % 2 ^ 8
    ∷ num / 2 ^ 16 % 2 ^ 8
    ∷ num / 2 ^ 24 % 2 ^ 8
    ∷ num / 2 ^ 32 % 2 ^ 8
    ∷ num / 2 ^ 40 % 2 ^ 8
    ∷ num / 2 ^ 48 % 2 ^ 8
    ∷ num / 2 ^ 56 % 2 ^ 8
    ∷ []

-- `get_as<const unsigned char>()`
abbrev pub item_bytes : Item → List ℕ
item_bytes (lw, hw) = write_u64_little_endian lw ++ write_u64_little_endian hw

-- `src[i]`, where a read past the end, which the source never makes, gives 0.
abbrev pub byte_at : List ℕ → ℕ → ℕ
byte_at src i = get_or src i 0

-- The loop over the full bytes of `dest`, `count` of them from byte `i` on, for a shift that is
-- not 0.
unfoldable pub copy_shifted : List ℕ → ℕ → ℕ → ℕ → ℕ → List ℕ → List ℕ
copy_shifted src low_offset zero word_begin i dest = dest
copy_shifted src low_offset (suc count) word_begin i dest =
    let low = byte_at src word_begin / 2 ^ low_offset in
    let high = byte_at src (word_begin + 1) * 2 ^ (8 - low_offset) % 2 ^ 8 in
    copy_shifted src low_offset count (word_begin + 1) (i + 1) (set dest i (bit_or low high))

-- `copy_bytes`
unfoldable pub copy_bytes : List ℕ → ℕ → ℕ → ℕ → List ℕ → List ℕ
copy_bytes src zero word_begin i dest = dest
copy_bytes src (suc count) word_begin i dest =
    copy_bytes src count (word_begin + 1) (i + 1) (set dest i (byte_at src word_begin))

-- The last byte of `dest`, of which `rem_bits` bits are written.
unfoldable pub last_byte : List ℕ → ℕ → ℕ → ℕ → ℕ → ℕ
last_byte src low_offset rem_bits word_begin dest_word =
    if leb (low_offset + rem_bits) 8
    then (let mask : ℕ = 2 ^ rem_bits - 1 in
        let low = bit_and (byte_at src word_begin / 2 ^ low_offset) mask in
        bit_or low (bit_and dest_word (255 - mask)))
    else (let low_count : ℕ = 8 - low_offset in
        let low = bit_and (byte_at src word_begin / 2 ^ low_offset) (2 ^ low_count - 1) in
        let mid_count : ℕ = rem_bits - low_count in
        let mid =
          bit_and (byte_at src (word_begin + 1)) (2 ^ mid_count - 1) * 2 ^ low_count % 2 ^ 8 in
        let high_mask : ℕ = (2 ^ 32 - 1) * 2 ^ rem_bits % 2 ^ 8 in
        bit_or low (bit_or mid (bit_and dest_word high_mask)))

-- The overload that writes from the first bit of `dest` on.
unfoldable pub copy_with_bit_offset : List ℕ → ℕ → ℕ → List ℕ → List ℕ
unfolding copy_shifted copy_bytes last_byte
copy_with_bit_offset src bit_offset bit_count dest =
    let low_offset : ℕ = bit_offset % 8 in
    let full_byte_count : ℕ = bit_count / 8 in
    let word_begin : ℕ = bit_offset / 8 in
    let rem_bits : ℕ = bit_count - full_byte_count * 8 in
    let full : List ℕ =
      if low_offset == 0
      then copy_bytes src full_byte_count word_begin 0 dest
      else copy_shifted src low_offset full_byte_count word_begin 0 dest in
    if rem_bits == 0
    then full
    else set full full_byte_count (
        last_byte src low_offset rem_bits (word_begin + full_byte_count)
          (byte_at full full_byte_count))

-- The data and the bit count of a BitstringView.
unfoldable pub bitstring_view : List ℕ → ℕ → Result (List ℕ × ℕ)
bitstring_view bytes bit_count =
    let view : Result (List ℕ × ℕ) = ok (bytes, bit_count) in
    throw_if (bit_count == 0) invalid_argument
    >> (throw_if (ltb (length bytes * 8) bit_count) invalid_argument >> view)

-- The loop of bits_to_field_elts: `count` elements from bit `src_offset` on.
unfoldable pub field_elts : List ℕ → ℕ → ℕ → ℕ → ℕ → List ℕ
unfolding read_u64_little_endian copy_with_bit_offset
field_elts src bits_per_felt zero src_offset num_uncopied_bits = []
field_elts src bits_per_felt (suc count) src_offset num_uncopied_bits =
    let copy_size : ℕ = min bits_per_felt num_uncopied_bits in
    read_u64_little_endian (copy_with_bit_offset src src_offset copy_size (replicate 8 0))
    ∷ field_elts src bits_per_felt count (add32 src_offset bits_per_felt)
        (sub32 num_uncopied_bits copy_size)

-- `is_zero` and `bit_count` are what the modulus says of itself.
unfoldable pub bits_to_field_elts : List ℕ × ℕ → Bool → ℕ → Result (List ℕ)
unfolding field_elts
bits_to_field_elts (bytes, bits) is_zero bit_count =
    let bits_per_felt = sub32 bit_count 1 in
    let num_felts : ℕ = sub32 (add32 bits bits_per_felt) 1 / bits_per_felt in
    throw_if is_zero invalid_argument >> ok (field_elts bytes bits_per_felt num_felts 0 bits)

-- `safe_cast<uint32_t>`
unfoldable pub safe_cast_u32 : ℕ → Result ℕ
safe_cast_u32 n = if ltb n (2 ^ 32) then ok n else err logic_error

unfoldable pub algebraize_item : Item → ℕ → Bool → ℕ → Result (List ℕ)
unfolding safe_cast_u32 bitstring_view bits_to_field_elts
algebraize_item item item_bit_count is_zero bit_count = safe_cast_u32 item_bit_count >>= λ bits.
    bitstring_view (item_bytes item) bits >>= λ view. bits_to_field_elts view is_zero bit_count

-- `count` label parts of the element at `felt_item_idx`, from part `label_idx` on.
unfoldable pub label_parts : List ℕ → ℕ → ℕ → ℕ → ℕ → List ℕ
label_parts alg_label felts_per_item felt_item_idx zero label_idx = []
label_parts alg_label felts_per_item felt_item_idx (suc count) label_idx =
    get_or alg_label (felts_per_item * label_idx + felt_item_idx) 0
    ∷ label_parts alg_label felts_per_item felt_item_idx count (label_idx + 1)

-- The outer loop, over the elements of the item.
unfoldable pub pair_up : List ℕ → List ℕ → ℕ → ℕ → ℕ → ItemLabels
unfolding label_parts
pair_up [] alg_label felts_per_item label_size felt_item_idx = []
pair_up (x ∷ alg_item) alg_label felts_per_item label_size felt_item_idx =
    (x, label_parts alg_label felts_per_item felt_item_idx label_size 0)
    ∷ pair_up alg_item alg_label felts_per_item label_size (felt_item_idx + 1)

-- The padding of the label is what `get_or` gives behind its end.
unfoldable pub algebraize_item_label : Item → List ℕ → ℕ → Bool → ℕ → Result ItemLabels
unfolding safe_cast_u32 bitstring_view bits_to_field_elts pair_up
algebraize_item_label item label item_bit_count is_zero bit_count =
    safe_cast_u32 item_bit_count >>= λ bits. bitstring_view (item_bytes item) bits >>= λ view.
    bits_to_field_elts view is_zero bit_count >>= λ alg_item.
    safe_cast_u32 (length label * 8) >>= λ label_bits.
    bitstring_view label label_bits >>= λ label_view.
    bits_to_field_elts label_view is_zero bit_count >>= λ alg_label.
    let felts_per_item : ℕ = length alg_item in
    let label_size : ℕ = (length alg_label + felts_per_item - 1) / felts_per_item in
    ok (pair_up alg_item alg_label felts_per_item label_size 0)
