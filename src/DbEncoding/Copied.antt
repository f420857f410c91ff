-- ===== src/DbEncoding/Copied.antt =====
-- The loops of copy_with_bit_offset, and the element that it writes.
use u_psu.Common.{
  ℕ, zero, suc, ◌+◌, ◌-◌, ◌*◌, ◌/◌, ◌%◌, ◌≡◌, ◌≢◌, ◌<◌, ◌≤◌, refl, sym, ap, ◌∙◌, ◌⊎◌, inl, inr,
  true, false, List, ltb, lt→ltb, le→ltb_false, ◌==◌, ==→eq, ==_refl, if◌then◌else◌, set, length,
  replicate, arith, Bool-cases, ltb→lt, ltb→ge, get_or-set_self, get_or-set_ne, length-set,
  get_or-replicate_self,
}
use u_psu.Common.Digits.{bit, bit-zero}
use u_psu.DbEncoding.{byte_at, copy_shifted, copy_bytes, last_byte, copy_with_bit_offset}
use u_psu.DbEncoding.Bits.{bit_at, IsBytes, bit_at_eq, shifted, bit-shifted, bit-last_byte}

-- Both loops, for the byte that comes from byte `i` of the source.
copy_with : (ℕ → ℕ) → ℕ → ℕ → ℕ → List ℕ → List ℕ
copy_with f zero wb i dest = dest
copy_with f (suc count) wb i dest = copy_with f count (wb + 1) (i + 1) (set dest i (f wb))

copy_shifted-copy_with :
    (src : List ℕ) (low count wb i : ℕ) (dest : List ℕ)
    → copy_shifted src low count wb i dest ≡ copy_with (λ n. shifted src low n) count wb i dest
unfolding copy_shifted copy_with
copy_shifted-copy_with src low zero wb i dest = refl
copy_shifted-copy_with src low (suc count) wb i dest =
    copy_shifted-copy_with src low count (wb + 1) (i + 1) _

copy_bytes-copy_with :
    (src : List ℕ) (count wb i : ℕ) (dest : List ℕ)
    → copy_bytes src count wb i dest ≡ copy_with (λ n. byte_at src n) count wb i dest
unfolding copy_bytes copy_with
copy_bytes-copy_with src zero wb i dest = refl
copy_bytes-copy_with src (suc count) wb i dest = copy_bytes-copy_with src count (wb + 1) (i + 1) _

module _ (f : ℕ → ℕ) where
  length-copy_with :
      (count wb i : ℕ) (dest : List ℕ) → length (copy_with f count wb i dest) ≡ length dest
  unfolding copy_with
  length-copy_with zero wb i dest = refl
  length-copy_with (suc count) wb i dest =
      length-copy_with count (wb + 1) (i + 1) (set dest i (f wb)) ∙ length-set dest i (f wb)

  copy_with_outside :
      (count wb i : ℕ) (dest : List ℕ) (j : ℕ)
      → (j < i) ⊎ (i + count ≤ j)
      → byte_at (copy_with f count wb i dest) j ≡ byte_at dest j
  unfolding copy_with
  copy_with_outside zero wb i dest j h = refl
  copy_with_outside (suc count) wb i dest j h =
      let next : (j < i + 1) ⊎ (i + 1 + count ≤ j) = elim h [
        | inl lt ↦ inl (omega arith)
        | inr ge ↦ inr (omega arith)
      ] in
      let ne : i ≢ j = λ e. elim h [ inl lt ↦ omega arith | inr ge ↦ omega arith ] in
      copy_with_outside count (wb + 1) (i + 1) (set dest i (f wb)) j next
      ∙ get_or-set_ne dest i j (f wb) 0 ne

  copy_with_inside :
      (count wb i : ℕ) (dest : List ℕ) (k : ℕ)
      → i + count ≤ length dest
      → k < count
      → byte_at (copy_with f count wb i dest) (i + k) ≡ f (wb + k)
  unfolding copy_with
  copy_with_inside zero wb i dest k fits h = absurd (omega arith)
  copy_with_inside (suc count) wb i dest zero fits h =
      let here : i + 0 ≡ i = omega arith in
      let from : wb + 0 ≡ wb = omega arith in
      rw (here, from)
        (copy_with_outside count (wb + 1) (i + 1) (set dest i (f wb)) i (inl (omega arith))
          ∙ get_or-set_self dest i (f wb) 0 (omega arith))
  copy_with_inside (suc count) wb i dest (suc k) fits h =
      let here : i + suc k ≡ i + 1 + k = omega arith in
      let from : wb + suc k ≡ wb + 1 + k = omega arith in
      rw (here, from)
        (copy_with_inside count (wb + 1) (i + 1) (set dest i (f wb)) k
          (omega (arith, length-set dest i (f wb))) (omega arith))

abbrev zeros : List ℕ
zeros = replicate 8 0

-- The full bytes of the element.
abbrev full_bytes : List ℕ → ℕ → ℕ → ℕ → List ℕ
full_bytes src low count wb =
    if low == 0 then copy_bytes src count wb 0 zeros else copy_shifted src low count wb 0 zeros

record IsFull (src : List ℕ) (low count wb : ℕ) (full : List ℕ) : Type 0 where
  size : length full ≡ 8
  inside :
      (q r : ℕ) → q < count → r < 8 → bit (byte_at full q) r ≡ bit_at src (8 * (wb + q) + low + r)
  outside : (q : ℕ) → count ≤ q → byte_at full q ≡ 0

copy_with-IsFull :
    (src : List ℕ) (f : ℕ → ℕ) (low count wb : ℕ)
    → count ≤ 8
    → ((i r : ℕ) → r < 8 → bit (f i) r ≡ bit_at src (8 * i + low + r))
    → IsFull src low count wb (copy_with f count wb 0 zeros)
copy_with-IsFull src f low count wb fits each = record {
  size = length-copy_with f count wb 0 zeros;
  inside = λ q r lt g.
      let e : 0 + q ≡ q = omega arith in
      ap (λ (z : ℕ). bit (byte_at (copy_with f count wb 0 zeros) z) r) (sym e)
      ∙ ap (λ (b : ℕ). bit b r) (copy_with_inside f count wb 0 zeros q (omega arith) lt)
      ∙ each (wb + q) r g;
  outside = λ q ge.
      copy_with_outside f count wb 0 zeros q (inr (omega arith)) ∙ get_or-replicate_self 8 q 0;
}

full_bytes-IsFull :
    (src : List ℕ) (low count wb : ℕ)
    → IsBytes src
    → low < 8
    → count ≤ 8
    → IsFull src low count wb (full_bytes src low count wb)
full_bytes-IsFull src low count wb bytes h fits = elim (Bool-cases (low == 0)) [
  | inl t ↦
      let none = ==→eq low 0 t in
      rw (t, copy_bytes-copy_with src count wb 0 zeros)
        (copy_with-IsFull src (λ n. byte_at src n) low count wb fits
          (λ i r g. sym (bit_at_eq src (8 * i + low + r) i r (omega arith) g)))
  | inr t ↦
      rw (t, copy_shifted-copy_with src low count wb 0 zeros)
        (copy_with-IsFull src (λ n. shifted src low n) low count wb fits
          (λ i r g. bit-shifted src low i r bytes h g))
]

-- Copying up to 64 bits into a zero element: the element has the bits of the source from the
-- offset on, and zeros behind them.
pub copy_with_bit_offset_lem :
    (src : List ℕ) (bit_offset bit_count k : ℕ)
    → IsBytes src
    → bit_count ≤ 64
    → bit_at (copy_with_bit_offset src bit_offset bit_count (replicate 8 0)) k
      ≡ (if ltb k bit_count then bit_at src (bit_offset + k) else 0)
unfolding copy_with_bit_offset
copy_with_bit_offset_lem src o c k bytes fits =
    let low : ℕ = o % 8 in
    let fc : ℕ = c / 8 in
    let wb : ℕ = o / 8 in
    let rem : ℕ = c - fc * 8 in
    let q : ℕ = k / 8 in
    let r : ℕ = k % 8 in
    let full = full_bytes src low fc wb in
    let spec = full_bytes-IsFull src low fc wb bytes (omega arith) (omega arith) in
    let rem_low : rem < 8 = omega arith in
    let r_low : r < 8 = omega arith in
    elim (Bool-cases (rem == 0)) [
      | inl whole ↦ elim (Bool-cases (ltb k c)) [
        | inl t ↦
            let lt = ltb→lt k c t in
            let none = ==→eq rem 0 whole in
            let e : 8 * (wb + q) + low + r ≡ o + k = omega arith in
            rw (whole, t) (spec.inside q r (omega arith) r_low ∙ ap (λ (z : ℕ). bit_at src z) e)
        | inr t ↦ let ge = ltb→ge k c t in rw (whole, t, spec.outside q (omega arith)) (bit-zero r)
      ]
      | inr part ↦
          let v : ℕ = last_byte src low rem (wb + fc) (byte_at full fc) in
          let room : fc < 8 = let some = ==_false_pos rem part in omega arith in
          elim (Bool-cases (fc == q)) [
            | inr other ↦
                let ne : fc ≢ q = λ e. cc (other, ap (λ (z : ℕ). fc == z) (sym e), ==_refl fc) in
                let off = ne_of fc q ne in
                let kept : byte_at (set full fc v) q ≡ byte_at full q =
                  get_or-set_ne full fc q v 0 ne in
                elim (Bool-cases (ltb k c)) [
                  | inl t ↦
                      let lt = ltb→lt k c t in
                      let e : 8 * (wb + q) + low + r ≡ o + k = omega (arith, off) in
                      rw (part, t, kept)
                        (spec.inside q r (omega (arith, off)) r_low
                          ∙ ap (λ (z : ℕ). bit_at src z) e)
                  | inr t ↦
                      let ge = ltb→ge k c t in
                      rw (part, t, kept, spec.outside q (omega (arith, off))) (bit-zero r)
                ]
            | inl same ↦
                let e = ==→eq fc q same in
                let empty : byte_at full fc ≡ 0 = spec.outside fc (omega arith) in
                let written : byte_at (set full fc v) fc ≡ last_byte src low rem (wb + fc) 0 =
                  get_or-set_self full fc v 0 (omega (arith, spec.size))
                  ∙ ap (λ (z : ℕ). last_byte src low rem (wb + fc) z) empty in
                let at : byte_at (set full fc v) q ≡ last_byte src low rem (wb + fc) 0 =
                  ap (λ (z : ℕ). byte_at (set full fc v) z) (sym e) ∙ written in
                let bits =
                  bit-last_byte src low rem (wb + fc) r bytes (omega arith) rem_low r_low in
                elim (Bool-cases (ltb k c)) [
                  | inl t ↦
                      let lt = ltb→lt k c t in
                      let t' : ltb r rem ≡ true = lt→ltb r rem (omega arith) in
                      let place : 8 * (wb + fc) + low + r ≡ o + k = omega arith in
                      rw (part, t, at) (bits ∙ rw t' (ap (λ (z : ℕ). bit_at src z) place))
                  | inr t ↦
                      let ge = ltb→ge k c t in
                      let t' : ltb r rem ≡ false = le→ltb_false r rem (omega arith) in
                      rw (part, t, at) (bits ∙ rw t' refl)
                ]
          ]
    ]
  where
    ==_false_pos : (n : ℕ) → (n == 0) ≡ false → 0 < n
    ==_false_pos n h = ground arith

    ne_of : (a b : ℕ) → a ≢ b → (a < b) ⊎ (b < a)
    ne_of a b h = elim (Bool-cases (ltb a b)) [
      | inl t ↦ inl (ltb→lt a b t)
      | inr t ↦ elim (Bool-cases (ltb b a)) [
        | inl s ↦ inr (ltb→lt b a s)
        | inr s ↦ let p = ltb→ge a b t in let q = ltb→ge b a s in absurd (h (omega arith))
      ]
    ]
