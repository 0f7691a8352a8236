-- ===== src/Bitmap/Scan.antt =====
-- The bits of the words that bitmap_scan of lib/kernel/bitmap.c reads are the bits of the bitmap, and
-- its search of words is the search bit by bit.
use fizzos.Base.{
  ℕ, zero, suc, ◌+◌, ◌-◌, ◌*◌, ◌/◌, ◌%◌, ◌<◌, ◌≤◌, ◌≡◌, refl, sym, ap, subst, ◌∙◌, Bool, true,
  Option, none, some, arith, ◌==◌, if◌then◌else◌, length, get_or, Bool-cases, inl, inr, ◌⊎◌,
}
use fizzos.Bitmap.{Bitmap, test_bit, byte_at, word, clear_bit, at_word, or_else}
use fizzos.Bitmap.Word.{joined_first, joined_second, joined_third, joined_fourth}
use fizzos.Bitmap.Bits.{is_set, IsValid}

-- The first number from `i` on, of `n` numbers, at which `f` is false.
unfoldable pub first_clear : (ℕ → Bool) → ℕ → ℕ → Option ℕ
first_clear f zero i = none
first_clear f (suc n) i = if f i then first_clear f n (i + 1) else some i

pub first_clear-add :
    (f : ℕ → Bool) (n k i : ℕ)
    → first_clear f (n + k) i ≡ or_else (first_clear f n i) (first_clear f k (i + n))
unfolding first_clear or_else
first_clear-add f zero k i =
    let e : 0 + k ≡ k = omega arith in let e' : i + 0 ≡ i = omega arith in rw (e, e') refl
first_clear-add f (suc n) k i =
    let e : suc n + k ≡ suc (n + k) = omega arith in
    let e' : i + 1 + n ≡ i + suc n = omega arith in
    rw e (ground (arith, first_clear-add f n k (i + 1), ap (first_clear f k) e'))

pub first_clear_all :
    (f : ℕ → Bool) (n i : ℕ) → ((j : ℕ) → i ≤ j → j < i + n → f j ≡ true) → first_clear f n i ≡ none
unfolding first_clear
first_clear_all f zero i h = refl
first_clear_all f (suc n) i h =
    ground (arith, h i, first_clear_all f n (i + 1) (λ j a b. h j (omega arith) (omega arith)))

byte_inside : (bmap : Bitmap) (i : ℕ) → i < length bmap.bits → byte_at bmap i ≡ get_or bmap.bits i 0
unfolding byte_at
byte_inside bmap i h = ground arith

-- A bit of the bitmap by the number of its byte.
is_set_at :
    (bmap : Bitmap) (b i : ℕ) → i < 8 → is_set bmap (b * 8 + i) ≡ test_bit (get_or bmap.bits b 0) i
is_set_at bmap b i h =
    let e : (b * 8 + i) / 8 ≡ b = omega arith in
    let e' : (b * 8 + i) % 8 ≡ i = omega arith in rw (e, e') refl

byte_at_lt : (bmap : Bitmap) (i : ℕ) → IsValid bmap → byte_at bmap i < 256
unfolding byte_at
byte_at_lt bmap i v = ground (arith, v.bytes i, v.beyond (i - length bmap.bits))

-- The bits of a word whose byte is in the buffer are bits of the bitmap.
module _ (bmap : Bitmap) (v : IsValid bmap) (idx r : ℕ) (h : r < 8) where
  abbrev at : ℕ → ℕ
  at k = byte_at bmap (4 * idx + k)

  in_bitmap : (b : ℕ) → b < length bmap.bits → test_bit (byte_at bmap b) r ≡ is_set bmap (b * 8 + r)
  in_bitmap b inside =
      ap (λ x. test_bit x r) (byte_inside bmap b inside) ∙ sym (is_set_at bmap b r h)

  first_bits : 4 * idx < length bmap.bits → test_bit (word bmap idx) r ≡ is_set bmap (idx * 32 + r)
  unfolding word
  first_bits inside =
      ap (λ x. x == 1)
        (joined_first (byte_at bmap (4 * idx)) (at 1) (at 2) (at 3) (byte_at_lt bmap (4 * idx) v)
          (byte_at_lt bmap (4 * idx + 1) v) (byte_at_lt bmap (4 * idx + 2) v) r h)
      ∙ in_bitmap (4 * idx) inside
      ∙ ap (is_set bmap) (omega arith)

  second_bits :
      4 * idx + 1 < length bmap.bits
      → test_bit (word bmap idx) (8 + r) ≡ is_set bmap (idx * 32 + (8 + r))
  unfolding word
  second_bits inside =
      ap (λ x. x == 1)
        (joined_second (byte_at bmap (4 * idx)) (at 1) (at 2) (at 3) (byte_at_lt bmap (4 * idx) v)
          (byte_at_lt bmap (4 * idx + 1) v) (byte_at_lt bmap (4 * idx + 2) v) r h)
      ∙ in_bitmap (4 * idx + 1) inside
      ∙ ap (is_set bmap) (omega arith)

  third_bits :
      4 * idx + 2 < length bmap.bits
      → test_bit (word bmap idx) (8 + (8 + r)) ≡ is_set bmap (idx * 32 + (8 + (8 + r)))
  unfolding word
  third_bits inside =
      ap (λ x. x == 1)
        (joined_third (byte_at bmap (4 * idx)) (at 1) (at 2) (at 3) (byte_at_lt bmap (4 * idx) v)
          (byte_at_lt bmap (4 * idx + 1) v) (byte_at_lt bmap (4 * idx + 2) v) r h)
      ∙ in_bitmap (4 * idx + 2) inside
      ∙ ap (is_set bmap) (omega arith)

  fourth_bits :
      4 * idx + 3 < length bmap.bits
      → test_bit (word bmap idx) (8 + (8 + (8 + r))) ≡ is_set bmap (idx * 32 + (8 + (8 + (8 + r))))
  unfolding word
  fourth_bits inside =
      ap (λ x. x == 1)
        (joined_fourth (byte_at bmap (4 * idx)) (at 1) (at 2) (at 3) (byte_at_lt bmap (4 * idx) v)
          (byte_at_lt bmap (4 * idx + 1) v) (byte_at_lt bmap (4 * idx + 2) v) r h)
      ∙ in_bitmap (4 * idx + 3) inside
      ∙ ap (is_set bmap) (omega arith)

four_bytes :
    (i : ℕ)
    → i < 32
    → (r : ℕ) × (r < 8) × ((i ≡ r) ⊎ ((i ≡ 8 + r) ⊎ ((i ≡ 8 + (8 + r)) ⊎ (i ≡ 8 + (8 + (8 + r))))))
four_bytes i h = (i % 8, omega arith, grind arith)

pub word_bit :
    (bmap : Bitmap)
    → IsValid bmap
    → (idx i : ℕ) → i < 32
    → 4 * idx + i / 8 < length bmap.bits
    → test_bit (word bmap idx) i ≡ is_set bmap (idx * 32 + i)
word_bit bmap v idx i h inside =
    let (r, small, cases) = four_bytes i h in
    elim cases [
      | inl e ↦
          subst (λ i. test_bit (word bmap idx) i ≡ is_set bmap (idx * 32 + i)) (sym e)
            (first_bits bmap v idx r small (omega arith))
      | inr (inl e) ↦
          subst (λ i. test_bit (word bmap idx) i ≡ is_set bmap (idx * 32 + i)) (sym e)
            (second_bits bmap v idx r small (omega arith))
      | inr (inr (inl e)) ↦
          subst (λ i. test_bit (word bmap idx) i ≡ is_set bmap (idx * 32 + i)) (sym e)
            (third_bits bmap v idx r small (omega arith))
      | inr (inr (inr e)) ↦
          subst (λ i. test_bit (word bmap idx) i ≡ is_set bmap (idx * 32 + i)) (sym e)
            (fourth_bits bmap v idx r small (omega arith))
    ]

-- `clear_bit` over the bits of a word is the search in the bitmap.
pub clear_bit-first :
    (bmap : Bitmap)
    → IsValid bmap
    → (idx n i : ℕ) → i + n ≤ 32
    → 32 * idx + (i + n) ≤ 8 * length bmap.bits
    → at_word idx (clear_bit n i (word bmap idx)) ≡ first_clear (is_set bmap) n (idx * 32 + i)
unfolding at_word clear_bit first_clear
clear_bit-first bmap v idx zero i h inside = refl
clear_bit-first bmap v idx (suc n) i h inside =
    rw (word_bit bmap v idx i (omega arith) (omega arith))
      (elim (Bool-cases (is_set bmap (idx * 32 + i))) [
        | inl one ↦ rw (one) (
            clear_bit-first bmap v idx n (i + 1) (omega arith) (omega arith)
            ∙ ap (first_clear (is_set bmap) n) (omega arith))
        | inr zero_bit ↦ rw zero_bit refl
      ])
