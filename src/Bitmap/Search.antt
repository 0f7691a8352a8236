-- ===== src/Bitmap/Search.antt =====
-- bitmap_scan and bitmap_scan_set of lib/kernel/bitmap.c find the first clear bit.
use fizzos.Base.{
  ℕ, zero, suc, ◌+◌, ◌-◌, ◌*◌, ◌/◌, ◌%◌, ◌<◌, ◌≤◌, ◌≡◌, refl, sym, ap, subst, ◌∙◌, Bool, true,
  false, Option, none, some, arith, ◌==◌, length, Bool-cases, inl, inr, eq-cases, ==_iff,
}
use fizzos.Bitmap.{Bitmap, test_bit, word, clear_bit, at_word, or_else, clear_in_words, scan_bits}
use fizzos.Bitmap.Word.{ones_bit}
use fizzos.Bitmap.Scan.{first_clear, first_clear-add, first_clear_all, word_bit, clear_bit-first}
use fizzos.Bitmap.Bits.{is_set, IsValid}

first_word :
    (bmap : Bitmap)
    → IsValid bmap
    → (idx : ℕ) → 4 * idx + 4 ≤ length bmap.bits
    → at_word idx (clear_bit 32 0 (word bmap idx)) ≡ first_clear (is_set bmap) 32 (idx * 32)
first_word bmap v idx inside =
    clear_bit-first bmap v idx 32 0 (omega arith) (omega arith)
    ∙ ap (first_clear (is_set bmap) 32) (omega arith)

full_word :
    (bmap : Bitmap)
    → IsValid bmap
    → (idx : ℕ) → 4 * idx + 4 ≤ length bmap.bits
    → word bmap idx ≡ 0xffff_ffff
    → first_clear (is_set bmap) 32 (idx * 32) ≡ none
full_word bmap v idx inside e = first_clear_all (is_set bmap) 32 (idx * 32) λ j a b.
    subst (λ i. is_set bmap i ≡ true) (omega arith)
      (sym (word_bit bmap v idx (j - idx * 32) (omega arith) (omega arith))
        ∙ ap (λ w. test_bit w (j - idx * 32)) e
        ∙ ones_bit (j - idx * 32) (omega arith))

clear_in_words-first :
    (bmap : Bitmap)
    → IsValid bmap
    → (n idx : ℕ) → 4 * (idx + n) ≤ length bmap.bits
    → clear_in_words n idx bmap ≡ first_clear (is_set bmap) (32 * n) (idx * 32)
unfolding clear_in_words first_clear or_else
clear_in_words-first bmap v zero idx inside = refl
clear_in_words-first bmap v (suc n) idx inside =
    let e : 32 * suc n ≡ 32 + 32 * n = omega arith in
    let e' : (idx + 1) * 32 ≡ idx * 32 + 32 = omega arith in
    rw
      (
        e,
        first_clear-add (is_set bmap) 32 (32 * n) (idx * 32),
        ← e',
        ← clear_in_words-first bmap v n (idx + 1) (omega arith),
      )
      (elim (Bool-cases (word bmap idx == 0xffff_ffff)) [
        | inl full ↦ rw (full, full_word bmap v idx (omega arith) ((==_iff _ _).0 full)) refl
        | inr some_clear ↦ rw (some_clear, first_word bmap v idx (omega arith)) refl
      ])

-- The bits of the bytes that are left behind the whole words.
last_word :
    (bmap : Bitmap)
    → IsValid bmap
    → at_word
        (bmap.byte_size / 4)
        (clear_bit (bmap.byte_size % 4 * 8) 0 (word bmap (bmap.byte_size / 4)))
      ≡ first_clear (is_set bmap) (bmap.byte_size % 4 * 8) (0 + 32 * (bmap.byte_size / 4))
last_word bmap v =
    clear_bit-first bmap v (bmap.byte_size / 4) (bmap.byte_size % 4 * 8) 0 (omega arith)
      (omega (arith, v.sized))
    ∙ ap (first_clear (is_set bmap) (bmap.byte_size % 4 * 8)) (omega arith)

-- The whole search: the first clear bit of the bitmap.
pub scan_bits-first :
    (bmap : Bitmap)
    → IsValid bmap
    → scan_bits bmap ≡ first_clear (is_set bmap) (8 * bmap.byte_size) 0
unfolding scan_bits
scan_bits-first bmap v =
    let e : 8 * bmap.byte_size ≡ 32 * (bmap.byte_size / 4) + bmap.byte_size % 4 * 8 = omega arith in
    rw
      (
        last_word bmap v,
        clear_in_words-first bmap v (bmap.byte_size / 4) 0 (omega (arith, v.sized)),
      )
      (sym (
        ap (λ n. first_clear (is_set bmap) n 0) e
        ∙ first_clear-add (is_set bmap) (32 * (bmap.byte_size / 4)) (bmap.byte_size % 4 * 8) 0))

-- What a search from `s` over `n` bits says.
abbrev pub Searched : (ℕ → Bool) → ℕ → ℕ → Option ℕ → Type 0
Searched f n s none = (j : ℕ) → s ≤ j → j < s + n → f j ≡ true
Searched f n s (some i) =
    (s ≤ i) × (i < s + n) × (f i ≡ false) × ((j : ℕ) → s ≤ j → j < i → f j ≡ true)

Searched-step :
    (f : ℕ → Bool) (n s : ℕ) (o : Option ℕ)
    → f s ≡ true
    → Searched f n (s + 1) o
    → Searched f (suc n) s o
Searched-step f n s none one h =
    λ j a b. elim (eq-cases j s) [ inl e ↦ ap f e ∙ one | inr ne ↦ h j (omega arith) (omega arith) ]
Searched-step f n s (some i) one h = (
  omega arith,
  omega arith,
  h.2,
  λ j a b. elim (eq-cases j s) [ inl e ↦ ap f e ∙ one | inr ne ↦ h.3 j (omega arith) b ],
)

pub first_clear-Searched : (f : ℕ → Bool) (n s : ℕ) → Searched f n s (first_clear f n s)
unfolding first_clear
first_clear-Searched f zero s = λ j a b. absurd (omega arith)
first_clear-Searched f (suc n) s = elim (Bool-cases (f s)) [
  | inl one ↦ rw one (Searched-step f n s _ one (first_clear-Searched f n (s + 1)))
  | inr zero_bit ↦ rw zero_bit (omega arith, omega arith, zero_bit, λ j a b. absurd (omega arith))
]
