-- ===== src/Buddy/Tests.antt =====
-- kernel/buddy.c with one group of four pages, and its theorems there.
use native.Mathlib.Nat.{div-le_self}
use fizzos.Base.{
  ℕ, zero, suc, ◌+◌, ◌*◌, ◌/◌, ◌^◌, ◌<◌, ◌≡◌, refl, true, false, [], ◌∷◌, get_or, contains, Returns,
  arith, ◌==◌, if◌then◌else◌, ap, ==_iff, Bool-cases, inl, inr,
}
use fizzos.Bitmap.{Bitmap}
use fizzos.Bitmap.Bits.{IsValid}
use fizzos.Buddy.{Areas, Buddy, alloc_pages, area_of}
use fizzos.Buddy.Total.{listed, cover, AreApart, IsPool}
use fizzos.Buddy.Alloc.{GivenOut, alloc_pages-GivenOut}

abbrev clear : Bitmap
clear = record { bits = 0 ∷ []; byte_size = 1; behind = λ i. 0; depth = 0 }

abbrev four : Areas
four o =
    if o == 2
    then record { nr_free = 1; bmap = clear; pg_list = 0 ∷ [] }
    else record { nr_free = 0; bmap = clear; pg_list = [] }

abbrev small : Buddy
small = record {
  kernel_area = four;
  user_area = four;
  user_start_idx = 4;
  private = λ pg. 0;
  count = λ pg. 1;
}

clear-IsValid : IsValid clear
clear-IsValid = record { sized = omega arith; bytes = bytes; beyond = λ i. omega arith }
  where
    bytes : (i : ℕ) → get_or (0 ∷ []) i 0 < 256
    bytes zero = omega arith
    bytes (suc i) = omega arith

-- The bitmap has a bit for each pair of four pages.
has_bits : (o i : ℕ) → i < 4 → i / 2 ^ (o + 1) < 8 * 1
has_bits o i h = omega (arith, div-le_self i (2 ^ (o + 1)))

only_zero : (i : ℕ) → contains i (0 ∷ []) ≡ true → i ≡ 0
unfolding contains
only_zero i h = ground arith

four-IsPool : IsPool 4 four
unfolding contains
four-IsPool o h = elim (Bool-cases (o == 2)) [
  | inl e ↦ rw e (record {
    bitmap = clear-IsValid;
    bits = has_bits o;
    counted = refl;
    inside = λ i c. omega (arith, ap (λ (x : ℕ). 2 ^ x) ((==_iff o 2).0 e), only_zero i c);
    aligned = λ i c. (0, omega (arith, only_zero i c));
  })
  | inr e ↦ rw e (record {
    bitmap = clear-IsValid;
    bits = has_bits o;
    counted = refl;
    inside = λ i c. absurd (ground arith);
    aligned = λ i c. absurd (ground arith);
  })
]

four-AreApart : AreApart four
unfolding cover listed
four-AreApart page = ground arith

alloc_pages-GivenOut_example :
    Returns
      (λ (pg, b'). GivenOut 4 1 (area_of false small) (pg, area_of false b'))
      (alloc_pages false 1 small)
alloc_pages-GivenOut_example =
    alloc_pages-GivenOut 4 1 2 false small (omega arith) (omega arith) (omega arith) four-IsPool
      four-AreApart
