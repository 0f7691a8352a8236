-- ===== src/Bitmap/Tests.antt =====
-- lib/kernel/bitmap.c on small bitmaps, and its theorems at them.
use fizzos.Base.{ℕ, suc, zero, ◌≡◌, refl, true, [], ◌∷◌, ok, panic, Returns, arith, ◌<◌, get_or}
use fizzos.Bitmap.{Bitmap, bitmap_scan, bitmap_scan_set, bitmap_scan_set_series, scan_bits}
use fizzos.Bitmap.Alloc.{IsFirstClear, bitmap_scan_set-Updated}
use fizzos.Bitmap.Bits.{IsValid, Updated}

-- Two bytes: bits 0 to 3, 5 and 8 are set.
abbrev two_bytes : Bitmap
two_bytes = record { bits = 0x2f ∷ 0x01 ∷ []; byte_size = 2; behind = λ i. 0; depth = 0 }

bytes_lt : (i : ℕ) → get_or two_bytes.bits i 0 < 256
bytes_lt zero = omega arith
bytes_lt (suc zero) = omega arith
bytes_lt (suc (suc i)) = omega arith

two_bytes-IsValid : IsValid two_bytes
two_bytes-IsValid = record { sized = omega arith; bytes = bytes_lt; beyond = λ i. omega arith }

bitmap_scan_set-Updated_example :
    Returns
      (λ (i, bmap'). IsFirstClear two_bytes i × Updated two_bytes i true bmap')
      (bitmap_scan_set two_bytes)
bitmap_scan_set-Updated_example =
    bitmap_scan_set-Updated two_bytes 4 two_bytes-IsValid (omega arith) refl

scan_finds_four : bitmap_scan two_bytes ≡ ok (4, two_bytes)
unfolding bitmap_scan scan_bits
scan_finds_four = refl

-- The first word ends in two clear bits, the second is full, the third is clear: a series of four is
-- found at bit 62, of which two bits are taken.
abbrev three_words : Bitmap
three_words = record {
  bits = 255 ∷ 255 ∷ 255 ∷ 63 ∷ 255 ∷ 255 ∷ 255 ∷ 255 ∷ 0 ∷ 0 ∷ 0 ∷ 0 ∷ [];
  byte_size = 12;
  behind = λ i. 0;
  depth = 0;
}

series_over_full_word : bitmap_scan_set_series 4 three_words ≡ panic
unfolding bitmap_scan_set_series
series_over_full_word = refl
