-- ===== src/Bitmap/Alloc.antt =====
-- bitmap_scan and bitmap_scan_set of lib/kernel/bitmap.c: the allocators of page groups, process numbers,
-- inodes and disk blocks rest on them.
use fizzos.Base.{
  ℕ, ◌+◌, ◌-◌, ◌*◌, ◌<◌, ◌≡◌, refl, sym, ap, ◌∙◌, true, false, Option, none, some, Outcome, ok,
  panic, fault, blocked, out_of_fuel, Returns, Returns-ok, arith,
}
use mathlib.Core.Bool.{false≢true}
use fizzos.Bitmap.{
  Bitmap, found_or_panic, scan_bits, bitmap_scan, bitmap_scan_set, bitmap_scan_series, bitmap_set,
  mutex_acquire, mutex_release,
}
use fizzos.Bitmap.Bits.{is_set, IsValid, Updated, bitmap_set-Updated}
use fizzos.Bitmap.Scan.{first_clear}
use fizzos.Bitmap.Search.{scan_bits-first, Searched, first_clear-Searched}

-- Bit `i` is clear, and every bit before it is set.
pub record IsFirstClear (bmap : Bitmap) (i : ℕ) : Type 0 where
  pub inside : i < 8 * bmap.byte_size
  pub clear : is_set bmap i ≡ false
  pub before : (j : ℕ) → j < i → is_set bmap j ≡ true

-- bitmap_scan either returns the first clear bit, or stops in PANIC with every bit set.
abbrev pub ScanResult : Bitmap → Outcome (ℕ × Bitmap) → Type 0
ScanResult bmap (ok (i, bmap')) = IsFirstClear bmap i × (bmap' ≡ bmap)
ScanResult bmap panic = (j : ℕ) → j < 8 * bmap.byte_size → is_set bmap j ≡ true
ScanResult bmap _ = ⊥

scan_result :
    (bmap : Bitmap) (o : Option ℕ)
    → Searched (is_set bmap) (8 * bmap.byte_size) 0 o
    → ScanResult bmap (found_or_panic o (record bmap { depth = bmap.depth + 1 - 1 }))
unfolding found_or_panic
scan_result bmap none h = λ j lt. h j (omega arith) (omega arith)
scan_result bmap (some i) h = (
  record { inside = omega (arith, h.1); clear = h.2; before = λ j lt. h.3 j (omega arith) lt },
  ap (λ d. record bmap { depth = d }) (omega arith),
)

scan_run :
    (bmap : Bitmap)
    → bitmap_scan bmap
      ≡ found_or_panic (scan_bits (mutex_acquire bmap)) (record bmap { depth = bmap.depth + 1 - 1 })
unfolding bitmap_scan
scan_run bmap = ground arith

-- bitmap_scan of a valid bitmap returns the first clear bit and the bitmap as it was, with its lock,
-- or every bit is set and it stops in PANIC.
pub bitmap_scan-ScanResult : (bmap : Bitmap) → IsValid bmap → ScanResult bmap (bitmap_scan bmap)
bitmap_scan-ScanResult bmap v =
    rw (scan_run bmap, scan_bits-first (mutex_acquire bmap) acquired)
      (scan_result bmap (first_clear (is_set bmap) (8 * bmap.byte_size) 0)
        (first_clear-Searched (is_set bmap) (8 * bmap.byte_size) 0))
  where
    acquired : IsValid (mutex_acquire bmap)
    acquired = record { sized = v.sized; bytes = v.bytes; beyond = v.beyond }

-- With a clear bit, bitmap_scan returns.
scan_found :
    (bmap : Bitmap) (k : ℕ) (r : Outcome (ℕ × Bitmap))
    → k < 8 * bmap.byte_size
    → is_set bmap k ≡ false
    → ScanResult bmap r
    → (i : ℕ) × (r ≡ ok (i, bmap)) × IsFirstClear bmap i
scan_found bmap k (ok (i, bmap')) lt c h = (i, ap (λ b. ok (i, b)) h.1, h.0)
scan_found bmap k panic lt c h = absurd (false≢true (sym c ∙ h k lt))
scan_found bmap k fault lt c h = absurd h
scan_found bmap k blocked lt c h = absurd h
scan_found bmap k out_of_fuel lt c h = absurd h

release_run :
    (bmap : Bitmap)
    → 0 < bmap.depth
    → mutex_release bmap ≡ ok (record bmap { depth = bmap.depth - 1 })
release_run bmap h = ground arith

-- bitmap_scan_set of a valid bitmap with a clear bit returns the first clear bit, sets it and no
-- other, and leaves the bitmap valid and the lock as it was.
pub bitmap_scan_set-Updated :
    (bmap : Bitmap) (k : ℕ)
    → IsValid bmap
    → k < 8 * bmap.byte_size
    → is_set bmap k ≡ false
    → Returns (λ (i, bmap'). IsFirstClear bmap i × Updated bmap i true bmap') (bitmap_scan_set bmap)
unfolding bitmap_scan_set
bitmap_scan_set-Updated bmap k v lt c =
    let (i, run, first) =
      scan_found held k (bitmap_scan held) lt c (bitmap_scan-ScanResult held acquired) in
    let (after, set_run, updated) =
      Returns-ok (Updated held i true) (bitmap_set i held)
        (bitmap_set-Updated held i acquired first.inside first.clear) in
    rw (run, set_run, release_run after (omega (arith, updated.depth)))
      (
        record { inside = first.inside; clear = first.clear; before = first.before },
        record {
          valid = record {
            sized = updated.valid.sized;
            bytes = updated.valid.bytes;
            beyond = updated.valid.beyond;
          };
          bit = updated.bit;
          byte_size = updated.byte_size;
          depth = omega (arith, updated.depth);
        },
      )
  where
    held : Bitmap
    held = mutex_acquire bmap

    acquired : IsValid held
    acquired = record { sized = v.sized; bytes = v.bytes; beyond = v.beyond }

-- bitmap_scan_series for one bit, in a valid bitmap with a clear bit, returns the first clear bit,
-- and the lock is held once more than before.
pub bitmap_scan_series_one :
    (bmap : Bitmap) (k : ℕ)
    → IsValid bmap
    → k < 8 * bmap.byte_size
    → is_set bmap k ≡ false
    → Returns
        (λ (i, bmap'). IsFirstClear bmap i × (bmap'.depth ≡ bmap.depth + 1))
        (bitmap_scan_series 1 bmap)
unfolding bitmap_scan_series
bitmap_scan_series_one bmap k v lt c =
    let (i, run, first) =
      scan_found (mutex_acquire bmap) k (bitmap_scan (mutex_acquire bmap)) lt c (
        bitmap_scan-ScanResult (mutex_acquire bmap)
          (record { sized = v.sized; bytes = v.bytes; beyond = v.beyond })) in
    rw run (record { inside = first.inside; clear = first.clear; before = first.before }, refl)
