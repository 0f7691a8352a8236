-- ===== src/Inodes/Blocks.antt =====
-- block_bimap_alloc: the block that it gives, and the bitmap on disk.
use fizzos.Base.{
  ℕ, ◌+◌, ◌-◌, ◌*◌, ◌/◌, ◌%◌, ◌^◌, ◌<◌, ◌≤◌, ◌≡◌, ◌≢◌, ◌⊎◌, inl, inr, refl, sym, ap, ◌∙◌, Bool,
  true, false, arith, ◌==◌, if◌then◌else◌, le→ltb_false, lt→ltb, le→leb, eq-cases, ok, panic,
  Returns, Returns-ok, get_or, ne→==_false, subst,
}
use fizzos.Bitmap.{Bitmap, test_bit, bitmap_scan_set}
use fizzos.Bitmap.Bits.{is_set, IsValid, Updated}
use fizzos.Bitmap.Alloc.{IsFirstClear, bitmap_scan_set-Updated}
use fizzos.Disk.{sector_size, bits_per_sector, add32}
use fizzos.Ide.{max_lba}
use fizzos.Inodes.{DiskBytes, Part, with_written, sync_bits, bitmap_sync, block_bimap_alloc}
use fizzos.Inodes.Sync.{written_here, written_off}

-- Each bit of a bitmap in memory is the one on disk, in `sects` sectors from `lba` on.
abbrev pub IsMirrored : DiskBytes → ℕ → ℕ → Bitmap → Type 0
IsMirrored disk lba sects bmap =
    (idx : ℕ)
    → idx < sects * bits_per_sector
    → test_bit (disk (lba + idx / bits_per_sector) (idx % bits_per_sector / 8)) (idx % 8)
      ≡ is_set bmap idx

first_unique : (bmap : Bitmap) (i j : ℕ) → IsFirstClear bmap i → IsFirstClear bmap j → i ≡ j
first_unique bmap i j a b = elim (eq-cases i j) [
  | inl same ↦ same
  | inr ne ↦ absurd (order (least ne))
]
  where
    least : i ≢ j → (i < j) ⊎ (j < i)
    least ne = ground arith

    not_both : (c : Bool) → c ≡ true → c ≡ false → ⊥
    not_both c t f = ground arith

    order : (i < j) ⊎ (j < i) → ⊥
    order (inl lt) = not_both (is_set bmap i) (b.before i lt) a.clear
    order (inr lt) = not_both (is_set bmap j) (a.before j lt) b.clear

module _ (disk : DiskBytes) (lba sects idx : ℕ) (bmap bmap' : Bitmap)
    (updated : Updated bmap idx true bmap') (mirrored : IsMirrored disk lba sects bmap)
    (inside : idx < sects * bits_per_sector) (below : lba + sects ≤ max_lba + 1) where
  abbrev after : DiskBytes
  after =
      with_written disk (add32 lba (idx / bits_per_sector)) 1
        (λ k. get_or bmap'.bits ((idx - idx % bits_per_sector) / 8 + k) 0)

  sector : add32 lba (idx / bits_per_sector) ≡ lba + idx / bits_per_sector
  sector = omega arith

  after-IsMirrored : IsMirrored after lba sects bmap'
  after-IsMirrored j lt = rw sector (elim (eq-cases (j / bits_per_sector) (idx / bits_per_sector)) [
    | inl same ↦
        ap (λ (b : ℕ). test_bit b (j % 8))
          (ap
              (λ (t : ℕ).
                with_written disk (lba + idx / bits_per_sector) 1
                  (λ k. get_or bmap'.bits ((idx - idx % bits_per_sector) / 8 + k) 0) (lba + t)
                  (j % bits_per_sector / 8))
              same
            ∙ written_here disk (lba + idx / bits_per_sector)
                (λ k. get_or bmap'.bits ((idx - idx % bits_per_sector) / 8 + k) 0)
                (j % bits_per_sector / 8)
            ∙ ap (λ (b : ℕ). get_or bmap'.bits b 0) (omega arith))
    | inr apart ↦
        ap (λ (b : ℕ). test_bit b (j % 8))
          (written_off disk (lba + idx / bits_per_sector) (lba + j / bits_per_sector)
            (λ k. get_or bmap'.bits ((idx - idx % bits_per_sector) / 8 + k) 0)
            (j % bits_per_sector / 8) (λ e. apart (omega arith)))
        ∙ mirrored j lt
        ∙ sym (updated.bit j ∙ other j (λ e. apart (ap (λ (n : ℕ). n / bits_per_sector) e)))
  ])
    where
      other : (j : ℕ) → j ≢ idx → (if j == idx then true else is_set bmap j) ≡ is_set bmap j
      other j ne = rw (ne→==_false j idx ne) refl

-- A block was free and is taken now, in memory and on disk; no sector outside of the bitmap changes.
pub record BlockTaken (part : Part) (idx : ℕ) (result : ℕ × Part) : Type 0 where
  pub lba : result.0 ≡ (part.sb.data_start_lba + idx) % 2 ^ 32
  pub sb : result.1.sb ≡ part.sb
  pub bitmap : Updated part.block_bitmap idx true result.1.block_bitmap
  pub on_disk :
      IsMirrored result.1.disk part.sb.block_bitmap_lba part.sb.block_bitmap_sects
        result.1.block_bitmap
  pub elsewhere :
      (s o : ℕ)
      → (s < part.sb.block_bitmap_lba) ⊎ (part.sb.block_bitmap_lba + part.sb.block_bitmap_sects ≤ s)
      → result.1.disk s o ≡ part.disk s o

pub block_bimap_alloc-BlockTaken :
    (part : Part) (idx : ℕ)
    → IsValid part.block_bitmap
    → IsFirstClear part.block_bitmap idx
    → IsMirrored part.disk part.sb.block_bitmap_lba part.sb.block_bitmap_sects part.block_bitmap
    → part.sb.block_bitmap_lba + part.sb.block_bitmap_sects ≤ max_lba + 1
    → (idx < 512 * part.sb.block_bitmap_sects
        → Returns (BlockTaken part idx) (block_bimap_alloc part))
      × (512 * part.sb.block_bitmap_sects ≤ idx → block_bimap_alloc part ≡ panic)
unfolding block_bimap_alloc bitmap_sync sync_bits
block_bimap_alloc-BlockTaken part idx valid first mirrored below = (inside, behind)
  where
    scanned :
        (r : ℕ × Bitmap) × (bitmap_scan_set part.block_bitmap ≡ ok r)
        × (IsFirstClear part.block_bitmap r.0 × Updated part.block_bitmap r.0 true r.1)
    scanned =
        Returns-ok _ (bitmap_scan_set part.block_bitmap)
          (bitmap_scan_set-Updated part.block_bitmap idx valid first.inside first.clear)

    found :
        (bmap' : Bitmap) × (bitmap_scan_set part.block_bitmap ≡ ok (idx, bmap'))
        × Updated part.block_bitmap idx true bmap'
    found =
        let ((i, bmap'), run, (first', updated)) = scanned in
        subst
          (λ (i : ℕ).
            (bitmap_scan_set part.block_bitmap ≡ ok (i, bmap'))
            → Updated part.block_bitmap i true bmap'
            → (b : Bitmap) × (bitmap_scan_set part.block_bitmap ≡ ok (idx, b))
              × Updated part.block_bitmap idx true b)
          (first_unique part.block_bitmap idx i first first') (λ run up. (bmap', run, up)) run
          updated

    inside :
        idx < 512 * part.sb.block_bitmap_sects
        → Returns (BlockTaken part idx) (block_bimap_alloc part)
    inside lt =
        let (bmap', run, updated) = found in
        rw
          (
            run,
            lt→ltb (idx / sector_size) part.sb.block_bitmap_sects (omega arith),
            le→leb (add32 part.sb.block_bitmap_lba (idx / bits_per_sector)) max_lba (omega arith),
          )
          record {
            lba = refl;
            sb = refl;
            bitmap = updated;
            on_disk =
                after-IsMirrored part.disk part.sb.block_bitmap_lba part.sb.block_bitmap_sects idx
                  part.block_bitmap bmap' updated mirrored (omega arith) below;
            elsewhere = λ s o out.
                written_off part.disk (add32 part.sb.block_bitmap_lba (idx / bits_per_sector)) s
                  (λ k. get_or bmap'.bits ((idx - idx % bits_per_sector) / 8 + k) 0) o
                  (ground arith);
          }

    behind : 512 * part.sb.block_bitmap_sects ≤ idx → block_bimap_alloc part ≡ panic
    behind ge =
        let (bmap', run, updated) = found in
        rw (run, le→ltb_false (idx / sector_size) part.sb.block_bitmap_sects (omega arith)) refl
