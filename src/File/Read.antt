-- ===== src/File/Read.antt =====
-- file_read of fs/file.c gives the bytes of the file.
use mathlib.Core.Path.{ap₂}
use Prim.Native.Nat.{min}
use fizzos.Base.{
  panic, leb, ℕ, zero, suc, ◌+◌, ◌-◌, ◌*◌, ◌/◌, ◌%◌, ◌<◌, ◌≤◌, ◌≡◌, ◌≢◌, refl, ap, ◌∙◌, Bool, true,
  false, ◌++◌, ok, arith, ltb, if◌then◌else◌, inl, inr, ◌⊎◌, eq-cases, lt→ltb, ne→==_false, values,
  values-append, values-agree, le→leb, subst,
}
use fizzos.Ide.{max_lba}
use fizzos.File.{
  sector_size, direct, max_sectors, Inode, table_word, read_table, read_loop, file_read,
}
use fizzos.File.Blocks.{
  table_in, next_table-table_in, read_table-table_word, lba_of, content, IsAllocated, IsRead,
  table_in-lba_of, table_in-IsRead,
}

values_same : (f : ℕ → ℕ) (a b n : ℕ) → (a ≡ b) ⊎ (n ≡ 0) → values f a n ≡ values f b n
unfolding values
values_same f a b n (inl e) = ap (λ (k : ℕ). values f k n) e
values_same f a b n (inr e) = rw e refl

-- A part of one sector is a part of the file.
part_of_sector :
    (disk : ℕ → ℕ → ℕ) (i : Inode) (sec offset c : ℕ)
    → offset + c ≤ sector_size
    → values (disk (lba_of disk i sec)) offset c
      ≡ values (content disk i) (sec * sector_size + offset) c
part_of_sector disk i sec offset c h =
    values-agree (disk (lba_of disk i sec)) (content disk i) offset (sec * sector_size + offset) c
      (λ j lt. ap₂ (λ (s o : ℕ). disk (lba_of disk i s) o) (omega arith) (omega arith))

read_loop-content :
    (fuel : ℕ) (disk : ℕ → ℕ → ℕ) (i : Inode) (count sec offset : ℕ) (table : ℕ → ℕ)
    → IsAllocated disk i
    → IsRead disk i sec table
    → offset < sector_size
    → (0 < count → sec * sector_size + offset + count ≤ i.i_size)
    → i.i_size ≤ max_sectors * sector_size
    → max_sectors < sec + fuel
    → sec ≤ max_sectors
    → read_loop fuel disk i count sec offset table
      ≡ ok (values (content disk i) (sec * sector_size + offset) count)
unfolding read_loop
read_loop-content zero disk i count sec offset table alloc read o inside size enough le =
    absurd (omega arith)
read_loop-content (suc fuel) disk i count sec offset table alloc read o inside size enough le =
    elim (eq-cases count 0) [
      | inl done ↦ rw done (unfold values in refl)
      | inr more ↦
          let c = min count (sector_size - offset) in
          let end_inside = inside (omega arith) in
          rw
            (
              ne→==_false count 0 more,
              lt→ltb sec max_sectors (omega arith),
              next_table-table_in disk i sec table (λ at. alloc.table (omega arith)),
              table_in-lba_of disk i sec table read,
              ne→==_false (lba_of disk i sec) 0 (has_sector (omega arith)),
              le→leb (lba_of disk i sec) max_lba (in_reach (omega arith)),
              read_loop-content fuel disk i (count - c) (sec + 1) 0 (table_in disk i sec table)
                  alloc (table_in-IsRead disk i sec table read) (omega arith) (λ left. omega arith)
                  size (omega arith) (omega arith),
            )
            (ap ok (joined c (ground arith) (omega arith) (omega arith)))
    ]
  where
    has_sector : sec * sector_size < i.i_size → lba_of disk i sec ≢ 0
    has_sector lt =
        subst (λ (s : ℕ). lba_of disk i s ≢ 0) (omega arith) (alloc.there (sec * sector_size) lt)

    in_reach : sec * sector_size < i.i_size → lba_of disk i sec ≤ max_lba
    in_reach lt =
        subst (λ (s : ℕ). lba_of disk i s ≤ max_lba) (omega arith)
          (alloc.on_disk (sec * sector_size) lt)

    joined :
        (c : ℕ)
        → (c ≡ count) ⊎ (c ≡ sector_size - offset)
        → c ≤ count
        → offset + c ≤ sector_size
        → values (disk (lba_of disk i sec)) offset c
            ++ values (content disk i) ((sec + 1) * sector_size + 0) (count - c)
          ≡ values (content disk i) (sec * sector_size + offset) count
    joined c whole le fits =
        ap₂ ◌++◌ (part_of_sector disk i sec offset c (omega arith)) (
          values_same (content disk i) ((sec + 1) * sector_size + 0)
            (sec * sector_size + offset + c) (count - c) (ground arith))
        ∙ values-append (content disk i) (sec * sector_size + offset) c (count - c)
        ∙ ap (values (content disk i) (sec * sector_size + offset)) (omega arith)

-- file_read at a position inside a file of at most 140 sectors, with a sector for each byte, each of
-- them and that of the second table one that the disk has, gives the bytes of the file from there on, as
-- many as were asked for or are left, and moves the position behind them.
pub file_read-content :
    (disk : ℕ → ℕ → ℕ) (i : Inode) (count p : ℕ) (dirty : ℕ → ℕ)
    → IsAllocated disk i
    → i.i_size ≤ max_sectors * sector_size
    → p ≤ i.i_size
    → file_read disk i count p dirty
      ≡ ok (values (content disk i) p (min count (i.i_size - p)), p + min count (i.i_size - p))
unfolding file_read
file_read-content disk i count p dirty alloc size inside =
    rw
      (
        le→leb p i.i_size inside,
        first_table (ltb direct (p / sector_size)) refl,
        read_loop-content (max_sectors + 1) disk i (min i.i_size (p + count) - p) (p / sector_size)
            (p % sector_size) (if ltb direct (p / sector_size) then table_word disk i else dirty)
            alloc (start (ltb direct (p / sector_size)) refl) (omega arith)
            (λ some_left. omega arith) size (omega arith) (omega arith),
      )
      (ap₂ (λ (q n : ℕ). ok (values (content disk i) q n, p + n)) (omega arith) (omega arith))
  where
    first_table :
        (b : Bool)
        → ltb direct (p / sector_size) ≡ b
        → (if b then read_table disk i else ok dirty) ≡ ok (if b then table_word disk i else dirty)
    first_table true e = read_table-table_word disk i (alloc.table (ground arith))
    first_table false e = refl

    start :
        (b : Bool)
        → ltb direct (p / sector_size) ≡ b
        → IsRead disk i (p / sector_size) (if b then table_word disk i else dirty)
    start true e behind k = refl
    start false e behind k = absurd (ground arith)

-- A read behind the end of the file stops the kernel.
pub file_read-panic :
    (disk : ℕ → ℕ → ℕ) (i : Inode) (count p : ℕ) (dirty : ℕ → ℕ)
    → i.i_size < p
    → file_read disk i count p dirty ≡ panic
unfolding file_read
file_read-panic disk i count p dirty beyond = rw outside refl
  where
    outside : leb p i.i_size ≡ false
    outside = ground arith
