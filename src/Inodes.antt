-- ===== src/Inodes.antt =====
-- fs/inode.c: inodes on disk and in memory, and the bitmaps of a partition. A disk is a map from sector
-- numbers to bytes by their offset. An inode in memory is known by its number; its lock is left out, as
-- is the lock of a bitmap while a sector of it is written.
pub mod Codec
pub mod Sync
pub mod Open
pub mod Blocks
mod Tests
use fizzos.Base.{
  ℕ, zero, suc, ◌+◌, ◌-◌, ◌*◌, ◌/◌, ◌%◌, ◌^◌, Bool, true, false, not, ◌&&◌, List, [], ◌∷◌, ◌++◌,
  Option, none, some, Outcome, ok, panic, fault, out_of_fuel, ◌>>=◌, ◌>>◌, assert, ◌==◌, ltb, leb,
  if◌then◌else◌, get_or, values, replicate,
}
use fizzos.Bitmap.{Bitmap, bitmap_is_set, bitmap_scan_set, bitmap_reset}
use fizzos.Disk.{
  sector_size, bits_per_sector, inode_size, add32, sub32, SuperBlock, InodePos, get_inode_pos,
}
use fizzos.File.{word_at}
use fizzos.Ide.{max_lba}

abbrev pub DiskBytes : Type 0
DiskBytes = ℕ → ℕ → ℕ

pub record Inode : Type 0 where
  pub i_no : ℕ
  pub i_flags : ℕ
  pub i_size : ℕ
  pub i_count : ℕ
  pub i_mode : ℕ
  pub i_sectors : List ℕ

-- `part->sb` with the disk, both bitmaps in memory, and the list of inodes in memory.
pub record Part : Type 0 where
  pub sb : SuperBlock
  pub disk : DiskBytes
  pub inode_bitmap : Bitmap
  pub block_bitmap : Bitmap
  pub open_inodes : List Inode

-- Byte `k` of a number in memory.
abbrev pub byte_of : ℕ → ℕ → ℕ
byte_of n k = (n / 256 ^ k) % 256

-- A d6dtd_inode in memory; `pad` are its two bytes that are never written.
pub encode : (ℕ → ℕ) → Inode → ℕ → ℕ
encode pad i k =
    if ltb k 2
    then pad k
    else (if ltb k 4
        then byte_of i.i_mode (k - 2)
        else (if ltb k 8
            then byte_of i.i_size (k - 4)
            else (if ltb k 12
                then byte_of i.i_flags (k - 8)
                else byte_of (get_or i.i_sectors ((k - 12) / 4) 0) (k % 4))))

-- The inode in memory with a number and the bytes at an offset of a buffer.
pub decode : ℕ → (ℕ → ℕ) → ℕ → Inode
unfolding values
decode i_no buf offset = record {
  i_no = i_no;
  i_flags = word_at buf (offset + 8);
  i_size = word_at buf (offset + 4);
  i_count = 1;
  i_mode = buf (offset + 2) + 2 ^ 8 * buf (offset + 3);
  i_sectors = values (λ k. word_at buf (offset + 12 + 4 * k)) 0 13;
}

-- A buffer behind a read of `n` sectors, and a disk behind a write of them.
abbrev pub with_read : DiskBytes → ℕ → ℕ → (ℕ → ℕ) → ℕ → ℕ
with_read disk sec n buf k =
    if ltb k (n * sector_size) then disk (sec + k / sector_size) (k % sector_size) else buf k

abbrev pub with_written : DiskBytes → ℕ → ℕ → (ℕ → ℕ) → DiskBytes
with_written disk sec n buf s o =
    if leb sec s && ltb s (sec + n) then buf ((s - sec) * sector_size + o) else disk s o

-- ide_read and ide_write of one or two sectors, of a disk that answers: one command, of which the first
-- sector is tested.
abbrev pub read_sectors : DiskBytes → ℕ → ℕ → (ℕ → ℕ) → Outcome (ℕ → ℕ)
read_sectors disk sec n buf = assert (leb sec max_lba) >> ok (with_read disk sec n buf)

abbrev pub write_sectors : DiskBytes → ℕ → ℕ → (ℕ → ℕ) → Outcome DiskBytes
write_sectors disk sec n buf = assert (leb sec max_lba) >> ok (with_written disk sec n buf)

abbrev pub copy_in : (ℕ → ℕ) → ℕ → ℕ → (ℕ → ℕ) → ℕ → ℕ
copy_in buf start n src k = if leb start k && ltb k (start + n) then src (k - start) else buf k

abbrev pub sectors_of : InodePos → ℕ
sectors_of pos = if pos.two_sec then 2 else 1

pub inode_sync : Part → Inode → (ℕ → ℕ) → (ℕ → ℕ) → Outcome Part
unfolding encode
inode_sync part i pad io_buf = do
  let pos = get_inode_pos i.i_no part.sb
  let n = sectors_of pos
  sectors ← read_sectors part.disk pos.sec_no n io_buf
  disk ← write_sectors part.disk pos.sec_no n (copy_in sectors pos.offset inode_size (encode pad i))
  ok (record part { disk = disk })

-- The loop over the open inodes: one is found and counted once more, in an `int`.
pub find_open : ℕ → List Inode → Option (Inode × List Inode)
find_open i_no [] = none
find_open i_no (i ∷ rest) =
    let found = find_open i_no rest in
    let counted : Inode = record i { i_count = (i.i_count + 1) % 2 ^ 32 } in
    if i.i_no == i_no
    then some (counted, counted ∷ rest)
    else elim found [ none ↦ none | some (j, rest') ↦ some (j, i ∷ rest') ]

pub read_inode : Part → ℕ → (ℕ → ℕ) → Outcome Inode
unfolding decode
read_inode part i_no buf = do
  let pos = get_inode_pos i_no part.sb
  sectors ← read_sectors part.disk pos.sec_no (sectors_of pos) buf
  ok (decode i_no sectors pos.offset)

-- `buf` is what kmalloc left in the buffer.
pub inode_open : Part → ℕ → (ℕ → ℕ) → Outcome (Inode × Part)
unfolding find_open read_inode
inode_open part i_no buf = do
  assert (ltb i_no 4096)
  is_set ← bitmap_is_set i_no part.inode_bitmap
  assert is_set
  elim (find_open i_no part.open_inodes) [
    | some (i, inodes) ↦ ok (i, record part { open_inodes = inodes })
    | none ↦ (do
      i ← read_inode part i_no buf
      ok (i, record part { open_inodes = i ∷ part.open_inodes }))
  ]

-- The last user of an inode takes it out of the list. An inode that is not there was freed before. The
-- test is on the exact difference of the `int`, also where it overflows.
pub close_in : ℕ → List Inode → Outcome (List Inode)
close_in i_no [] = fault
close_in i_no (i ∷ rest) =
    let behind = close_in i_no rest in
    if i.i_no == i_no
    then ok (
        if ltb 1 i.i_count && ltb i.i_count (2 ^ 31)
        then record i { i_count = (i.i_count + 2 ^ 32 - 1) % 2 ^ 32 } ∷ rest
        else rest)
    else (do rest' ← behind; ok (i ∷ rest'))

pub inode_close : Part → ℕ → Outcome Part
unfolding close_in
inode_close part i_no = do
  inodes ← close_in i_no part.open_inodes
  ok (record part { open_inodes = inodes })

-- kzalloc clears the inode; its count stays 0.
pub inode_alloc : Part → Outcome (Inode × Part)
inode_alloc part = do
  (i_no, bmap) ← bitmap_scan_set part.inode_bitmap
  let i : Inode = record {
    i_no = i_no;
    i_flags = 0;
    i_size = 0;
    i_count = 0;
    i_mode = 0;
    i_sectors = replicate 13 0;
  }
  ok (i, record part { inode_bitmap = bmap; open_inodes = i ∷ part.open_inodes })

-- list_delete of the inode, which asserts that no user is left.
pub remove_in : ℕ → List Inode → Outcome (List Inode)
remove_in i_no [] = fault
remove_in i_no (i ∷ rest) =
    let behind = remove_in i_no rest in
    if i.i_no == i_no
    then assert (i.i_count == 0) >> ok rest
    else (do rest' ← behind; ok (i ∷ rest'))

pub inode_delete : Part → ℕ → Outcome Part
unfolding remove_in
inode_delete part i_no = do
  inodes ← remove_in i_no part.open_inodes
  bmap ← bitmap_reset i_no part.inode_bitmap
  ok (record part { inode_bitmap = bmap; open_inodes = inodes })

-- The sector of a bitmap in memory that holds a bit, written to its place on disk. The assertion, which
-- divides by the bytes of a sector and not by its bits, is the code's.
pub sync_bits : DiskBytes → ℕ → ℕ → ℕ → Bitmap → Outcome DiskBytes
sync_bits disk lba sects idx bmap =
    let start = (idx - idx % bits_per_sector) / 8 in
    assert (ltb (idx / sector_size) sects)
    >> write_sectors disk (add32 lba (idx / bits_per_sector)) 1
        (λ k. get_or bmap.bits (start + k) 0)

pub data BitmapType : Type 0 where
  block_bitmap : BitmapType
  inode_bitmap : BitmapType

pub bitmap_sync : ℕ → Part → BitmapType → Outcome Part
unfolding sync_bits
bitmap_sync idx part block_bitmap = do
  disk ←
      sync_bits part.disk part.sb.block_bitmap_lba part.sb.block_bitmap_sects idx part.block_bitmap
  ok (record part { disk = disk })
bitmap_sync idx part inode_bitmap = do
  disk ←
      sync_bits part.disk part.sb.inode_bitmap_lba part.sb.inode_bitmap_sects idx part.inode_bitmap
  ok (record part { disk = disk })

-- The sector number of a block that was free, with the bitmap on disk.
pub block_bimap_alloc : Part → Outcome (ℕ × Part)
unfolding bitmap_sync
block_bimap_alloc part = do
  (idx, bmap) ← bitmap_scan_set part.block_bitmap
  part' ← bitmap_sync idx (record part { block_bitmap = bmap }) block_bitmap
  ok (add32 part.sb.data_start_lba idx, part')
