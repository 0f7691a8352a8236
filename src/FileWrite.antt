-- ===== src/FileWrite.antt =====
-- fs/file.c: file_write to a file on disk, over the blocks of Inodes. The inode in memory is an argument
-- and a result; `io_buf` is a sector and the 128 words behind it.
pub mod Alloc
pub mod Sectors
pub mod Round
pub mod Fill
pub mod Put
pub mod Rounds
pub mod Loop
pub mod Finish
pub mod Content
mod Tests
use Prim.Native.Nat.{min, max}
use fizzos.Base.{
  ℕ, zero, suc, ◌+◌, ◌-◌, ◌*◌, ◌/◌, ◌%◌, ◌^◌, Bool, true, false, not, ◌&&◌, ◌||◌, List, Outcome, ok,
  panic, out_of_fuel, ◌>>=◌, ◌>>◌, assert, ◌==◌, ltb, leb, if◌then◌else◌, get_or, set, update,
}
use fizzos.Ide.{max_lba}
use fizzos.File.{sector_size, direct, max_sectors, word_at}
use fizzos.Inodes.{
  DiskBytes, Inode, Part, byte_of, read_sectors, write_sectors, copy_in, inode_sync,
  block_bimap_alloc,
}

-- What the rounds of the loop change: the partition, `i->i_sectors`, the words of the second table in
-- `io_buf`, and `is_sync_second`.
pub record Writing : Type 0 where
  pub part : Part
  pub i_sectors : List ℕ
  pub table : ℕ → ℕ
  pub is_sync_second : Bool

abbrev pub table_at : DiskBytes → ℕ → ℕ → ℕ
table_at disk lba k = word_at (disk lba) (4 * k)

-- ide_read of a table, from a disk that answers.
read_words : DiskBytes → ℕ → Outcome (ℕ → ℕ)
read_words disk lba = assert (leb lba max_lba) >> ok (table_at disk lba)

-- The words of the second table, in the round that comes to it first.
pub load_table : ℕ → Writing → Outcome Writing
unfolding read_words
load_table sec w =
    if sec == direct
    then (if get_or w.i_sectors 12 0 == 0
        then (do
          (lba, part) ← block_bimap_alloc w.part
          ok (record {
            part = part;
            i_sectors = set w.i_sectors 12 lba;
            table = λ k. 0;
            is_sync_second = true;
          }))
        else (do
          table ← read_words w.part.disk (get_or w.i_sectors 12 0)
          ok (record w { table = table })))
    else ok w

-- `*next_lba`, and a store to it.
abbrev pub next_lba : ℕ → Writing → ℕ
next_lba sec w = if ltb sec direct then get_or w.i_sectors sec 0 else w.table (sec - direct)

abbrev pub set_next_lba : ℕ → ℕ → Writing → Writing
set_next_lba sec lba w =
    if ltb sec direct
    then record w { i_sectors = set w.i_sectors sec lba }
    else record w { table = update w.table (sec - direct) lba }

-- A sector that the file does not have yet is allocated.
pub fill_sector : ℕ → Writing → Outcome Writing
fill_sector sec w =
    if next_lba sec w == 0
    then (do
      (lba, part) ← block_bimap_alloc w.part
      ok (
          set_next_lba sec lba
            (record w { part = part; is_sync_second = w.is_sync_second || ltb direct sec })))
    else ok w

-- The sector is read, `c` bytes of it are replaced, and it is written.
pub put_bytes : ℕ → ℕ → ℕ → (ℕ → ℕ) → (ℕ → ℕ) → Writing → Outcome Writing
put_bytes lba offset c src io_buf w = do
  sector ← read_sectors w.part.disk lba 1 io_buf
  disk ← write_sectors w.part.disk lba 1 (copy_in sector offset c src)
  ok (record w { part = record w.part { disk = disk } })

-- The loop: the state behind it and the bytes that are left.
pub write_loop : ℕ → (ℕ → ℕ) → ℕ → ℕ → ℕ → (ℕ → ℕ) → Writing → Outcome (Writing × ℕ)
unfolding load_table fill_sector put_bytes
write_loop zero src count sec offset io_buf w = out_of_fuel
write_loop (suc fuel) src count sec offset io_buf w =
    let c = min count (sector_size - offset) in
    if not (count == 0) && ltb sec max_sectors
    then (do
      w ← load_table sec w
      w ← fill_sector sec w
      assert (not (next_lba sec w == 0))
      w ← put_bytes (next_lba sec w) offset c src io_buf w
      write_loop fuel (λ k. src (k + c)) (count - c) (sec + 1) 0 io_buf w)
    else ok (w, count)

-- The bytes of the words of a table.
abbrev pub table_bytes : (ℕ → ℕ) → ℕ → ℕ
table_bytes table k = byte_of (table (k / 4)) (k % 4)

-- ide_write of the second table.
pub sync_second : Writing → Outcome Part
sync_second w =
    if w.is_sync_second
    then (do
      disk ← write_sectors w.part.disk (get_or w.i_sectors 12 0) 1 (table_bytes w.table)
      ok (record w.part { disk = disk }))
    else ok w.part

-- What follows the loop: the size, and what is written back.
pub finish : Inode → ℕ → ℕ → (ℕ → ℕ) → (ℕ → ℕ) → Writing → Outcome (Inode × Part)
unfolding sync_second
finish i p ret pad io_buf w = do
  part ← sync_second w
  let written : Inode = record i { i_sectors = w.i_sectors }
  let grown : Inode = record written { i_size = (p + ret) % 2 ^ 32 }
  if ltb i.i_size (p + ret)
      then (do part' ← inode_sync part grown pad io_buf; ok (grown, part'))
      else ok (written, part)

-- file_write of `count` bytes at a position: the inode, the partition, and the new position. `dirty` is
-- what kmalloc left in `io_buf`, by its bytes and by its words, and `pad` the bytes of the stack that
-- inode_sync writes. The loop has a round for each sector of the largest file, and one more.
pub file_write :
    Part → Inode → (ℕ → ℕ) → ℕ → ℕ → (ℕ → ℕ) → (ℕ → ℕ) → (ℕ → ℕ) → Outcome (Inode × Part × ℕ)
unfolding read_words write_loop finish
file_write part i src count p dirty dirty_words pad = do
  let sec = p / sector_size
  let second = get_or i.i_sectors 12 0
  assert (not (ltb direct sec && (second == 0)))
  table ← (if ltb direct sec then read_words part.disk second else ok dirty_words)
  (w, left) ←
      write_loop (max_sectors + 1) src count sec (p % sector_size) dirty
        (record { part = part; i_sectors = i.i_sectors; table = table; is_sync_second = false })
  assert (left == 0)
  (i', part') ← finish i p count pad dirty w
  ok (i', part', p + count)
