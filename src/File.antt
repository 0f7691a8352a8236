-- ===== src/File.antt =====
-- fs/file.c: the numbers of open files, and the loop of file_read from the blocks of an inode. A disk is
-- a map from sector numbers to bytes by their offset; the 512 bytes behind the first sector of `io_buf`
-- are kept as the 128 words that the code reads in them.
pub mod Blocks
pub mod Read
pub mod Fds
mod Tests
use Prim.Native.Nat.{min}
use fizzos.Base.{
  ℕ, zero, suc, ◌+◌, ◌-◌, ◌*◌, ◌/◌, ◌%◌, ◌^◌, Bool, true, false, not, ◌&&◌, List, [], ◌∷◌, ◌++◌,
  Option, none, some, Outcome, ok, panic, fault, out_of_fuel, ◌>>=◌, ◌>>◌, assert, ◌==◌, ltb, leb,
  if◌then◌else◌, get_or, update, values,
}
use fizzos.Ide.{max_lba}

abbrev pub sector_size : ℕ
sector_size = 512

-- Sectors whose numbers are in the inode.
abbrev pub direct : ℕ
direct = 12

-- The sectors of the largest file.
abbrev pub max_sectors : ℕ
max_sectors = 12 + 128

-- What the loops use of an inode: its size, and its thirteen sector numbers.
pub record Inode : Type 0 where
  pub i_size : ℕ
  pub i_sectors : List ℕ

-- The 32-bit word at an offset of a sector.
unfoldable pub word_at : (ℕ → ℕ) → ℕ → ℕ
word_at sector i =
    sector i + 2 ^ 8 * sector (i + 1) + 2 ^ 16 * sector (i + 2) + 2 ^ 24 * sector (i + 3)

-- ide_read of one sector, from a disk that answers.
abbrev pub read_sector : (ℕ → ℕ → ℕ) → ℕ → Outcome (ℕ → ℕ)
read_sector disk lba = assert (leb lba max_lba) >> ok (disk lba)

-- The words of the sector with the numbers of sectors.
abbrev pub table_word : (ℕ → ℕ → ℕ) → Inode → ℕ → ℕ
table_word disk i k = word_at (disk (get_or i.i_sectors 12 0)) (4 * k)

pub read_table : (ℕ → ℕ → ℕ) → Inode → Outcome (ℕ → ℕ)
read_table disk i =
    read_sector disk (get_or i.i_sectors 12 0) >>= (λ sector. ok (λ k. word_at sector (4 * k)))

-- The words behind the sector in `io_buf`, at the end of a round's first part.
pub next_table : (ℕ → ℕ → ℕ) → Inode → ℕ → (ℕ → ℕ) → Outcome (ℕ → ℕ)
unfolding read_table
next_table disk i sec table =
    if ltb sec direct
    then ok (update table 0 (get_or i.i_sectors sec 0))
    else (if sec == direct then read_table disk i else ok table)

-- Where `next_lba` points among these words.
pub next_lba : ℕ → ℕ
next_lba sec = sec - direct

-- The loop of file_read: what it copies to `dest`.
pub read_loop : ℕ → (ℕ → ℕ → ℕ) → Inode → ℕ → ℕ → ℕ → (ℕ → ℕ) → Outcome (List ℕ)
unfolding next_table next_lba
read_loop zero disk i count sec offset table = out_of_fuel
read_loop (suc fuel) disk i count sec offset table =
    let c = min count (sector_size - offset) in
    if not (count == 0) && ltb sec max_sectors
    then (do
      table' ← next_table disk i sec table
      let lba = table' (next_lba sec)
      assert (not (lba == 0))
      sector ← read_sector disk lba
      behind ← read_loop fuel disk i (count - c) (sec + 1) 0 table'
      ok (values sector offset c ++ behind))
    else assert (count == 0) >> ok []

-- file_read of a file on disk: the bytes read, and the position afterwards. `dirty` is what kmalloc left
-- in the buffer. There is a round for each sector of the largest file, and one more.
pub file_read : (ℕ → ℕ → ℕ) → Inode → ℕ → ℕ → (ℕ → ℕ) → Outcome (List ℕ × ℕ)
unfolding read_loop read_table
file_read disk i count p dirty =
    let n = min i.i_size (p + count) - p in
    let sec = p / sector_size in
    assert (leb p i.i_size)
    >> ((if ltb direct sec then read_table disk i else ok dirty) >>= (λ table.
        read_loop (max_sectors + 1) disk i n sec (p % sector_size) table
        >>= (λ bytes. ok (bytes, p + n))))

-- The search of alloc_fd from `fd` on, in `n` rounds: the first number without its bit.
pub search_fd : ℕ → ℕ → (ℕ → Bool) → Option ℕ
search_fd zero fd open_fds = none
search_fd (suc n) fd open_fds =
    let rest = search_fd n (fd + 1) open_fds in if open_fds fd then rest else some fd

-- `open_fds` by its 32 bits; none is -1.
pub alloc_fd : (ℕ → Bool) → Option ℕ × (ℕ → Bool)
unfolding search_fd
alloc_fd open_fds = elim (search_fd 32 0 open_fds) [
  | none ↦ (none, open_fds)
  | some fd ↦ (some fd, update open_fds fd true)
]

-- A number of 32 or more, which no bit stands for, is not passed.
pub free_fd : ℕ → (ℕ → Bool) → Outcome (ℕ → Bool)
free_fd fd open_fds = assert (open_fds fd) >> ok (update open_fds fd false)
