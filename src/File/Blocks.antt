-- ===== src/File/Blocks.antt =====
-- Which sector holds a byte of a file, and the words that file_read finds the sector's number in.
use fizzos.Base.{
  eq-cases, inl, inr, ne→==_false, ◌*◌, ◌≤◌, ok, le→leb, ℕ, ◌+◌, ◌-◌, ◌/◌, ◌%◌, ◌<◌, ◌≡◌, ◌≢◌, refl,
  Bool, true, false, arith, ◌==◌, ltb, if◌then◌else◌, get_or, update, le→ltb_false,
}
use fizzos.Ide.{max_lba}
use fizzos.File.{sector_size, direct, Inode, table_word, read_table, next_table, next_lba}

-- The sector number of a part of a file.
abbrev pub lba_of : (ℕ → ℕ → ℕ) → Inode → ℕ → ℕ
lba_of disk i sec =
    if ltb sec direct then get_or i.i_sectors sec 0 else table_word disk i (sec - direct)

-- The byte at a position of a file.
abbrev pub content : (ℕ → ℕ → ℕ) → Inode → ℕ → ℕ
content disk i q = disk (lba_of disk i (q / sector_size)) (q % sector_size)

-- Each byte of the file has a sector, which the disk has, as has the one with the second table.
pub record IsAllocated (disk : ℕ → ℕ → ℕ) (i : Inode) : Type 0 where
  pub there : (q : ℕ) → q < i.i_size → lba_of disk i (q / sector_size) ≢ 0
  pub on_disk : (q : ℕ) → q < i.i_size → lba_of disk i (q / sector_size) ≤ max_lba
  pub table : direct * sector_size < i.i_size → get_or i.i_sectors 12 0 ≤ max_lba

-- The words in the buffer are the inode's, as soon as they are needed.
abbrev pub IsRead : (ℕ → ℕ → ℕ) → Inode → ℕ → (ℕ → ℕ) → Type 0
IsRead disk i sec table = direct < sec → (k : ℕ) → table k ≡ table_word disk i k

-- The words behind the first part of a round, where the disk has the second table.
abbrev pub table_in : (ℕ → ℕ → ℕ) → Inode → ℕ → (ℕ → ℕ) → ℕ → ℕ
table_in disk i sec table =
    if ltb sec direct
    then update table 0 (get_or i.i_sectors sec 0)
    else (if sec == direct then table_word disk i else table)

pub read_table-table_word :
    (disk : ℕ → ℕ → ℕ) (i : Inode)
    → get_or i.i_sectors 12 0 ≤ max_lba
    → read_table disk i ≡ ok (table_word disk i)
unfolding read_table
read_table-table_word disk i le = rw (le→leb (get_or i.i_sectors 12 0) max_lba le) refl

pub next_table-table_in :
    (disk : ℕ → ℕ → ℕ) (i : Inode) (sec : ℕ) (table : ℕ → ℕ)
    → (sec ≡ direct → get_or i.i_sectors 12 0 ≤ max_lba)
    → next_table disk i sec table ≡ ok (table_in disk i sec table)
unfolding next_table
next_table-table_in disk i sec table on_disk = elim (eq-cases sec direct) [
  | inl at ↦ rw (at, read_table-table_word disk i (on_disk at)) refl
  | inr ne ↦ rw (ne→==_false sec direct ne) (pick (ltb sec direct))
]
  where
    pick :
        (b : Bool)
        → (if b then ok (update table 0 (get_or i.i_sectors sec 0)) else ok table)
          ≡ ok (if b then update table 0 (get_or i.i_sectors sec 0) else table)
    pick true = refl
    pick false = refl

pub table_in-lba_of :
    (disk : ℕ → ℕ → ℕ) (i : Inode) (sec : ℕ) (table : ℕ → ℕ)
    → IsRead disk i sec table
    → table_in disk i sec table (next_lba sec) ≡ lba_of disk i sec
unfolding next_lba
table_in-lba_of disk i sec table h = pick (ltb sec direct) refl
  where
    none_left : ltb sec direct ≡ true → (sec - direct) == 0 ≡ true
    none_left e = ground arith

    second :
        (b : Bool)
        → sec == direct ≡ b
        → ltb sec direct ≡ false
        → (if b then table_word disk i else table) (sec - direct) ≡ table_word disk i (sec - direct)
    second true e ge = refl
    second false e ge = h (ground arith) (sec - direct)

    pick :
        (b : Bool)
        → ltb sec direct ≡ b
        → (if b
              then update table 0 (get_or i.i_sectors sec 0)
              else (if sec == direct then table_word disk i else table))
            (sec - direct)
          ≡ (if b then get_or i.i_sectors sec 0 else table_word disk i (sec - direct))
    pick true e = rw (none_left e) refl
    pick false e = second (sec == direct) refl e

pub table_in-IsRead :
    (disk : ℕ → ℕ → ℕ) (i : Inode) (sec : ℕ) (table : ℕ → ℕ)
    → IsRead disk i sec table
    → IsRead disk i (sec + 1) (table_in disk i sec table)
table_in-IsRead disk i sec table h behind k =
    rw (le→ltb_false sec direct (omega arith)) (pick (sec == direct) refl)
  where
    pick :
        (b : Bool)
        → sec == direct ≡ b
        → (if b then table_word disk i else table) k ≡ table_word disk i k
    pick true e = refl
    pick false e = h (ground arith) k
