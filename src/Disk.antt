-- ===== src/Disk.antt =====
-- fs/fs.c and fs/inode.c: where a partition keeps its parts. Unsigned arithmetic of 32 bits wraps round.
pub mod Layout
mod Tests
use fizzos.Base.{ℕ, ◌+◌, ◌-◌, ◌*◌, ◌/◌, ◌%◌, ◌^◌, Bool, ltb}

abbrev pub sector_size : ℕ
sector_size = 512

abbrev pub bits_per_sector : ℕ
bits_per_sector = 4096

abbrev pub max_files_per_part : ℕ
max_files_per_part = 4096

-- sizeof (struct d6dtd_inode)
abbrev pub inode_size : ℕ
inode_size = 64

abbrev pub add32 : ℕ → ℕ → ℕ
add32 a b = (a + b) % 2 ^ 32

abbrev pub sub32 : ℕ → ℕ → ℕ
sub32 a b = (a + 2 ^ 32 - b) % 2 ^ 32

abbrev pub div_round_up : ℕ → ℕ → ℕ
div_round_up x step = add32 x (step - 1) / step

-- The fields that partition_format computes.
pub record SuperBlock : Type 0 where
  pub sec_cnt : ℕ
  pub inode_cnt : ℕ
  pub part_lba_base : ℕ
  pub block_bitmap_lba : ℕ
  pub block_bitmap_sects : ℕ
  pub inode_bitmap_lba : ℕ
  pub inode_bitmap_sects : ℕ
  pub inode_table_lba : ℕ
  pub inode_table_sects : ℕ
  pub data_start_lba : ℕ

abbrev pub inode_bitmap_sectors : ℕ
inode_bitmap_sectors = div_round_up max_files_per_part bits_per_sector

abbrev pub inode_table_sectors : ℕ
inode_table_sectors = div_round_up (max_files_per_part * inode_size) sector_size

-- What the boot sector, the super block and the inodes leave of a partition.
abbrev pub free_sectors : ℕ → ℕ
free_sectors sec_cnt = sub32 sec_cnt (1 + 1 + inode_bitmap_sectors + inode_table_sectors)

-- `block_bitmap_bit_len`, the number of data blocks.
abbrev pub block_count : ℕ → ℕ
block_count sec_cnt =
    sub32 (free_sectors sec_cnt) (div_round_up (free_sectors sec_cnt) bits_per_sector)

pub format_super_block : ℕ → ℕ → SuperBlock
format_super_block start_lba sec_cnt =
    let sects = div_round_up (block_count sec_cnt) bits_per_sector in
    let block_bitmap = add32 start_lba 2 in
    let inode_bitmap = add32 block_bitmap sects in
    let inode_table = add32 inode_bitmap inode_bitmap_sectors in
    record {
      sec_cnt = sec_cnt;
      inode_cnt = max_files_per_part;
      part_lba_base = start_lba;
      block_bitmap_lba = block_bitmap;
      block_bitmap_sects = sects;
      inode_bitmap_lba = inode_bitmap;
      inode_bitmap_sects = inode_bitmap_sectors;
      inode_table_lba = inode_table;
      inode_table_sects = inode_table_sectors;
      data_start_lba = add32 inode_table inode_table_sectors;
    }

pub record InodePos : Type 0 where
  pub two_sec : Bool
  pub sec_no : ℕ
  pub offset : ℕ

pub get_inode_pos : ℕ → SuperBlock → InodePos
get_inode_pos i_no sb =
    let place = i_no * inode_size % 2 ^ 32 in
    record {
      two_sec = ltb (sector_size - place % sector_size) inode_size;
      sec_no = add32 sb.inode_table_lba (place / sector_size);
      offset = place % sector_size;
    }
