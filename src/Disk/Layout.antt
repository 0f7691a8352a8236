-- ===== src/Disk/Layout.antt =====
-- The parts of a partition that partition_format of fs/fs.c lays out, and the places of inodes in it.
use fizzos.Base.{ℕ, ◌+◌, ◌-◌, ◌*◌, ◌/◌, ◌%◌, ◌^◌, ◌<◌, ◌≤◌, ◌≡◌, refl, arith, false, le→ltb_false}
use fizzos.Disk.{
  sector_size, bits_per_sector, max_files_per_part, inode_size, add32, SuperBlock, block_count,
  format_super_block, get_inode_pos,
}

-- The parts come one behind the other, the bitmaps have a bit for each block and inode, and the blocks
-- end inside the partition.
pub record IsLaidOut (start_lba sec_cnt : ℕ) (sb : SuperBlock) : Type 0 where
  pub super_block : start_lba + 1 < sb.block_bitmap_lba
  pub block_bitmap : sb.block_bitmap_lba + sb.block_bitmap_sects ≤ sb.inode_bitmap_lba
  pub inode_bitmap : sb.inode_bitmap_lba + sb.inode_bitmap_sects ≤ sb.inode_table_lba
  pub inode_table : sb.inode_table_lba + sb.inode_table_sects ≤ sb.data_start_lba
  pub blocks : sb.data_start_lba + block_count sec_cnt ≤ start_lba + sec_cnt
  pub block_bits : block_count sec_cnt ≤ sb.block_bitmap_sects * bits_per_sector
  pub inode_bits : sb.inode_cnt ≤ sb.inode_bitmap_sects * bits_per_sector
  pub inodes : sb.inode_cnt * inode_size ≤ sb.inode_table_sects * sector_size

-- partition_format of a partition that has more than the 515 sectors of its fixed parts and ends below
-- sector 2 ^ 31 puts the parts one behind the other and inside the partition, with a bit for each
-- block and inode.
pub format-IsLaidOut :
    (start_lba sec_cnt : ℕ)
    → 515 < sec_cnt
    → start_lba + sec_cnt < 2 ^ 31
    → IsLaidOut start_lba sec_cnt (format_super_block start_lba sec_cnt)
unfolding format_super_block
format-IsLaidOut start_lba sec_cnt lo hi = record {
  super_block = omega arith;
  block_bitmap = omega arith;
  inode_bitmap = omega arith;
  inode_table = omega arith;
  blocks = omega arith;
  block_bits = omega arith;
  inode_bits = omega arith;
  inodes = omega arith;
}

-- get_inode_pos of two inodes in a table that ends below sector 2 ^ 32: none is in two sectors, each
-- is in a sector of the table, and the second is behind the first.
pub inode_pos_apart :
    (sb : SuperBlock) (i j : ℕ)
    → i < j
    → j < max_files_per_part
    → sb.inode_table_lba + 512 < 2 ^ 32
    → (((get_inode_pos i sb).two_sec ≡ false) × ((get_inode_pos j sb).two_sec ≡ false))
      × ((sb.inode_table_lba ≤ (get_inode_pos i sb).sec_no)
          × ((get_inode_pos j sb).sec_no < sb.inode_table_lba + 512))
      × ((get_inode_pos i sb).sec_no * sector_size + (get_inode_pos i sb).offset + inode_size
          ≤ (get_inode_pos j sb).sec_no * sector_size + (get_inode_pos j sb).offset)
unfolding get_inode_pos
inode_pos_apart sb i j lt inside below = (
  (le→ltb_false _ _ (omega arith), le→ltb_false _ _ (omega arith)),
  (omega arith, omega arith),
  omega arith,
)

-- Where an inode of such a table is: eight are in a sector.
pub inode_place :
    (sb : SuperBlock) (i : ℕ)
    → i < max_files_per_part
    → sb.inode_table_lba + 512 < 2 ^ 32
    → get_inode_pos i sb
      ≡ record { two_sec = false; sec_no = sb.inode_table_lba + i / 8; offset = i % 8 * inode_size }
unfolding get_inode_pos
inode_place sb i inside below = rw (place, le→ltb_false _ _ fits, in_sector, at_sector) refl
  where
    place : i * inode_size % 2 ^ 32 ≡ i * inode_size
    place = omega arith

    fits : inode_size ≤ sector_size - i * inode_size % sector_size
    fits = omega arith

    in_sector : i * inode_size % sector_size ≡ i % 8 * inode_size
    in_sector = omega arith

    at_sector : add32 sb.inode_table_lba (i * inode_size / sector_size) ≡ sb.inode_table_lba + i / 8
    at_sector = omega arith
