-- ===== src/Inodes/Tests.antt =====
-- A partition with three blocks and inodes taken.
use fizzos.Base.{
  ℕ, zero, suc, ◌*◌, ◌%◌, ◌^◌, ◌<◌, ◌≤◌, ◌≡◌, ◌≢◌, refl, ap, true, [], ◌∷◌, ok, panic, arith,
  get_or, Returns, replicate,
}
use fizzos.Bitmap.{Bitmap, test_bit}
use fizzos.Bitmap.Bits.{is_set, IsValid}
use fizzos.Bitmap.Alloc.{IsFirstClear}
use fizzos.Disk.{max_files_per_part, SuperBlock}
use fizzos.Inodes.{
  Inode, Part, inode_sync, read_inode, inode_open, inode_close, inode_alloc, inode_delete,
  block_bimap_alloc,
}
use fizzos.Inodes.Codec.{IsStorable}
use fizzos.Inodes.Sync.{inode_open-inode_sync}
use fizzos.Inodes.Open.{Undone, inode_close-inode_open, inode_delete-inode_alloc}
use fizzos.Inodes.Blocks.{IsMirrored, BlockTaken, block_bimap_alloc-BlockTaken}

abbrev three : Bitmap
three = record { bits = 7 ∷ []; byte_size = 1; behind = λ i. 0; depth = 0 }

three-IsValid : IsValid three
three-IsValid = record { sized = omega arith; bytes = small; beyond = λ i. omega arith }
  where
    small : (i : ℕ) → get_or three.bits i 0 < 256
    small zero = omega arith
    small (suc i) = omega arith

three-IsFirstClear : IsFirstClear three 3
three-IsFirstClear = record { inside = omega arith; clear = refl; before = before }
  where
    before : (j : ℕ) → j < 3 → is_set three j ≡ true
    before zero lt = refl
    before (suc zero) lt = refl
    before (suc (suc zero)) lt = refl
    before (suc (suc (suc j))) lt = absurd (omega arith)

abbrev layout : SuperBlock
layout = record {
  sec_cnt = 2000;
  inode_cnt = 4096;
  part_lba_base = 0;
  block_bitmap_lba = 2;
  block_bitmap_sects = 1;
  inode_bitmap_lba = 3;
  inode_bitmap_sects = 1;
  inode_table_lba = 4;
  inode_table_sects = 512;
  data_start_lba = 516;
}

abbrev part_of_three : Part
part_of_three = record {
  sb = layout;
  disk = λ s o. get_or three.bits o 0;
  inode_bitmap = three;
  block_bitmap = three;
  open_inodes = [];
}

part-IsMirrored : IsMirrored part_of_three.disk 2 1 three
part-IsMirrored idx lt = ap (λ (o : ℕ). test_bit (get_or three.bits o 0) (idx % 8)) (omega arith)

block_bimap_alloc-BlockTaken_example :
    (3 < 512 * 1 → Returns (BlockTaken part_of_three 3) (block_bimap_alloc part_of_three))
    × (512 * 1 ≤ 3 → block_bimap_alloc part_of_three ≡ panic)
block_bimap_alloc-BlockTaken_example =
    block_bimap_alloc-BlockTaken part_of_three 3 three-IsValid three-IsFirstClear part-IsMirrored
      (omega arith)

inode_close-inode_open_example :
    Returns
      (λ (i, part'). (i.i_no ≡ 2) × (inode_close part' 2 ≡ ok part_of_three))
      (inode_open part_of_three 2 (λ k. 0))
inode_close-inode_open_example =
    inode_close-inode_open part_of_three 2 (λ k. 0) (omega arith) three-IsValid (omega arith) refl
      (omega arith) (omega arith)

inode_delete-inode_alloc_example :
    Returns
      (λ (i, part').
        IsFirstClear three i.i_no × Returns (Undone part_of_three) (inode_delete part' i.i_no))
      (inode_alloc part_of_three)
inode_delete-inode_alloc_example =
    inode_delete-inode_alloc part_of_three 5 three-IsValid (omega arith) refl

abbrev a_file : Inode
a_file = record {
  i_no = 9;
  i_flags = 1;
  i_size = 70_000;
  i_count = 2;
  i_mode = 0x8001;
  i_sectors = replicate 13 600;
}

a_file-IsStorable : IsStorable a_file
a_file-IsStorable = record {
  flags = omega arith;
  size = omega arith;
  mode = omega arith;
  thirteen = refl;
  sectors = small 13;
}
  where
    small : (n k : ℕ) → get_or (replicate n 600) k 0 < 2 ^ 32
    small zero k = omega arith
    small (suc n) zero = omega arith
    small (suc n) (suc k) = small n k

inode_open-inode_sync_example :
    Returns
      (λ part'.
        (read_inode part' 9 (λ k. 0) ≡ ok (record a_file { i_count = 1 }))
        × ((j : ℕ)
            → j < max_files_per_part
            → j ≢ 9
            → read_inode part' j (λ k. 0) ≡ read_inode part_of_three j (λ k. 0)))
      (inode_sync part_of_three a_file (λ k. 0) (λ k. 0))
inode_open-inode_sync_example =
    inode_open-inode_sync part_of_three a_file (λ k. 0) (λ k. 0) (λ k. 0) (omega arith)
      (omega arith) a_file-IsStorable
