-- ===== src/Disk/Tests.antt =====
-- The layout of a partition of fs/fs.c at one size, and its theorems there.
use fizzos.Base.{◌+◌, ◌≡◌, refl, arith}
use fizzos.Disk.{SuperBlock, format_super_block, block_count}
use fizzos.Disk.Layout.{IsLaidOut, format-IsLaidOut}

-- Forty megabytes from sector 2048 on.
abbrev home : SuperBlock
home = format_super_block 2048 81920

format-IsLaidOut_example : IsLaidOut 2048 81920 home
format-IsLaidOut_example = format-IsLaidOut 2048 81920 (omega arith) (omega arith)

home_blocks : home.data_start_lba + block_count 81920 ≡ 2048 + 81920
unfolding format_super_block
home_blocks = refl
