-- ===== src/File/Tests.antt =====
-- Runs of the files.
use Prim.Native.Nat.{min}
use fizzos.Base.{ℕ, zero, suc, ◌+◌, ◌-◌, ◌/◌, ◌<◌, ◌≤◌, ◌≡◌, ◌≢◌, ◌∷◌, ok, arith, values, replicate}
use fizzos.File.{Inode, file_read}
use fizzos.File.Blocks.{content, lba_of, IsAllocated}
use fizzos.File.Read.{file_read-content}

-- Each byte holds the number of its sector.
abbrev stamped : ℕ → ℕ → ℕ
stamped lba offset = lba

-- A file of two sectors, 50 and 60, of which the second one has 88 bytes.
abbrev two_sectors : Inode
two_sectors = record { i_size = 600; i_sectors = 50 ∷ 60 ∷ replicate 11 0 }

file_read-content_example :
    file_read stamped two_sectors 700 510 (λ k. 9)
    ≡ ok (values (content stamped two_sectors) 510 (min 700 (600 - 510)), 510 + min 700 (600 - 510))
file_read-content_example =
    file_read-content stamped two_sectors 700 510 (λ k. 9) alloc (omega arith) (omega arith)
  where
    reach : (s : ℕ) → s < 2 → lba_of stamped two_sectors s ≤ 60
    reach zero lt = omega arith
    reach (suc zero) lt = omega arith
    reach (suc (suc s)) lt = absurd (omega arith)

    in_use : (s : ℕ) → s < 2 → lba_of stamped two_sectors s ≢ 0
    in_use zero lt = omega arith
    in_use (suc zero) lt = omega arith
    in_use (suc (suc s)) lt = absurd (omega arith)

    alloc : IsAllocated stamped two_sectors
    alloc = record {
      there = λ q lt. in_use (q / 512) (omega arith);
      on_disk = λ q lt. omega (arith, reach (q / 512) (omega arith));
      table = λ lt. omega arith;
    }
