-- ===== src/Kmalloc/Tests.antt =====
-- kmalloc and kfree of kernel/memory.c at small pools, and the theorems on their sizes at some.
use fizzos.Base.{
  ℕ, suc, ◌+◌, ◌*◌, ◌^◌, ◌<◌, ◌≤◌, ◌≡◌, ◌⊎◌, refl, arith, none, some, [], Outcome, ok, ◌>>=◌,
  Returns,
}
use fizzos.Kmalloc.{Pool, Freed, pg_size, large_order, kmalloc, kfree}
use fizzos.Kmalloc.Sizes.{pages_needed, large_order_short}

-- Twelve kilobytes: with the descriptor four pages would be needed, and four are taken.
large_order_short_example :
    Returns
      (λ order.
        (2 ^ order ≤ pages_needed 12288)
        × (pages_needed 12288 < 2 ^ suc order)
        × ((pages_needed 12288 ≡ 2 ^ order) × (12288 + 32 ≤ pg_size * 2 ^ order)
            ⊎ (2 ^ order < pages_needed 12288) × (pg_size * 2 ^ order < 12288 + 32)))
      (large_order 12288)
large_order_short_example = large_order_short 12288 (omega arith) (omega arith)

abbrev no_pages : Pool
no_pages = record { desc = λ p. none; mblock_part = λ i. []; mblock_full = λ i. [] }

-- Two blocks of one page, both freed: the page goes back.
abbrev two_and_back : Outcome (ℕ × ℕ × Freed × Freed)
two_and_back = do
  (a, pool) ← kmalloc 1500 0x300000 no_pages
  (b, pool) ← kmalloc 2000 0x301000 pool
  (none_yet, pool) ← kfree a pool
  (page, pool) ← kfree b pool
  ok (a, b, none_yet, page)

two_blocks : two_and_back ≡ ok (0x300020, 0x300810, none, some (0x300000, 0))
unfolding kmalloc kfree
two_blocks = refl

-- Three pages are asked for, two are taken.
large_request :
    kmalloc 8192 0x300000 no_pages >>= (λ (a, pool). kfree a pool >>= (λ (f, pool'). ok f))
    ≡ ok (some (0x300000, 1))
unfolding kmalloc kfree
large_request = refl
