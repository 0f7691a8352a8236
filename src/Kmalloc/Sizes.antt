-- ===== src/Kmalloc/Sizes.antt =====
-- The sizes that kmalloc of kernel/memory.c works with: the class of a small request, the blocks of a
-- page, and the pages of a large request.
use native.Mathlib.Nat.{pow-suc}
use fizzos.Base.{
  ℕ, zero, suc, ◌+◌, ◌-◌, ◌*◌, ◌/◌, ◌^◌, ◌<◌, ◌≤◌, ◌≡◌, ap, arith, ok, Returns, ltb, get_or,
  Bool-cases, eq-cases, inl, inr, ◌⊎◌, ltb→lt,
}
use fizzos.Kmalloc.{
  pg_size, max_block_size, mem_block_size, mem_block_count, halve, large_order, class_from,
  block_class,
}

-- A request of at most the largest block size gets a class that holds it, and it is the first class
-- or the class before is too small.
pub block_class_fits :
    (size : ℕ)
    → size ≤ max_block_size
    → (block_class size < 7)
      × (size ≤ get_or mem_block_size (block_class size) 0)
      × ((block_class size ≡ 0) ⊎ get_or mem_block_size (block_class size - 1) 0 < size)
unfolding block_class class_from
block_class_fits size h = ground arith

-- Of two blocks of a page, of any class, the first lies behind the 32 bytes of the descriptor, the
-- second behind the first, and both in the page.
pub blocks_apart :
    (idx i j : ℕ)
    → idx < 7
    → i < j
    → j < get_or mem_block_count idx 0
    → let size = get_or mem_block_size idx 0 in
      (32 ≤ 32 + size * i)
      × (32 + size * i + size ≤ 32 + size * j)
      × (32 + size * j + size ≤ pg_size)
blocks_apart zero i j h lt inside = omega arith
blocks_apart (suc zero) i j h lt inside = omega arith
blocks_apart (suc (suc zero)) i j h lt inside = omega arith
blocks_apart (suc (suc (suc zero))) i j h lt inside = omega arith
blocks_apart (suc (suc (suc (suc zero)))) i j h lt inside = omega arith
blocks_apart (suc (suc (suc (suc (suc zero))))) i j h lt inside = omega arith
blocks_apart (suc (suc (suc (suc (suc (suc zero)))))) i j h lt inside = omega arith
blocks_apart (suc (suc (suc (suc (suc (suc (suc idx))))))) i j h lt inside = absurd (omega arith)

-- The loop ends with the largest power of two that is not above the count.
halve-log :
    (k cnt order : ℕ)
    → 0 < cnt
    → cnt < 2 ^ k
    → (l : ℕ) × (halve k cnt order ≡ ok (order + l)) × (2 ^ l ≤ cnt) × (cnt < 2 ^ suc l)
unfolding halve
halve-log zero cnt order pos h = absurd (omega arith)
halve-log (suc k) cnt order pos h = elim (Bool-cases (ltb 1 cnt)) [
  | inl more ↦
      let (l, run, lo, hi) =
        halve-log k (cnt / 2) (order + 1) (omega (arith, ltb→lt 1 cnt more))
          (omega (arith, pow-suc 2 k)) in
      (
        suc l,
        rw (more, run) (ap ok (omega arith)),
        omega (arith, pow-suc 2 l),
        omega (arith, pow-suc 2 (suc l)),
      )
  | inr done ↦ (0, rw done (ap ok (omega arith)), omega arith, ground arith)
]

-- The number of pages that a large request takes with its descriptor.
abbrev pub pages_needed : ℕ → ℕ
pages_needed size = (size + 32 + (pg_size - 1)) / pg_size

-- The order for a request above the largest block size and below 2 ^ 31 is found, and it rounds the
-- number of pages needed down to a power of two: the pages taken hold the request with its
-- descriptor if that number is a power of two, and otherwise they do not.
pub large_order_short :
    (size : ℕ)
    → max_block_size < size
    → size < 2 ^ 31
    → Returns
        (λ order.
          (2 ^ order ≤ pages_needed size)
          × (pages_needed size < 2 ^ suc order)
          × ((pages_needed size ≡ 2 ^ order) × (size + 32 ≤ pg_size * 2 ^ order)
              ⊎ (2 ^ order < pages_needed size) × (pg_size * 2 ^ order < size + 32)))
        (large_order size)
unfolding large_order
large_order_short size lo hi =
    let (l, run, below, above) = halve-log 21 (pages_needed size) 0 (omega arith) (omega arith) in
    let e : 0 + l ≡ l = omega arith in
    rw (run, e)
      (
        below,
        above,
        elim (eq-cases (pages_needed size) (2 ^ l)) [
          | inl same ↦ inl (same, omega arith)
          | inr ne ↦ inr (omega arith, omega arith)
        ],
      )
