-- ===== src/Buddy.antt =====
-- kernel/buddy.c: page groups of 2 ^ order pages. A page is named by its number, its index in mem_map.
-- Interrupts are off in alloc_pages and __free_pages, so each is one step.
pub mod Total
pub mod Split
pub mod Alloc
mod Tests
use fizzos.Base.{
  ℕ, zero, suc, ◌+◌, ◌-◌, ◌*◌, ◌/◌, ◌%◌, ◌^◌, Bool, true, false, ◌&&◌, List, [], ◌∷◌, ◌++◌, Outcome,
  ok, panic, fault, ◌>>=◌, ◌>>◌, assert, delete_elem, ◌==◌, ltb, leb, if◌then◌else◌, update,
}
use fizzos.Bitmap.{Bitmap, bitmap_reverse, test_bit}

abbrev pub max_order : ℕ
max_order = 10

abbrev pub pg_size : ℕ
pg_size = 4096

abbrev pub kernel_vaddr_start : ℕ
kernel_vaddr_start = 0xc000_0000

pub record FreeArea : Type 0 where
  pub nr_free : ℕ
  pub bmap : Bitmap
  pub pg_list : List ℕ

-- A pool: the free groups of each order.
abbrev pub Areas : Type 0
Areas = ℕ → FreeArea

-- `private` and `count` are fields of the page descriptors.
pub record Buddy : Type 0 where
  pub kernel_area : Areas
  pub user_area : Areas
  pub user_start_idx : ℕ
  pub private : ℕ → ℕ
  pub count : ℕ → ℕ

abbrev pub area_of : Bool → Buddy → Areas
area_of true b = b.user_area
area_of false b = b.kernel_area

abbrev pub set_area : Bool → Areas → Buddy → Buddy
set_area true a b = record b { user_area = a }
set_area false a b = record b { kernel_area = a }

-- `while (--o >= order)`, from order + k on down: the upper half of the group goes back.
pub split_down : ℕ → ℕ → ℕ → ℕ → Areas → Outcome Areas
split_down zero order idx size a = ok a
split_down (suc k) order idx size a = do
  let o = order + k
  (bit, bmap) ← bitmap_reverse (idx / 2 ^ (o + 1)) (a o).bmap
  let fewer : FreeArea = record {
    nr_free = (a o).nr_free + 1;
    bmap = bmap;
    pg_list = (a o).pg_list ++ ((idx + size) ∷ []);
  }
  split_down k order idx (size / 2) (update a o fewer)

-- A group of order `o`, which has one, is taken and cut down to `order`.
pub take_group : ℕ → ℕ → List ℕ → Areas → Outcome (ℕ × Areas)
take_group o order [] a = fault
take_group o order (idx ∷ rest) a = do
  (bit, bmap) ← bitmap_reverse (idx / 2 ^ (o + 1)) (a o).bmap
  let taken : FreeArea = record { nr_free = (a o).nr_free - 1; bmap = bmap; pg_list = rest }
  a ← split_down (o - order) order idx (2 ^ o / 2) (update a o taken)
  ok (idx, a)

-- The search for an order that has a free group, in the `n` orders from `o` on.
pub alloc_from : ℕ → ℕ → ℕ → Areas → Outcome (ℕ × Areas)
alloc_from zero o order a = panic
alloc_from (suc n) o order a =
    let further = alloc_from n (o + 1) order a in
    if ltb 0 (a o).nr_free then take_group o order (a o).pg_list a else further

-- `user` is the flag's bit USER_POOL.
pub alloc_pages : Bool → ℕ → Buddy → Outcome (ℕ × Buddy)
alloc_pages user order b = do
  assert (leb order max_order)
  (pg, a) ← alloc_from (max_order + 1 - order) order order (area_of user b)
  ok (
    pg,
    record (set_area user a b) { private = update b.private pg order; count = update b.count pg 1 },
  )

-- `idx ^ (1 << order)` and `idx & ~(1 << order)`.
abbrev pub buddy_of : ℕ → ℕ → ℕ
buddy_of idx order = if test_bit idx order then idx - 2 ^ order else idx + 2 ^ order

abbrev pub pair_start : ℕ → ℕ → ℕ
pair_start idx order = if test_bit idx order then idx - 2 ^ order else idx

-- The merging loop, with `n` orders left below max_order: where the group starts, its order, and the
-- areas.
pub merge_up : ℕ → ℕ → ℕ → Areas → Outcome (ℕ × ℕ × Areas)
merge_up zero idx order a = ok (idx, order, a)
merge_up (suc n) idx order a = do
  (bit, bmap) ← bitmap_reverse (idx / 2 ^ (order + 1)) (a order).bmap
  let rest = λ (left : List ℕ).
      merge_up n (pair_start idx order) (order + 1)
        (update a order (record { nr_free = (a order).nr_free - 1; bmap = bmap; pg_list = left }))
  if bit == 0
      then delete_elem (buddy_of idx order) (a order).pg_list >>= rest
      else ok (idx, order, update a order (record (a order) { bmap = bmap }))

-- The group at `idx` is put in front, for the next request.
pub give_back : ℕ → ℕ → Areas → Outcome Areas
give_back idx order a = do
  (start, o, a) ← merge_up (max_order - order) idx order a
  ok (update a o (record (a o) { nr_free = (a o).nr_free + 1; pg_list = start ∷ (a o).pg_list }))

-- The last user of a group gives it back. The test is on the exact difference, also where it overflows.
pub free_group : ℕ → ℕ → Buddy → Outcome Buddy
free_group pg order b = do
  let left = (b.count pg + 2 ^ 32 - 1) % 2 ^ 32
  let b = record b { count = update b.count pg left }
  if ltb 0 left && ltb left (2 ^ 31 - 1) then ok b else (do
    let user = leb b.user_start_idx pg
    assert (order == b.private pg)
    a ← give_back pg order (area_of user b)
    ok (set_area user a b))

-- The address of a page in the kernel, and the page of a physical address.
pub page_address : ℕ → ℕ
page_address pg = (pg * pg_size + kernel_vaddr_start) % 2 ^ 32

pub paddr2pg : ℕ → ℕ
paddr2pg paddr = paddr / pg_size

pub get_free_pages : Bool → ℕ → Buddy → Outcome (ℕ × Buddy)
unfolding page_address alloc_pages
get_free_pages user order b = do (pg, b) ← alloc_pages user order b; ok (page_address pg, b)

-- `paddr` is what get_paddr says of the address.
pub free_pages : ℕ → ℕ → ℕ → Buddy → Outcome Buddy
unfolding paddr2pg free_group
free_pages addr paddr order b = assert (addr % 4096 == 0) >> free_group (paddr2pg paddr) order b
