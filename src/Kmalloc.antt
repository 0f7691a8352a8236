-- ===== src/Kmalloc.antt =====
-- kernel/memory.c, kmalloc and kfree: blocks of seven sizes cut from pages, and groups of pages for
-- larger requests. A page descriptor is found by the address of its page. The pages themselves are
-- given by kernel/buddy.c: `fresh` is the address that get_free_page or get_free_pages returns.
pub mod Sizes
mod Tests
use fizzos.Base.{
  ℕ, zero, suc, ◌+◌, ◌-◌, ◌*◌, ◌/◌, Bool, true, false, not, ◌&&◌, Option, none, some, List, [], ◌∷◌,
  ◌++◌, Outcome, ok, panic, fault, out_of_fuel, ◌>>=◌, ◌>>◌, assert, contains, remove_elem,
  delete_elem, ◌==◌, ltb, leb, if◌then◌else◌, get_or, get_elem?, update,
}

abbrev pub pg_size : ℕ
pg_size = 4096

abbrev pub max_block_size : ℕ
max_block_size = 2032

abbrev pub mem_block_size : List ℕ
mem_block_size = 32 ∷ 64 ∷ 116 ∷ 238 ∷ 508 ∷ 1016 ∷ 2032 ∷ []

abbrev pub mem_block_count : List ℕ
mem_block_count = 127 ∷ 63 ∷ 35 ∷ 17 ∷ 8 ∷ 4 ∷ 2 ∷ []

-- `count` is the union's field of that name where `large` is false, and its field `order` where it is
-- true.
pub record MemBlockDesc : Type 0 where
  pub block_list : List ℕ
  pub count : ℕ
  pub remain : ℕ
  pub mlist_idx : ℕ
  pub large : Bool

-- The lists hold page addresses, for each size class those with free blocks and those without.
pub record Pool : Type 0 where
  pub desc : ℕ → Option MemBlockDesc
  pub mblock_part : ℕ → List ℕ
  pub mblock_full : ℕ → List ℕ

-- `while (cnt > 1) { cnt /= 2; order++; }`
halve : ℕ → ℕ → ℕ → Outcome ℕ
halve zero cnt order = out_of_fuel
halve (suc k) cnt order =
    let rest = halve k (cnt / 2) (order + 1) in if ltb 1 cnt then rest else ok order

-- The order of the page group for a large request; a page count below 2 ^ 20 takes at most 20 rounds.
pub large_order : ℕ → Outcome ℕ
unfolding halve
large_order size = halve 21 ((size + 32 + (pg_size - 1)) / pg_size) 0

-- The first class whose blocks are large enough; 7 if there is none.
class_from : List ℕ → ℕ → ℕ → ℕ
class_from [] size idx = idx
class_from (s ∷ sizes) size idx = if leb size s then idx else class_from sizes size (idx + 1)

pub block_class : ℕ → ℕ
unfolding class_from
block_class size = class_from mem_block_size size 0

-- The blocks of a page, behind the 32 bytes of its descriptor.
blocks_from : ℕ → ℕ → ℕ → ℕ → List ℕ
blocks_from zero base size i = []
blocks_from (suc n) base size i = (base + 32 + size * i) ∷ blocks_from n base size (i + 1)

get_desc : Pool → ℕ → Outcome MemBlockDesc
get_desc pool page = elim (pool.desc page) [ none ↦ fault | some d ↦ ok d ]

-- The block that list_pop_front of the page's list returns (NULL if it is empty), and the pool.
pop_block : ℕ → MemBlockDesc → Pool → ℕ × Pool
pop_block page d pool = pop_from d.block_list
  where
    pop_from : List ℕ → ℕ × Pool
    pop_from [] = (0, record pool { desc = update pool.desc page (some d) })
    pop_from (b ∷ rest) =
        (b, record pool { desc = update pool.desc page (some (record d { block_list = rest })) })

kmalloc_large : ℕ → ℕ → Pool → Outcome (ℕ × Pool)
kmalloc_large size fresh pool = do
  order ← large_order size
  let d : MemBlockDesc = record {
    block_list = [];
    count = order;
    remain = 0;
    mlist_idx = 0;
    large = true;
  }
  ok (fresh + 32, record pool { desc = update pool.desc fresh (some d) })

-- The page goes into the list of its class, and the class's list was empty. (The code puts it there
-- twice, which leaves a list of one page.)
kmalloc_new_page : ℕ → ℕ → Pool → ℕ × Pool
unfolding blocks_from pop_block
kmalloc_new_page idx fresh pool =
    let count : ℕ = get_or mem_block_count idx 0 in
    let d : MemBlockDesc = record {
      block_list = blocks_from count fresh (get_or mem_block_size idx 0) 0;
      count = count;
      remain = count - 1;
      mlist_idx = idx;
      large = false;
    } in
    pop_block fresh d (record pool { mblock_part = update pool.mblock_part idx (fresh ∷ []) })

kmalloc_from : ℕ → ℕ → List ℕ → Pool → Outcome (ℕ × Pool)
unfolding get_desc pop_block
kmalloc_from idx page rest pool = do
  d ← get_desc pool page
  let d = record d { remain = d.remain - 1 }
  ok (
      pop_block page d (
        if d.remain == 0
        then record pool {
          mblock_part = update pool.mblock_part idx rest;
          mblock_full = update pool.mblock_full idx (pool.mblock_full idx ++ (page ∷ []));
        }
        else pool))

kmalloc_small : ℕ → ℕ → List ℕ → Pool → Outcome (ℕ × Pool)
unfolding kmalloc_new_page kmalloc_from
kmalloc_small idx fresh [] pool = ok (kmalloc_new_page idx fresh pool)
kmalloc_small idx fresh (page ∷ rest) pool = kmalloc_from idx page rest pool

pub kmalloc : ℕ → ℕ → Pool → Outcome (ℕ × Pool)
unfolding large_order block_class kmalloc_large kmalloc_small
kmalloc size fresh pool = if ltb max_block_size size then kmalloc_large size fresh pool else (do
  let idx = block_class size
  assert (ltb idx 7)
  kmalloc_small idx fresh (pool.mblock_part idx) pool)

-- What kfree gives back to the page allocator: a page group and its order.
abbrev pub Freed : Type 0
Freed = Option (ℕ × ℕ)

kfree_full : ℕ → ℕ → MemBlockDesc → Pool → Outcome (Freed × Pool)
unfolding delete_elem contains
kfree_full page addr d pool = do
  let idx = d.mlist_idx
  assert (not (contains page (pool.mblock_part idx)))
  full ← delete_elem page (pool.mblock_full idx)
  assert (d.remain == 0)
  ok (
    none,
    record pool {
      desc =
          update pool.desc page
            (some (record d { remain = d.remain + 1; block_list = d.block_list ++ (addr ∷ []) }));
      mblock_part = update pool.mblock_part idx (pool.mblock_part idx ++ (page ∷ []));
      mblock_full = update pool.mblock_full idx full;
    },
  )

kfree_part : ℕ → ℕ → MemBlockDesc → Pool → Outcome (Freed × Pool)
unfolding delete_elem contains
kfree_part page addr d pool = do
  let idx = d.mlist_idx
  assert (contains page (pool.mblock_part idx))
  assert (ltb d.remain d.count)
  part ← delete_elem page (pool.mblock_part idx)
  if d.remain + 1 == d.count
      then ok (
        some (page, 0),
        record pool {
          desc = update pool.desc page none;
          mblock_part = update pool.mblock_part idx part;
        },
      )
      else ok (
        none,
        record pool {
          desc =
              update pool.desc page (
                some
                  (record d { remain = d.remain + 1; block_list = d.block_list ++ (addr ∷ []) }));
        },
      )

-- The descriptor is at the start of the page that the address lies in.
pub kfree : ℕ → Pool → Outcome (Freed × Pool)
unfolding get_desc kfree_full kfree_part contains
kfree addr pool = do
  let page = addr / pg_size * pg_size
  d ← get_desc pool page
  if d.large
      then ok (some (page, d.count), record pool { desc = update pool.desc page none })
      else if contains page (pool.mblock_full d.mlist_idx)
      then kfree_full page addr d pool
      else kfree_part page addr d pool
