-- ===== src/Vma.antt =====
-- kernel/vma.c: the areas of a process's address space, in the order of the list. An area's links and
-- its back pointer are left out; `vm_file` is a number, 0 for NULL.
pub mod Find
mod Tests
use fizzos.Base.{
  ℕ, ◌+◌, ◌-◌, ◌%◌, ◌^◌, Bool, true, false, not, ◌&&◌, ◌||◌, Option, none, some, List, [], ◌∷◌,
  Outcome, ok, panic, ◌>>=◌, ◌>>◌, assert, ◌==◌, ltb, leb, if◌then◌else◌,
}

pub record VmArea : Type 0 where
  pub vm_start : ℕ
  pub vm_end : ℕ
  pub vm_page_prot : ℕ
  pub vm_flags : ℕ
  pub vm_pgoff : ℕ
  pub vm_file : ℕ

unfoldable pub find_vma : List VmArea → ℕ → Option VmArea
find_vma [] addr = none
find_vma (vma ∷ rest) addr = if ltb addr vma.vm_end then some vma else find_vma rest addr

-- An area that does not begin before the end of the range is no answer.
abbrev pub before_end : ℕ → Option VmArea → Option VmArea
before_end end_addr none = none
before_end end_addr (some vma) = if leb end_addr vma.vm_start then none else some vma

pub find_inter_section : List VmArea → ℕ → ℕ → Option VmArea
find_inter_section areas start_addr end_addr = before_end end_addr (find_vma areas start_addr)

abbrev pub task_size : ℕ
task_size = 0xc000_0000

abbrev pub max_of : ℕ → ℕ → ℕ
max_of a b = if ltb b a then a else b

-- The area of a mapping, once its address is known, with its last assertion.
new_area : ℕ → ℕ → ℕ → ℕ → ℕ → Outcome VmArea
new_area file addr len prot offset = do
  let v_end = (addr + len) % 2 ^ 32
  assert (leb 0x804_8000 addr && leb v_end task_size && ltb addr v_end)
  ok (record {
    vm_start = addr;
    vm_end = v_end;
    vm_page_prot = prot;
    vm_flags = 7;
    vm_pgoff = offset;
    vm_file = file;
  })

starts_at : ℕ → List VmArea → Bool
starts_at addr [] = false
starts_at addr (vma ∷ rest) = vma.vm_start == addr

-- Behind the loop: the new area goes between `vma` and `rest`. Areas that touch are PANIC.
put_behind : (ℕ → Outcome VmArea) → ℕ → ℕ → VmArea → List VmArea → Outcome (List VmArea)
unfolding starts_at
put_behind make addr len vma rest = do
  assert (ltb ((vma.vm_end + len) % 2 ^ 32) task_size)
  assert (not (vma.vm_end == addr))
  assert (not (starts_at ((addr + len) % 2 ^ 32) rest))
  v ← make addr
  ok (vma ∷ v ∷ rest)

-- The loop, at `vma` with the areas behind it.
walk : (ℕ → Outcome VmArea) → ℕ → ℕ → VmArea → List VmArea → Outcome (List VmArea)
unfolding put_behind
walk make addr len vma [] = put_behind make addr len vma []
walk make addr len vma (following ∷ rest) =
    let further = walk make (max_of addr vma.vm_end) len following rest in
    if ltb following.vm_start addr
      || ltb ((following.vm_start + 2 ^ 32 - max_of vma.vm_end addr) % 2 ^ 32) len
    then (do behind ← further; ok (vma ∷ behind))
    else put_behind make addr len vma (following ∷ rest)

mmap_in : (ℕ → Outcome VmArea) → ℕ → ℕ → List VmArea → Outcome (List VmArea)
unfolding walk
mmap_in make addr len [] = do v ← make addr; ok (v ∷ [])
mmap_in make addr len (vma ∷ rest) = walk make addr len vma rest

-- The areas afterwards, for the areas before.
pub do_mmap : ℕ → ℕ → ℕ → ℕ → ℕ → List VmArea → Outcome (List VmArea)
unfolding new_area mmap_in
do_mmap file addr len prot offset areas = do
  assert (not (len == 0))
  assert (not (addr == 0))
  assert (leb ((addr + len) % 2 ^ 32) task_size)
  mmap_in (λ a. new_area file a len prot offset) addr len areas

-- Each area is copied; the list is the same.
pub dup_mmap : List VmArea → List VmArea
dup_mmap [] = []
dup_mmap (vma ∷ rest) = vma ∷ dup_mmap rest
