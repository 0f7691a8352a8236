-- ===== src/Paging.antt =====
-- The user memory of processes: page faults of kernel/memory.c, and what kernel/fork.c does with page
-- tables. The tables of a process are one list of entries, by page; an entry that is 0 is none. A page
-- frame is named by a number. The page that get_free_page gives, with a count of 1, is an argument.
pub mod View
pub mod Count
pub mod Fork
pub mod Install
pub mod Protect
pub mod Store
mod Tests
use Prim.Native.Nat.{bit_and}
use fizzos.Base.{
  ℕ, zero, suc, ◌+◌, ◌-◌, ◌*◌, ◌/◌, ◌%◌, ◌^◌, Bool, true, false, not, ◌&&◌, ◌||◌, Option, none,
  some, List, [], ◌∷◌, ◌++◌, Outcome, ok, panic, fault, out_of_fuel, ◌>>=◌, ◌>>◌, assert, ◌==◌, ltb,
  leb, if◌then◌else◌, get_or, set, update,
}
use fizzos.File.{Inode, file_read}
use fizzos.Vma.{VmArea, find_vma}

abbrev pub pg_size : ℕ
pg_size = 4096

-- `writable` is PG_RWE; PG_P and PG_USER are set in each entry.
pub record Pte : Type 0 where
  pub frame : ℕ
  pub writable : Bool

abbrev pub Space : Type 0
Space = List (Option Pte)

-- The tables of the processes, the bytes of the frames, and the counts of their descriptors.
pub record Machine : Type 0 where
  pub spaces : List Space
  pub mem : ℕ → ℕ → ℕ
  pub count : ℕ → ℕ

abbrev pub space_of : ℕ → Machine → Space
space_of p m = get_or m.spaces p []

abbrev pub entry : ℕ → ℕ → Machine → Option Pte
entry p v m = get_or (space_of p m) v none

abbrev pub set_entry : ℕ → ℕ → Option Pte → Machine → Machine
set_entry p v e m = record m { spaces = set m.spaces p (set (space_of p m) v e) }

-- copy_pt: the entries that both processes have then, and the counts.
pub copy_entries : Space → (ℕ → ℕ) → Space × (ℕ → ℕ)
copy_entries [] count = ([], count)
copy_entries (none ∷ rest) count =
    let (copied, count') = copy_entries rest count in (none ∷ copied, count')
copy_entries (some e ∷ rest) count =
    let (copied, count') =
      copy_entries rest (update count e.frame ((count e.frame + 1) % 2 ^ 32)) in
    (some (record e { writable = false }) ∷ copied, count')

-- copy_mm in do_fork: the new process is the last one.
pub copy_mm : ℕ → Machine → Machine
unfolding copy_entries
copy_mm p m =
    let (copied, count) = copy_entries (space_of p m) m.count in
    record m { spaces = set m.spaces p copied ++ (copied ∷ []); count = count }

-- The copy of a page that others use too. free_page of the old one only counts, since its count is not
-- the last. The assertion is the code's.
pub copy_page : ℕ → ℕ → ℕ → ℕ → Machine → Outcome Machine
copy_page p v old new_pg m =
    let tmp = m.count old in
    let m' : Machine = record m {
      mem = update m.mem new_pg (m.mem old);
      count = update (update m.count new_pg 1) old ((tmp + 2 ^ 32 - 1) % 2 ^ 32);
    } in
    assert (tmp == m'.count new_pg + 1)
    >> ok (set_entry p v (some (record { frame = new_pg; writable = true })) m')

-- A write to an entry that is not writable, in an area that may be written to.
pub protect_entry : ℕ → ℕ → ℕ → Option Pte → Machine → Outcome Machine
unfolding copy_page
protect_entry p v new_pg none m = fault
protect_entry p v new_pg (some e) m =
    if ltb 1 (m.count e.frame) && ltb (m.count e.frame) (2 ^ 31)
    then copy_page p v e.frame new_pg m
    else ok (set_entry p v (some (record e { writable = true })) m)

-- The area of page_protect_fault; NULL is read through.
pub protect_in : Option VmArea → ℕ → Outcome Machine → Outcome Machine
protect_in none addr rest = fault
protect_in (some vma) addr rest =
    assert (leb vma.vm_start addr) >> (if bit_and vma.vm_flags 2 == 0 then panic else rest)

pub page_protect_fault : ℕ → List VmArea → ℕ → ℕ → Machine → Outcome Machine
unfolding protect_in protect_entry
page_protect_fault p areas addr new_pg m =
    protect_in (find_vma areas addr) addr
      (protect_entry p (addr / pg_size) new_pg (entry p (addr / pg_size) m) m)

-- The disk, the inodes of the files by their numbers, and what kmalloc leaves in a buffer.
pub record Storage : Type 0 where
  pub disk : ℕ → ℕ → ℕ
  pub inode : ℕ → Inode
  pub dirty : ℕ → ℕ

-- file_read of a page into a page of zeroes.
pub file_page : Storage → ℕ → ℕ → Outcome (ℕ → ℕ)
file_page store f off = do
  (bytes, pos) ← file_read store.disk (store.inode f) pg_size off store.dirty
  ok (λ k. get_or bytes k 0)

abbrev pub file_offset : VmArea → ℕ → ℕ
file_offset vma addr =
    (vma.vm_pgoff + (addr + 2 ^ 32 - vma.vm_start) % 2 ^ 32 / pg_size * pg_size) % 2 ^ 32

-- The bytes of a new page: those of a file, or 0.
pub new_bytes : Storage → VmArea → ℕ → Outcome (ℕ → ℕ)
unfolding file_page
new_bytes store vma addr =
    if vma.vm_file == 0 then ok (λ i. 0) else file_page store vma.vm_file (file_offset vma addr)

-- The first area that ends behind the address; the loop does not look at where it starts.
pub install_in : Storage → Option VmArea → ℕ → ℕ → ℕ → Machine → Outcome Machine
unfolding new_bytes
install_in store none p addr new_pg m = panic
install_in store (some vma) p addr new_pg m =
    let absent = elim (entry p (addr / pg_size) m) as (λ _. Bool) [
      | none ↦ true
      | some e ↦ false
    ] in
    new_bytes store vma addr >>= (λ bytes.
      assert absent
      >> ok (
          set_entry p (addr / pg_size) (some (record { frame = new_pg; writable = true }))
            (record m { mem = update m.mem new_pg bytes; count = update m.count new_pg 1 })))

-- An address outside of user memory is never returned from.
pub page_not_present : Storage → ℕ → List VmArea → ℕ → ℕ → Machine → Outcome Machine
unfolding install_in
page_not_present store p areas addr new_pg m =
    if leb 0xc000_0000 addr || ltb addr 0x804_8000
    then out_of_fuel
    else install_in store (find_vma areas addr) p addr new_pg m

-- `present` is the lowest bit of the error code.
pub page_fault_handler : Storage → Bool → ℕ → List VmArea → ℕ → ℕ → Machine → Outcome Machine
unfolding page_not_present page_protect_fault
page_fault_handler store present p areas addr new_pg m =
    if present
    then page_protect_fault p areas addr new_pg m
    else page_not_present store p areas addr new_pg m

-- The CPU's write to an entry: it raises a page fault if it may not, and tries again behind it.
abbrev write_through : ℕ → ℕ → ℕ → Option Pte → Machine → Outcome Machine
write_through off byte v none m = fault
write_through off byte v (some e) m =
    if e.writable
    then ok (record m { mem = update m.mem e.frame (update (m.mem e.frame) off byte) })
    else fault

abbrev allowed : Option Pte → Bool
allowed none = false
allowed (some e) = e.writable

abbrev is_present : Option Pte → Bool
is_present none = false
is_present (some e) = true

pub write_byte : Storage → ℕ → List VmArea → ℕ → ℕ → ℕ → Machine → Outcome Machine
unfolding page_fault_handler
write_byte store p areas addr byte new_pg m = do
  let v = addr / pg_size
  m' ←
      if allowed (entry p v m)
      then ok m
      else page_fault_handler store (is_present (entry p v m)) p areas addr new_pg m
  write_through (addr % pg_size) byte v (entry p v m') m'
