-- ===== src/Vma/Tests.antt =====
-- kernel/vma.c on two areas, and its theorem there.
use fizzos.Base.{ℕ, ◌≡◌, refl, arith, List, [], ◌∷◌, ok}
use fizzos.Vma.{VmArea, find_inter_section, do_mmap}
use fizzos.Vma.Find.{IsSorted, Meets, find_inter_section-Meets}

abbrev area : ℕ → ℕ → VmArea
area lo hi = record {
  vm_start = lo;
  vm_end = hi;
  vm_page_prot = 0;
  vm_flags = 7;
  vm_pgoff = 0;
  vm_file = 0;
}

abbrev two : List VmArea
two = area 0x804_8000 0x804_a000 ∷ area 0x805_0000 0x805_1000 ∷ []

two-IsSorted : IsSorted two
two-IsSorted = (omega arith, (omega arith, tt), (omega arith, tt, tt))

find_inter_section-Meets_example :
    Meets 0x804_9000 0x804_b000 two (find_inter_section two 0x804_9000 0x804_b000)
find_inter_section-Meets_example = find_inter_section-Meets two 0x804_9000 0x804_b000 two-IsSorted

maps_between :
    do_mmap 0 0x804_c000 0x1000 0 0 two
    ≡ ok (area 0x804_8000 0x804_a000 ∷ area 0x804_c000 0x804_d000 ∷ area 0x805_0000 0x805_1000 ∷ [])
unfolding do_mmap
maps_between = refl

-- An address inside the last area is taken as it is.
maps_over :
    do_mmap 0 0x804_9000 0x1000 0 0 (area 0x804_8000 0x804_a000 ∷ [])
    ≡ ok (area 0x804_8000 0x804_a000 ∷ area 0x804_9000 0x804_a000 ∷ [])
unfolding do_mmap
maps_over = refl
