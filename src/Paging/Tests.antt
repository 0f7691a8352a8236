-- ===== src/Paging/Tests.antt =====
-- A process that gets a page, forks, and writes.
use fizzos.Base.{
  ℕ, zero, suc, ◌+◌, ◌/◌, ◌<◌, ◌≤◌, ◌≡◌, refl, ap, Bool, true, false, Option, none, some, [], ◌∷◌,
  panic, arith, ◌==◌, if◌then◌else◌, get_or, length, Returns, subst, total, le-total,
}
use fizzos.Vma.{VmArea, find_vma}
use fizzos.Paging.{
  pg_size, Pte, Space, Machine, entry, copy_mm, Storage, page_not_present, write_byte,
}
use fizzos.Paging.View.{view}
use fizzos.Paging.Count.{hits, maps, IsSound}
use fizzos.Paging.Fork.{copy_mm-Forked}
use fizzos.Paging.Install.{Faulted, page_not_present-Faulted}
use fizzos.Paging.{protect_entry}
use fizzos.Paging.Protect.{Unshared, protect_entry-Unshared}
use fizzos.Paging.Store.{Stored, write_byte-Stored}

blank : ℕ → Space
blank zero = []
blank (suc n) = none ∷ blank n

blank-length : (n : ℕ) → length (blank n) ≡ n
unfolding blank
blank-length zero = refl
blank-length (suc n) = omega (arith, blank-length n)

blank-get_or : (n v : ℕ) → get_or (blank n) v none ≡ none
unfolding blank
blank-get_or zero v = refl
blank-get_or (suc n) zero = refl
blank-get_or (suc n) (suc v) = blank-get_or n v

blank-hits : (f n : ℕ) → hits f (blank n) ≡ 0
unfolding blank total
blank-hits f zero = refl
blank-hits f (suc n) = omega (arith, blank-hits f n)

abbrev start : Machine
start = record { spaces = blank 40_000 ∷ []; mem = λ f o. 0; count = λ f. 0 }

start-maps : (f : ℕ) → maps f start ≡ 0
unfolding total
start-maps f = omega (arith, blank-hits f 40_000)

start-IsSound : IsSound start
start-IsSound = record {
  counted = λ f pos. absurd (omega (arith, start-maps f));
  exclusive = λ p v e at_p ready. absurd (omega (arith, nothing p v e at_p));
}
  where
    nothing : (p v : ℕ) (e : Pte) → entry p v start ≡ some e → 0 < 0
    nothing zero v e at_p = absurd (ground (arith, blank-get_or 40_000 v))
    nothing (suc p) v e at_p = absurd (ground arith)

abbrev area : VmArea
area = record {
  vm_start = 0x804_8000;
  vm_end = 0x804_a000;
  vm_page_prot = 0;
  vm_flags = 7;
  vm_pgoff = 0;
  vm_file = 4;
}

-- Files of 600 bytes, in sectors 516 and 517.
abbrev storage : Storage
storage = record {
  disk = λ s o. s + o;
  inode = λ f. record { i_size = 600; i_sectors = 516 ∷ 517 ∷ [] };
  dirty = λ k. 0;
}

page_not_present-Faulted_example :
    ((vma : VmArea)
      → find_vma (area ∷ []) 0x804_8010 ≡ some vma
      → Faulted storage 0 vma 0x804_8010 start
          (page_not_present storage 0 (area ∷ []) 0x804_8010 7 start))
    × (find_vma (area ∷ []) 0x804_8010 ≡ none
        → page_not_present storage 0 (area ∷ []) 0x804_8010 7 start ≡ panic)
page_not_present-Faulted_example =
    page_not_present-Faulted storage 0 (area ∷ []) 0x804_8010 7 start start-IsSound
      (blank-get_or 40_000 (0x804_8010 / pg_size)) (omega arith)
      (omega (arith, blank-length 40_000)) (start-maps 7) (omega arith) (omega arith)

-- One page of a process is there, in frame 7.
abbrev one : Machine
one = record {
  spaces = (some (record { frame = 7; writable = true }) ∷ none ∷ []) ∷ [];
  mem = λ f o. f + o;
  count = λ f. 1;
}

one-maps : (f : ℕ) → maps f one ≡ (if 7 == f then 1 else 0)
unfolding total
one-maps f = omega arith

one-IsSound : IsSound one
one-IsSound = record {
  counted = λ f pos. ground (arith, one-maps f);
  exclusive = λ p v e at_p ready. entry_frame p v e at_p;
}
  where
    entry_frame : (p v : ℕ) (e : Pte) → entry p v one ≡ some e → maps e.frame one ≡ 1
    entry_frame zero zero e at_p =
        subst (λ (f : ℕ). maps f one ≡ 1)
          (ap (λ (o : Option Pte). elim o [ none ↦ 0 | some x ↦ x.frame ]) at_p) (one-maps 7)
    entry_frame zero (suc zero) e at_p = absurd (ground arith)
    entry_frame zero (suc (suc v)) e at_p = absurd (ground arith)
    entry_frame (suc p) v e at_p = absurd (ground arith)

copy_mm-Forked_example :
    IsSound (copy_mm 0 one)
    × ((q w off : ℕ) → view (copy_mm 0 one) q w off ≡ view one (if q == 1 then 0 else q) w off)
copy_mm-Forked_example = copy_mm-Forked 0 one (omega arith) (λ f. omega (arith, few f)) one-IsSound
  where
    few : (f : ℕ) → hits f (some (record { frame = 7; writable = true }) ∷ none ∷ []) ≤ 1
    few f =
        omega (arith, le-total (hits f) one.spaces 0 [] (omega arith), one-maps f, at_most (7 == f))
      where
        at_most : (b : Bool) → (if b then 1 else 0) ≤ 1
        at_most true = omega arith
        at_most false = omega arith

-- The page is shared with the new process.
abbrev two : Machine
two = copy_mm 0 one

two_users : maps 7 two ≡ 2
unfolding copy_mm total
two_users = refl

write_byte-Stored_example :
    Returns
      (Stored 1 0 16 42 two)
      (write_byte storage 1 ((record area { vm_start = 0 }) ∷ []) 16 42 9 two)
unfolding copy_mm total find_vma
write_byte-Stored_example =
    write_byte-Stored storage 1 ((record area { vm_start = 0 }) ∷ []) 16 42 9 two
      (record { frame = 7; writable = false }) copy_mm-Forked_example.0 refl
      (omega (arith, two_users))
      (record {
        area = record area { vm_start = 0 };
        found = refl;
        begins = omega arith;
        flag = omega arith;
      })
      refl

protect_entry-Unshared_example :
    (maps 7 two ≤ 2
      → Returns
          (Unshared 0 0 two)
          (protect_entry 0 0 9 (some (record { frame = 7; writable = false })) two))
    × (2 < maps 7 two
        → protect_entry 0 0 9 (some (record { frame = 7; writable = false })) two ≡ panic)
unfolding copy_mm total
protect_entry-Unshared_example =
    protect_entry-Unshared 0 0 9 two (record { frame = 7; writable = false })
      copy_mm-Forked_example.0 refl refl (omega (arith, two_users))
