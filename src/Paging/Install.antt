-- ===== src/Paging/Install.antt =====
-- page_not_present: a page that is not there gets its bytes, and no other page changes.
use mathlib.Core.Path.{ap₂}
use Prim.Native.Nat.{min}
use fizzos.Base.{
  zero, suc, ◌-◌, ◌*◌, Bool, Outcome, ok, get_or, values, fun_ext, le→ltb_false, lt→ltb, ℕ, ◌+◌,
  ◌/◌, ◌<◌, ◌≤◌, ◌≡◌, ◌≢◌, ◌⊎◌, refl, sym, ap, ◌∙◌, true, false, ◌&&◌, ◌||◌, Option, none, some,
  List, panic, arith, ◌==◌, ltb, leb, if◌then◌else◌, length, eq-cases, ==_refl, ne→==_false, inl,
  inr, subst, Returns, update,
}
use fizzos.File.{max_sectors, sector_size}
use fizzos.File.Blocks.{content, IsAllocated}
use fizzos.File.Read.{file_read-content, file_read-panic}
use fizzos.Vma.{VmArea, find_vma}
use fizzos.Paging.{
  pg_size, Pte, Machine, space_of, entry, set_entry, Storage, file_page, file_offset, new_bytes,
  install_in, page_not_present,
}
use fizzos.Paging.View.{byte_at, view, entry-set_entry, entry_after}
use fizzos.Paging.Count.{slot_hits, maps, IsSound, IsFresh, maps-set_entry, entry-maps, slot_self}

-- The page is there with the bytes given, and nobody else sees a difference.
pub record Installed (bytes : ℕ → ℕ) (p v : ℕ) (m m' : Machine) : Type 0 where
  pub sound : IsSound m'
  pub here : (off : ℕ) → view m' p v off ≡ some (bytes off)
  pub elsewhere : (q w off : ℕ) → (q ≢ p) ⊎ (w ≢ v) → view m' q w off ≡ view m q w off

module _ (bytes : ℕ → ℕ) (p v new_pg : ℕ) (m : Machine) (s : IsSound m)
    (absent : entry p v m ≡ none) (hp : p < length m.spaces) (hv : v < length (space_of p m))
    (fresh : IsFresh new_pg m) where
  abbrev page : Pte
  page = record { frame = new_pg; writable = true }

  abbrev filled : Machine
  filled = record m { mem = update m.mem new_pg bytes; count = update m.count new_pg 1 }

  abbrev after : Machine
  after = set_entry p v (some page) filled

  after-maps : (f : ℕ) → maps f after ≡ maps f m + slot_hits f (some page)
  after-maps f = omega (arith, maps-set_entry m p v f (some page) hp hv, ap (slot_hits f) absent)

  -- The frame of an entry that is there is another one.
  in_use : (q w : ℕ) (e : Pte) → entry q w m ≡ some e → e.frame ≢ new_pg
  in_use q w e at_q same =
      absurd (omega (arith, fresh, entry-maps m q w e at_q, ap (λ (f : ℕ). maps f m) same))

  one_user : maps new_pg after ≡ 1
  one_user = omega (arith, after-maps new_pg, fresh, slot_self page)

  unchanged : (f : ℕ) → f ≢ new_pg → maps f after ≡ maps f m
  unchanged f ne = omega (arith, after-maps f, no_hit)
    where
      no_hit : slot_hits f (some page) ≡ 0
      no_hit = rw (ne→==_false new_pg f (λ e. ne (sym e))) refl

  after-IsSound : IsSound after
  after-IsSound = record { counted = counted; exclusive = exclusive }
    where
      counted : (f : ℕ) → 0 < maps f after → after.count f ≡ maps f after
      counted f pos = elim (eq-cases f new_pg) [
        | inl new ↦ rw new (rw (==_refl new_pg) (sym one_user))
        | inr old ↦
            rw (ne→==_false f new_pg old)
              (s.counted f (omega (arith, unchanged f old)) ∙ sym (unchanged f old))
      ]

      exclusive :
          (q w : ℕ) (e : Pte)
          → entry q w after ≡ some e
          → e.writable ≡ true
          → maps e.frame after ≡ 1
      exclusive q w e at_q ready = elim (entry_after m p v q w (some page) e hp hv at_q) [
        | inl (a, b, c) ↦ subst (λ (f : ℕ). maps f after ≡ 1) (frame_of c) one_user
        | inr (other, before) ↦
            unchanged e.frame (in_use q w e before) ∙ s.exclusive q w e before ready
      ]
        where
          frame_of : some page ≡ some e → new_pg ≡ e.frame
          frame_of c = ap (λ (o : Option Pte). get_frame o) c
            where
              get_frame : Option Pte → ℕ
              get_frame none = 0
              get_frame (some x) = x.frame

  same_bytes :
      (off q w : ℕ) (o : Option Pte)
      → entry q w m ≡ o
      → byte_at after.mem off o ≡ byte_at m.mem off o
  same_bytes off q w none at_q = refl
  same_bytes off q w (some e) at_q = rw (ne→==_false e.frame new_pg (in_use q w e at_q)) refl

  after-Installed : Installed bytes p v m after
  after-Installed = record {
    sound = after-IsSound;
    here = λ off.
        ap (byte_at after.mem off) (entry-set_entry m p v p v (some page) hp hv)
        ∙ rw (==_refl p, ==_refl v, ==_refl new_pg) refl;
    elsewhere = λ q w off apart.
        ap (byte_at after.mem off) (entry-set_entry m p v q w (some page) hp hv ∙ skip q w apart)
        ∙ same_bytes off q w (entry q w m) refl;
  }
    where
      skip :
          (q w : ℕ)
          → (q ≢ p) ⊎ (w ≢ v)
          → (if (q == p) && (w == v) then some page else entry q w m) ≡ entry q w m
      skip q w (inl ne) = rw (ne→==_false q p ne) refl
      skip q w (inr ne) = elim (eq-cases q p) [
        | inl same ↦ rw (same, ==_refl p, ne→==_false w v ne) refl
        | inr other ↦ rw (ne→==_false q p other) refl
      ]

-- What file_read of a page gives behind an offset of a file, with 0 behind its end.
abbrev pub page_of : Storage → ℕ → ℕ → ℕ → ℕ
page_of store f off k =
    if ltb k (min pg_size ((store.inode f).i_size - off))
    then content store.disk (store.inode f) (off + k)
    else 0

-- file_read of a page takes the file: it has a sector for each byte, and is not larger than a file can be.
abbrev pub IsReadable : Storage → ℕ → Type 0
IsReadable store f =
    IsAllocated store.disk (store.inode f) × ((store.inode f).i_size ≤ max_sectors * sector_size)

get_or-values :
    (f : ℕ → ℕ) (a n k : ℕ) → get_or (values f a n) k 0 ≡ (if ltb k n then f (a + k) else 0)
unfolding values
get_or-values f a zero k = rw (le→ltb_false k 0 (omega arith)) refl
get_or-values f a (suc n) zero = rw (lt→ltb 0 (suc n) (omega arith)) (ap f (omega arith))
get_or-values f a (suc n) (suc k) =
    get_or-values f (a + 1) n k
    ∙ ap₂ (λ (b : Bool) (x : ℕ). if b then f x else 0) (same_test k n) (omega arith)
  where
    same_test : (k n : ℕ) → ltb k n ≡ ltb (suc k) (suc n)
    same_test k n = ground arith

new_bytes-page_of :
    (store : Storage) (vma : VmArea) (addr : ℕ)
    → vma.vm_file ≢ 0
    → IsReadable store vma.vm_file
    → file_offset vma addr ≤ (store.inode vma.vm_file).i_size
    → new_bytes store vma addr ≡ ok (page_of store vma.vm_file (file_offset vma addr))
unfolding new_bytes file_page
new_bytes-page_of store vma addr is_file (alloc, size) inside =
    rw
      (
        ne→==_false vma.vm_file 0 is_file,
        file_read-content store.disk (store.inode vma.vm_file) pg_size (file_offset vma addr)
            store.dirty alloc size inside,
      )
      (ap ok (
        fun_ext (λ k.
          get_or-values (content store.disk (store.inode vma.vm_file)) (file_offset vma addr)
            (min pg_size ((store.inode vma.vm_file).i_size - file_offset vma addr)) k)))

new_bytes-panic :
    (store : Storage) (vma : VmArea) (addr : ℕ)
    → vma.vm_file ≢ 0
    → (store.inode vma.vm_file).i_size < file_offset vma addr
    → new_bytes store vma addr ≡ panic
unfolding new_bytes file_page
new_bytes-panic store vma addr is_file beyond =
    rw
      (
        ne→==_false vma.vm_file 0 is_file,
        file_read-panic store.disk (store.inode vma.vm_file) pg_size (file_offset vma addr)
            store.dirty beyond,
      )
      refl

-- What a fault at an address does for an area: a page of zeroes, or of the bytes of its file from the
-- page's offset on, where the offset is not behind the end of the file; else the kernel stops.
pub record Faulted (store : Storage) (p : ℕ) (vma : VmArea) (addr : ℕ) (m : Machine)
    (result : Outcome Machine) : Type 0 where
  pub zeroes : vma.vm_file ≡ 0 → Returns (Installed (λ i. 0) p (addr / pg_size) m) result
  pub bytes :
      vma.vm_file ≢ 0
      → IsReadable store vma.vm_file
      → file_offset vma addr ≤ (store.inode vma.vm_file).i_size
      → Returns
          (Installed (page_of store vma.vm_file (file_offset vma addr)) p (addr / pg_size) m)
          result
  pub beyond :
      vma.vm_file ≢ 0 → (store.inode vma.vm_file).i_size < file_offset vma addr → result ≡ panic

-- A page fault at an address of user memory whose page is not there, in a sound machine, with a
-- frame that nobody uses. If an area ends behind the address, the first that does decides: without a
-- file the page gets zeroes; with one that can be read, and that does not end before the offset of the
-- page, the page gets the bytes of the file from there on, and zeroes behind its end; every other page
-- of every process is then what it was, and the machine is sound; with a file that ends before that
-- offset, the kernel stops. It stops too if no area ends behind the address.
pub page_not_present-Faulted :
    (store : Storage) (p : ℕ) (areas : List VmArea) (addr new_pg : ℕ) (m : Machine)
    → IsSound m
    → entry p (addr / pg_size) m ≡ none
    → p < length m.spaces
    → addr / pg_size < length (space_of p m)
    → IsFresh new_pg m
    → 0x804_8000 ≤ addr
    → addr < 0xc000_0000
    → ((vma : VmArea)
        → find_vma areas addr ≡ some vma
        → Faulted store p vma addr m (page_not_present store p areas addr new_pg m))
      × (find_vma areas addr ≡ none → page_not_present store p areas addr new_pg m ≡ panic)
unfolding page_not_present install_in new_bytes
page_not_present-Faulted store p areas addr new_pg m s absent hp hv fresh low high =
    (mapped, unmapped)
  where
    in_user : leb 0xc000_0000 addr || ltb addr 0x804_8000 ≡ false
    in_user = ground arith

    mapped :
        (vma : VmArea)
        → find_vma areas addr ≡ some vma
        → Faulted store p vma addr m (page_not_present store p areas addr new_pg m)
    mapped vma found = record {
      zeroes = λ none_there.
          rw (in_user, found, absent, none_there)
            (after-Installed (λ i. 0) p (addr / pg_size) new_pg m s absent hp hv fresh);
      bytes = λ is_file readable inside.
          rw (in_user, found, absent, new_bytes-page_of store vma addr is_file readable inside)
            (after-Installed (page_of store vma.vm_file (file_offset vma addr)) p (addr / pg_size)
              new_pg m s absent hp hv fresh);
      beyond = λ is_file lt. rw (in_user, found, new_bytes-panic store vma addr is_file lt) refl;
    }

    unmapped : find_vma areas addr ≡ none → page_not_present store p areas addr new_pg m ≡ panic
    unmapped none_there = rw (in_user, none_there) refl
