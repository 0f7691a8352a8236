-- ===== src/Paging/Store.antt =====
-- A write of the CPU with the page faults that it raises: what it changes, and who sees it.
use Prim.Native.Nat.{bit_and}
use fizzos.Base.{
  ℕ, ◌/◌, ◌%◌, ◌≤◌, ◌≡◌, ◌≢◌, ◌⊎◌, refl, sym, ◌∙◌, true, Option, none, some, List, Outcome, ◌>>=◌,
  arith, eq-cases, ==_refl, ne→==_false, inl, inr, Returns, Returns-bind, update, Bool-cases,
  le→leb,
}
use fizzos.Vma.{VmArea, find_vma}
use fizzos.Paging.{
  Storage, pg_size, Pte, Machine, entry, write_byte, write_through, page_fault_handler,
  page_protect_fault, protect_entry, protect_in,
}
use fizzos.Paging.View.{byte_at, view}
use fizzos.Paging.Count.{maps, IsSound, IsFresh, two_entries-maps}
use fizzos.Paging.Protect.{Unshared, protect_entry-Unshared}

-- One byte of the page of one process is written, and nothing else changes for anybody.
pub record Stored (p v off byte : ℕ) (m m' : Machine) : Type 0 where
  pub sound : IsSound m'
  pub written : view m' p v off ≡ some byte
  pub others : (q w o : ℕ) → (q ≢ p) ⊎ (w ≢ v) ⊎ (o ≢ off) → view m' q w o ≡ view m q w o

-- The write to a page that one entry names.
module _ (p v off byte : ℕ) (m : Machine) (e : Pte) (s : IsSound m) (h : entry p v m ≡ some e)
    (ready : e.writable ≡ true) where
  abbrev after : Machine
  after = record m { mem = update m.mem e.frame (update (m.mem e.frame) off byte) }

  -- Another entry names another frame.
  other_frame :
      (q w : ℕ) (e' : Pte) → entry q w m ≡ some e' → (q ≢ p) ⊎ (w ≢ v) → e'.frame ≢ e.frame
  other_frame q w e' at_q apart same = absurd (
      omega (
        arith,
        two_entries-maps m p v q w e e' h at_q same (back apart),
        s.exclusive p v e h ready,
      ))
    where
      back : (q ≢ p) ⊎ (w ≢ v) → (p ≢ q) ⊎ (v ≢ w)
      back (inl ne) = inl (λ k. ne (sym k))
      back (inr ne) = inr (λ k. ne (sym k))

  elsewhere :
      (q w o : ℕ) (e' : Option Pte)
      → entry q w m ≡ e'
      → (q ≢ p) ⊎ (w ≢ v)
      → byte_at after.mem o e' ≡ byte_at m.mem o e'
  elsewhere q w o none at_q apart = refl
  elsewhere q w o (some e') at_q apart =
      rw (ne→==_false e'.frame e.frame (other_frame q w e' at_q apart)) refl

  same_page : (o : ℕ) → o ≢ off → byte_at after.mem o (entry p v m) ≡ byte_at m.mem o (entry p v m)
  same_page o ne = rw (h, ==_refl e.frame, ne→==_false o off ne) refl

  after-Stored : Stored p v off byte m after
  after-Stored = record {
    sound = record { counted = s.counted; exclusive = s.exclusive };
    written = rw (h, ==_refl e.frame, ==_refl off) refl;
    others = others;
  }
    where
      others : (q w o : ℕ) → (q ≢ p) ⊎ (w ≢ v) ⊎ (o ≢ off) → view after q w o ≡ view m q w o
      others q w o (inl ne) = elsewhere q w o (entry q w m) refl (inl ne)
      others q w o (inr (inl ne)) = elsewhere q w o (entry q w m) refl (inr ne)
      others q w o (inr (inr ne)) = elim (eq-cases q p) [
        | inr apart ↦ elsewhere q w o (entry q w m) refl (inl apart)
        | inl same_q ↦ elim (eq-cases w v) [
          | inr apart ↦ elsewhere q w o (entry q w m) refl (inr apart)
          | inl same_w ↦ rw (same_q, same_w) (same_page o ne)
        ]
      ]

write_through-Stored :
    (p v off byte : ℕ) (m : Machine) (e : Pte)
    → IsSound m
    → entry p v m ≡ some e
    → e.writable ≡ true
    → Returns (Stored p v off byte m) (write_through off byte v (entry p v m) m)
write_through-Stored p v off byte m e s h ready =
    rw (h, ready) (after-Stored p v off byte m e s h ready)

-- A write behind a fault that left the page to the process alone.
after_fault :
    (p v off byte : ℕ) (m : Machine) (run : Outcome Machine)
    → Returns (Unshared p v m) run
    → Returns (Stored p v off byte m) (run >>= (λ m'. write_through off byte v (entry p v m') m'))
after_fault p v off byte m run u =
    Returns-bind (Unshared p v m) (Stored p v off byte m) run _ u (λ m' u'. step m' u' u'.ready)
  where
    carry :
        (m' m'' : Machine)
        → Unshared p v m m'
        → Stored p v off byte m' m''
        → Stored p v off byte m m''
    carry m' m'' u' st = record {
      sound = st.sound;
      written = st.written;
      others = λ q w o ne. st.others q w o ne ∙ u'.looks q w o;
    }

    step :
        (m' : Machine)
        → Unshared p v m m'
        → (e : Pte) × (entry p v m' ≡ some e) × (e.writable ≡ true)
        → Returns (Stored p v off byte m) (write_through off byte v (entry p v m') m')
    step m' u' (e, at_p, ready) =
        rw (at_p, ready) (carry m' _ u' (after-Stored p v off byte m' e u'.sound at_p ready))

-- An area that a write to an address is allowed in.
pub record IsWritable (areas : List VmArea) (addr : ℕ) : Type 0 where
  pub area : VmArea
  pub found : find_vma areas addr ≡ some area
  pub begins : area.vm_start ≤ addr
  pub flag : bit_and area.vm_flags 2 ≢ 0

protect_in_area :
    (areas : List VmArea) (addr : ℕ) (rest : Outcome Machine)
    → IsWritable areas addr
    → protect_in (find_vma areas addr) addr rest ≡ rest
unfolding protect_in
protect_in_area areas addr rest a =
    rw
      (
        a.found,
        le→leb a.area.vm_start addr a.begins,
        ne→==_false (bit_and a.area.vm_flags 2) 0 a.flag,
      )
      refl

-- A write in an area that may be written to, to a page that is there and that at most two entries
-- of a sound machine name, with a frame that nobody uses for a copy: whether the process may write
-- to the page at once or shares it, the write returns, its byte is there, no other place of any
-- process changes, and the machine is sound.
pub write_byte-Stored :
    (store : Storage) (p : ℕ) (areas : List VmArea) (addr byte new_pg : ℕ) (m : Machine) (e : Pte)
    → IsSound m
    → entry p (addr / pg_size) m ≡ some e
    → maps e.frame m ≤ 2
    → IsWritable areas addr
    → IsFresh new_pg m
    → Returns
        (Stored p (addr / pg_size) (addr % pg_size) byte m)
        (write_byte store p areas addr byte new_pg m)
unfolding write_byte page_fault_handler page_protect_fault
write_byte-Stored store p areas addr byte new_pg m e s h few a fresh =
    elim (Bool-cases e.writable) [
      | inl ready ↦
          rw (h, ready)
            (write_through-Stored p (addr / pg_size) (addr % pg_size) byte m e s h ready)
      | inr shared ↦
          rw
            (
              h,
              shared,
              protect_in_area areas addr (protect_entry p (addr / pg_size) new_pg (some e) m) a,
            )
            (after_fault p (addr / pg_size) (addr % pg_size) byte m
              (protect_entry p (addr / pg_size) new_pg (some e) m)
              ((protect_entry-Unshared p (addr / pg_size) new_pg m e s h fresh (omega arith)).0
                few))
    ]
