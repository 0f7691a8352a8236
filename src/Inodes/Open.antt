-- ===== src/Inodes/Open.antt =====
-- Inodes in memory: inode_open and inode_close, inode_alloc and inode_delete.
use fizzos.Base.{
  ℕ, ◌+◌, ◌-◌, ◌*◌, ◌%◌, ◌^◌, ◌<◌, ◌≤◌, ◌≡◌, inl, inr, refl, sym, ap, ◌∙◌, true, false, Option,
  none, some, List, [], ◌∷◌, arith, ◌==◌, lt→ltb, eq-cases, ok, ◌>>=◌, Returns, Returns-ok,
  ne→==_false, ==_refl, replicate, Bool-cases, ==_iff,
}
use fizzos.Bitmap.{Bitmap, bitmap_scan_set, bitmap_reset}
use fizzos.Bitmap.Bits.{is_set, IsValid, Updated, bitmap_reset-Updated, is_set_run}
use fizzos.Bitmap.Alloc.{IsFirstClear, bitmap_scan_set-Updated}
use fizzos.Inodes.Sync.{HasTable, inode_at, read_inode-inode_at}
use fizzos.Inodes.{
  Inode, Part, decode, find_open, close_in, remove_in, read_inode, inode_open, inode_close,
  inode_alloc, inode_delete,
}

-- Each inode in memory that has the number has a user, and room in its `int` for two more.
abbrev pub IsUsed : ℕ → List Inode → Type 0
IsUsed i_no [] = 0 ≤ 0
IsUsed i_no (i ∷ rest) =
    ((i.i_no ≡ i_no → (0 < i.i_count) × (i.i_count < 2 ^ 31 - 1)) × IsUsed i_no rest)

-- What the search gives is closed again.
abbrev ClosesAgain : ℕ → List Inode → Option (Inode × List Inode) → Type 0
ClosesAgain i_no inodes none = 0 ≤ 0
ClosesAgain i_no inodes (some (i, counted)) =
    ((i.i_no ≡ i_no) × (close_in i_no counted ≡ ok inodes))

close_counted :
    (i_no : ℕ) (i : Inode) (rest : List Inode)
    → i.i_no == i_no ≡ true
    → 0 < i.i_count
    → i.i_count < 2 ^ 31 - 1
    → close_in i_no (record i { i_count = (i.i_count + 1) % 2 ^ 32 } ∷ rest) ≡ ok (i ∷ rest)
unfolding close_in
close_counted i_no i rest same used room =
    rw
      (
        same,
        lt→ltb 1 ((i.i_count + 1) % 2 ^ 32) (omega arith),
        lt→ltb ((i.i_count + 1) % 2 ^ 32) (2 ^ 31) (omega arith),
      )
      (ap (λ (n : ℕ). ok (record i { i_count = n } ∷ rest)) (omega arith))

find_open-ClosesAgain :
    (i_no : ℕ) (inodes : List Inode)
    → IsUsed i_no inodes
    → ClosesAgain i_no inodes (find_open i_no inodes)
unfolding find_open close_in
find_open-ClosesAgain i_no [] used = used
find_open-ClosesAgain i_no (i ∷ rest) (here, behind) = elim (Bool-cases (i.i_no == i_no)) [
  | inl same ↦ rw same (
    (==_iff i.i_no i_no).0 same,
    close_counted i_no i rest same (here ((==_iff i.i_no i_no).0 same)).0
        (here ((==_iff i.i_no i_no).0 same)).1,
  )
  | inr other ↦ rw other (keep other (find_open i_no rest) (find_open-ClosesAgain i_no rest behind))
]
  where
    keep :
        i.i_no == i_no ≡ false
        → (o : Option (Inode × List Inode)) → ClosesAgain i_no rest o
        → ClosesAgain i_no
            (i ∷ rest)
            (elim o [ none ↦ none | some (j, rest') ↦ some (j, i ∷ rest') ])
    keep other none closes = closes
    keep other (some (j, rest')) (same, run) = (same, rw (other, run) refl)

pub inode_close-inode_open :
    (part : Part) (i_no : ℕ) (buf : ℕ → ℕ)
    → i_no < 4096
    → IsValid part.inode_bitmap
    → i_no < 8 * part.inode_bitmap.byte_size
    → is_set part.inode_bitmap i_no ≡ true
    → IsUsed i_no part.open_inodes
    → HasTable part.sb
    → Returns
        (λ (i, part'). (i.i_no ≡ i_no) × (inode_close part' i_no ≡ ok part))
        (inode_open part i_no buf)
unfolding inode_open inode_close inode_at decode
inode_close-inode_open part i_no buf lt valid inside allocated used table =
    rw (lt→ltb i_no 4096 lt, is_set_run part.inode_bitmap i_no valid inside, allocated)
      (found (find_open i_no part.open_inodes) (find_open-ClosesAgain i_no part.open_inodes used))
  where
    found :
        (o : Option (Inode × List Inode))
        → ClosesAgain i_no part.open_inodes o
        → Returns
            (λ (i, part'). (i.i_no ≡ i_no) × (inode_close part' i_no ≡ ok part))
            (elim o [
              | some (i, inodes) ↦ ok (i, record part { open_inodes = inodes })
              | none ↦ (do
                i ← read_inode part i_no buf
                ok (i, record part { open_inodes = i ∷ part.open_inodes }))
            ])
    found none closes =
        rw (read_inode-inode_at part i_no buf table lt) (refl, rw (==_refl i_no) refl)
    found (some (i, inodes)) (same, run) = (same, rw run refl)

-- What an inode that was allocated and deleted leaves.
pub record Undone (part part' : Part) : Type 0 where
  pub inodes : part'.open_inodes ≡ part.open_inodes
  pub disk : part'.disk ≡ part.disk
  pub bits : (j : ℕ) → is_set part'.inode_bitmap j ≡ is_set part.inode_bitmap j

-- inode_alloc with a valid bitmap and a free inode gives the first free one; inode_delete of it
-- leaves the inodes in memory, the disk and each bit as they were.
pub inode_delete-inode_alloc :
    (part : Part) (k : ℕ)
    → IsValid part.inode_bitmap
    → k < 8 * part.inode_bitmap.byte_size
    → is_set part.inode_bitmap k ≡ false
    → Returns
        (λ (i, part').
          IsFirstClear part.inode_bitmap i.i_no × Returns (Undone part) (inode_delete part' i.i_no))
        (inode_alloc part)
unfolding inode_alloc inode_delete remove_in
inode_delete-inode_alloc part k valid lt free = rw scanned.1 (first, deleted)
  where
    scanned :
        (r : ℕ × Bitmap) × (bitmap_scan_set part.inode_bitmap ≡ ok r)
        × (IsFirstClear part.inode_bitmap r.0 × Updated part.inode_bitmap r.0 true r.1)
    scanned =
        Returns-ok _ (bitmap_scan_set part.inode_bitmap)
          (bitmap_scan_set-Updated part.inode_bitmap k valid lt free)

    i_no : ℕ
    i_no = scanned.0.0

    taken : Bitmap
    taken = scanned.0.1

    first : IsFirstClear part.inode_bitmap i_no
    first = scanned.2.0

    updated : Updated part.inode_bitmap i_no true taken
    updated = scanned.2.1

    set_now : is_set taken i_no ≡ true
    set_now = updated.bit i_no ∙ rw (==_refl i_no) refl

    cleared : (r : Bitmap) × (bitmap_reset i_no taken ≡ ok r) × Updated taken i_no false r
    cleared = Returns-ok (Updated taken i_no false) (bitmap_reset i_no taken) (
        bitmap_reset-Updated taken i_no updated.valid
          (omega (arith, updated.byte_size, first.inside)) set_now)

    as_before : (j : ℕ) → is_set cleared.0 j ≡ is_set part.inode_bitmap j
    as_before j = cleared.2.bit j ∙ elim (eq-cases j i_no) [
      | inl same ↦ rw (same, ==_refl i_no) (sym first.clear)
      | inr other ↦
          rw (ne→==_false j i_no other) (updated.bit j ∙ rw (ne→==_false j i_no other) refl)
    ]

    opened : List Inode
    opened =
        record {
          i_no = i_no;
          i_flags = 0;
          i_size = 0;
          i_count = 0;
          i_mode = 0;
          i_sectors = replicate 13 0;
        }
        ∷ part.open_inodes

    deleted :
        Returns
          (Undone part)
          (inode_delete (record part { inode_bitmap = taken; open_inodes = opened }) i_no)
    deleted = rw (==_refl i_no, cleared.1) (record { inodes = refl; disk = refl; bits = as_before })
