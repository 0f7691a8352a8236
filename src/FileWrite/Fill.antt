-- ===== src/FileWrite/Fill.antt =====
-- fill_sector: a sector that the file does not have yet is allocated.
use fizzos.Base.{
  ℕ, ◌-◌, ◌*◌, ◌<◌, ◌≤◌, ◌≡◌, ◌≢◌, inl, inr, refl, sym, ap, ◌∙◌, Bool, true, false, ◌||◌, arith,
  ltb, leb, fun_ext, eq-cases, ne→==_false, ==_refl, set, length-set, get_or-set_self,
  get_or-set_ne, Returns, Returns-bind, Bool-cases, lt→ltb, le→ltb_false, update,
}
use fizzos.File.{direct, max_sectors, word_at}
use fizzos.Inodes.{Part, block_bimap_alloc}
use fizzos.FileWrite.{Writing, table_at, fill_sector, next_lba, set_next_lba}
use fizzos.FileWrite.Alloc.{free_blocks, Allocated, block_bimap_alloc-Allocated}
use fizzos.FileWrite.Sectors.{second, words_of, lba_of, IsFile-added, Inv}
use fizzos.FileWrite.Round.{Moved}

pub record Filled (loaded : Bool) (sec : ℕ) (w w' : Writing) : Type 0 where
  pub inv : Inv loaded w'
  pub moved : Moved 1 w w'
  pub others : (k : ℕ) → k < max_sectors → k ≢ sec → lba_of loaded w' k ≡ lba_of loaded w k
  pub kept : lba_of loaded w sec ≢ 0 → lba_of loaded w' sec ≡ lba_of loaded w sec
  pub has : lba_of loaded w' sec ≢ 0

-- A table on a block of the file is the same where the blocks are.
pub table_at-same :
    (disk disk' : ℕ → ℕ → ℕ) (lba k : ℕ)
    → ((o : ℕ) → disk' lba o ≡ disk lba o)
    → table_at disk' lba k ≡ table_at disk lba k
table_at-same disk disk' lba k same = ap (λ (f : ℕ → ℕ). word_at f (4 * k)) (fun_ext same)

new_not_zero : (part : Part) (r : ℕ × Part) → Allocated part r → r.0 ≢ 0
new_not_zero part r a z = absurd (omega (arith, a.taken.0, a.ready.start, z))

-- A sector whose number is in the inode.
module _ (sec : ℕ) (w : Writing) (lba : ℕ) (part : Part) (below : sec < direct) (i : Inv false w)
    (missing : lba_of false w sec ≡ 0) (a : Allocated w.part (lba, part)) where
  abbrev in_inode : Writing
  in_inode = record {
    part = part;
    i_sectors = set w.i_sectors sec lba;
    table = w.table;
    is_sync_second = w.is_sync_second || ltb direct sec;
  }

  inode-second : second in_inode ≡ second w
  inode-second = get_or-set_ne w.i_sectors sec 12 lba 0 (omega arith)

  inode-table :
      (k : ℕ) → second w ≢ 0 → table_at part.disk (second w) k ≡ table_at w.part.disk (second w) k
  inode-table k there =
      table_at-same w.part.disk part.disk (second w) k
        (λ o. a.disk (second w) o (i.file.table_block there).0)

  inode-words : (k : ℕ) → words_of false in_inode k ≡ words_of false w k
  inode-words k = rw inode-second (elim (eq-cases (second w) 0) [
    | inl z ↦ rw z refl
    | inr there ↦ rw (ne→==_false (second w) 0 there) (inode-table k there)
  ])

  inode-others : (k : ℕ) → k < max_sectors → k ≢ sec → lba_of false in_inode k ≡ lba_of false w k
  inode-others k lt ne = elim (Bool-cases (ltb k direct)) [
    | inl inside ↦ rw inside (get_or-set_ne w.i_sectors sec k lba 0 (λ e. ne (sym e)))
    | inr above ↦ rw above (inode-words (k - direct))
  ]

  inode-at : lba_of false in_inode sec ≡ lba
  inode-at =
      rw (lt→ltb sec direct below)
        (get_or-set_self w.i_sectors sec lba 0 (omega (arith, i.thirteen)))

  in_inode-Filled : Filled false sec w in_inode
  in_inode-Filled = record {
    inv = record {
      ready = a.ready;
      file = rw inode-second (
          IsFile-added w.part part (second w) sec lba (lba_of false w) (lba_of false in_inode)
            i.file inode-at inode-others a.keeps a.fresh a.taken a.small
            (new_not_zero w.part (lba, part) a));
      thirteen = length-set w.i_sectors sec lba ∙ i.thirteen;
      there = λ e. absurd (ground arith);
      first = λ e. (
        rw ((i.first refl).0, le→ltb_false direct sec (omega arith)) refl,
        rw inode-second (λ there z. (i.first refl).1 there (sym (inode-table 0 there) ∙ z)),
      );
      synced = λ e. absurd (ground arith);
    };
    moved = record { sb = a.sb; disk = a.disk; free = omega (arith, a.free) };
    others = inode-others;
    kept = λ there. absurd (there missing);
    has = λ z. new_not_zero w.part (lba, part) a (sym inode-at ∙ z);
  }

-- A sector whose number is in the second table.
module _ (sec : ℕ) (w : Writing) (lba : ℕ) (part : Part) (above : direct ≤ sec) (i : Inv true w)
    (missing : lba_of true w sec ≡ 0) (a : Allocated w.part (lba, part)) where
  abbrev in_table : Writing
  in_table = record {
    part = part;
    i_sectors = w.i_sectors;
    table = update w.table (sec - direct) lba;
    is_sync_second = w.is_sync_second || ltb direct sec;
  }

  table-others : (k : ℕ) → k < max_sectors → k ≢ sec → lba_of true in_table k ≡ lba_of true w k
  table-others k lt ne = elim (Bool-cases (ltb k direct)) [
    | inl inside ↦ rw inside refl
    | inr beyond ↦
        rw (beyond, ne→==_false (k - direct) (sec - direct) (λ e. ne (back beyond e))) refl
  ]
    where
      back : ltb k direct ≡ false → k - direct ≡ sec - direct → k ≡ sec
      back beyond e = ground arith

  table-at : lba_of true in_table sec ≡ lba
  table-at = rw (le→ltb_false sec direct above, ==_refl (sec - direct)) refl

  missing_word : w.table (sec - direct) ≡ 0
  missing_word = rw (le→ltb_false sec direct above) at missing

  -- A table whose first word is missing is a new one.
  in_table-synced :
      (w.is_sync_second || ltb direct sec) ≡ false
      → (update w.table (sec - direct) lba 0 ≢ 0)
        × ((k : ℕ)
            → k < 128
            → update w.table (sec - direct) lba k ≡ table_at part.disk (second w) k)
  in_table-synced e =
      absurd ((i.synced refl (not_sync e)).0 (ap w.table (at_first e) ∙ missing_word))
    where
      not_sync : (w.is_sync_second || ltb direct sec) ≡ false → w.is_sync_second ≡ false
      not_sync e = ground arith

      at_first : (w.is_sync_second || ltb direct sec) ≡ false → 0 ≡ sec - direct
      at_first e = ground arith

  in_table-Filled : Filled true sec w in_table
  in_table-Filled = record {
    inv = record {
      ready = a.ready;
      file =
          IsFile-added w.part part (second w) sec lba (lba_of true w) (lba_of true in_table) i.file
            table-at table-others a.keeps a.fresh a.taken a.small
            (new_not_zero w.part (lba, part) a);
      thirteen = i.thirteen;
      there = i.there;
      first = λ e. absurd (ground arith);
      synced = λ t e. in_table-synced e;
    };
    moved = record { sb = a.sb; disk = a.disk; free = omega (arith, a.free) };
    others = table-others;
    kept = λ there. absurd (there missing);
    has = λ z. new_not_zero w.part (lba, part) a (sym table-at ∙ z);
  }

-- `next_lba` points to the number of the sector.
pub next_lba-lba_of :
    (loaded : Bool) (sec : ℕ) (w : Writing)
    → loaded ≡ leb direct sec
    → next_lba sec w ≡ lba_of loaded w sec
next_lba-lba_of true sec w e = refl
next_lba-lba_of false sec w e = rw (lt→ltb sec direct (below e)) refl
  where
    below : false ≡ leb direct sec → sec < direct
    below e = ground arith

pub fill_sector-Filled :
    (loaded : Bool) (sec : ℕ) (w : Writing)
    → loaded ≡ leb direct sec
    → Inv loaded w
    → 0 < free_blocks w.part
    → Returns (Filled loaded sec w) (fill_sector sec w)
unfolding fill_sector
fill_sector-Filled loaded sec w e i free = elim (eq-cases (lba_of loaded w sec) 0) [
  | inr there ↦
      rw (ne→==_false (next_lba sec w) 0 (λ z. there (sym (next_lba-lba_of loaded sec w e) ∙ z)))
        (record {
          inv = i;
          moved = record { sb = refl; disk = λ s o ge. refl; free = omega arith };
          others = λ k lt ne. refl;
          kept = λ t. refl;
          has = there;
        })
  | inl missing ↦ rw (next_lba-lba_of loaded sec w e ∙ missing) (
      Returns-bind (Allocated w.part) (Filled loaded sec w) (block_bimap_alloc w.part) _
        (block_bimap_alloc-Allocated w.part i.ready free)
        (λ (lba, part) a. added loaded lba part e i missing a))
]
  where
    added :
        (loaded : Bool) (lba : ℕ) (part : Part)
        → loaded ≡ leb direct sec
        → Inv loaded w
        → lba_of loaded w sec ≡ 0
        → Allocated w.part (lba, part)
        → Filled loaded sec w (
            set_next_lba sec lba
              (record w { part = part; is_sync_second = w.is_sync_second || ltb direct sec }))
    added false lba part e i missing a =
        let below : sec < direct = ground arith in
        rw (lt→ltb sec direct below) (in_inode-Filled sec w lba part below i missing a)
    added true lba part e i missing a =
        let above : direct ≤ sec = ground arith in
        rw (le→ltb_false sec direct above) (in_table-Filled sec w lba part above i missing a)
