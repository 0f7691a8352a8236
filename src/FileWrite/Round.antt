-- ===== src/FileWrite/Round.antt =====
-- The steps of a round of file_write: the second table is loaded, a missing sector is added, and bytes
-- are put into it.
use fizzos.Base.{
  ℕ, ◌+◌, ◌<◌, ◌≤◌, ◌≡◌, ◌≢◌, inl, inr, refl, ◌∙◌, true, false, arith, ltb, eq-cases, ne→==_false,
  le→leb, subst, set, length-set, get_or-set_self, get_or-set_ne, ok, Returns, Returns-bind,
  Bool-cases,
}
use fizzos.File.{direct, max_sectors}
use fizzos.Ide.{max_lba}
use fizzos.Inodes.{Part, block_bimap_alloc}
use fizzos.FileWrite.{Writing, table_at, read_words, load_table}
use fizzos.FileWrite.Alloc.{free_blocks, Allocated, block_bimap_alloc-Allocated}
use fizzos.FileWrite.Sectors.{second, lba_of, IsFile, IsFile-kept, IsFile-table, Inv}

-- No block that a file can have is written, and few are taken.
pub record Moved (cost : ℕ) (w w' : Writing) : Type 0 where
  pub sb : w'.part.sb ≡ w.part.sb
  pub disk : (s o : ℕ) → w.part.sb.data_start_lba ≤ s → w'.part.disk s o ≡ w.part.disk s o
  pub free : free_blocks w.part ≤ free_blocks w'.part + cost

pub record Loaded (w w' : Writing) : Type 0 where
  pub inv : Inv true w'
  pub moved : Moved 1 w w'
  pub same : (k : ℕ) → k < max_sectors → lba_of true w' k ≡ lba_of false w k

-- A new table of zeroes.
module _ (w : Writing) (lba : ℕ) (part : Part) (i : Inv false w) (none_yet : second w ≡ 0)
    (a : Allocated w.part (lba, part)) where
  abbrev with_table : Writing
  with_table = record {
    part = part;
    i_sectors = set w.i_sectors 12 lba;
    table = λ k. 0;
    is_sync_second = true;
  }

  new_second : second with_table ≡ lba
  new_second = get_or-set_self w.i_sectors 12 lba 0 (omega (arith, i.thirteen))

  same_sectors : (k : ℕ) → k < max_sectors → lba_of true with_table k ≡ lba_of false w k
  same_sectors k lt = elim (Bool-cases (ltb k direct)) [
    | inl below ↦
        rw below (get_or-set_ne w.i_sectors 12 k lba 0 (λ e. absurd (ground (arith, e, below))))
    | inr above ↦ rw (above, none_yet) refl
  ]

  with_table-Loaded : Loaded w with_table
  with_table-Loaded = record {
    inv = record {
      ready = a.ready;
      file = rw new_second (
          IsFile-kept part part lba (lba_of false w) (lba_of true with_table)
            (IsFile-table w.part part lba (lba_of false w)
              (subst (λ (t : ℕ). IsFile w.part t (lba_of false w)) none_yet i.file) a.keeps a.fresh
              a.taken)
            same_sectors (λ s t. t));
      thirteen = length-set w.i_sectors 12 lba ∙ i.thirteen;
      there = λ t z. absurd (omega (arith, a.taken.0, a.ready.start, new_second, z));
      first = λ e. absurd (ground arith);
      synced = λ t e. absurd (ground arith);
    };
    moved = record { sb = a.sb; disk = a.disk; free = omega (arith, a.free) };
    same = same_sectors;
  }

-- The table that the file has.
pub read_table-Loaded :
    (w : Writing)
    → Inv false w
    → second w ≢ 0
    → Loaded w (record w { table = table_at w.part.disk (second w) })
read_table-Loaded w i there = record {
  inv = record {
    ready = i.ready;
    file =
        IsFile-kept w.part w.part (second w) (lba_of false w) (lba_of true loaded) i.file same
          (λ s t. t);
    thirteen = i.thirteen;
    there = λ t. there;
    first = λ e. absurd (ground arith);
    synced = λ t e. ((i.first refl).1 there, λ k lt. refl);
  };
  moved = record { sb = refl; disk = λ s o ge. refl; free = omega arith };
  same = same;
}
  where
    loaded : Writing
    loaded = record w { table = table_at w.part.disk (second w) }

    same : (k : ℕ) → k < max_sectors → lba_of true loaded k ≡ lba_of false w k
    same k lt = elim (Bool-cases (ltb k direct)) [
      | inl below ↦ rw below refl
      | inr above ↦ rw (above, ne→==_false (second w) 0 there) refl
    ]

-- The round that comes to the second table loads it.
pub load_table-Loaded :
    (w : Writing) → Inv false w → 0 < free_blocks w.part → Returns (Loaded w) (load_table direct w)
unfolding load_table read_words
load_table-Loaded w i free = elim (eq-cases (second w) 0) [
  | inl none_yet ↦ rw none_yet (
      Returns-bind (Allocated w.part) (Loaded w) (block_bimap_alloc w.part) _
        (block_bimap_alloc-Allocated w.part i.ready free)
        (λ (lba, part) a. with_table-Loaded w lba part i none_yet a))
  | inr there ↦
      rw (ne→==_false (second w) 0 there, le→leb (second w) max_lba (i.file.table_block there).2)
        (read_table-Loaded w i there)
]

-- Another round does not look at the table.
pub load_table-skip : (sec : ℕ) (w : Writing) → sec ≢ direct → load_table sec w ≡ ok w
unfolding load_table
load_table-skip sec w ne = rw (ne→==_false sec direct ne) refl
