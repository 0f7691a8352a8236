-- ===== src/FileWrite/Finish.antt =====
-- What follows the loop of file_write: the numbers of the sectors and the bytes are on disk.
use mathlib.Core.Path.{ap₂}
use Prim.Native.Nat.{max}
use fizzos.Base.{
  get_or, ℕ, ◌+◌, ◌-◌, ◌*◌, ◌%◌, ◌^◌, ◌<◌, ◌≤◌, ◌≡◌, ◌≢◌, inl, inr, refl, sym, ap, ◌∙◌, Bool, true,
  false, arith, ltb, if◌then◌else◌, ne→==_false, subst, Bool-cases, le→ltb_false, le→leb, Outcome,
  ok, ◌>>=◌, Returns, Returns-bind,
}
use fizzos.File.{Inode as ReadInode, direct, max_sectors}
use fizzos.File.Blocks.{lba_of as disk_lba}
use fizzos.Ide.{max_lba}
use fizzos.Disk.{max_files_per_part}
use fizzos.Inodes.{Inode, Part, byte_of, inode_sync, write_sectors, with_written}
use fizzos.Inodes.Codec.{word_at-bytes}
use fizzos.Inodes.Sync.{
  HasTable, with_inode, inode_sync-with_inode, with_inode-outside, written_here, written_off,
}
use fizzos.FileWrite.{Writing, table_at, table_bytes, sync_second, finish}
use fizzos.FileWrite.Fill.{table_at-same}
use fizzos.FileWrite.Sectors.{second, words_of, lba_of, Inv}

-- The file that file_read reads.
abbrev pub file_of : Inode → ReadInode
file_of i = record { i_size = i.i_size; i_sectors = i.i_sectors }

-- The words of the second table on a disk are those of the file.
abbrev pub HasWords : Bool → Writing → (ℕ → ℕ → ℕ) → Type 0
HasWords flag w disk =
    second w ≢ 0 → (k : ℕ) → k < 128 → table_at disk (second w) k ≡ words_of flag w k

pub has_second :
    (flag : Bool) (w : Writing) (k : ℕ) → Inv flag w → words_of flag w k ≢ 0 → second w ≢ 0
has_second true w k i there z = i.there refl z
has_second false w k i there z = there (rw z refl)

-- Then file_read finds the sectors there.
pub disk_lba-lba_of :
    (flag : Bool) (w : Writing) (disk : ℕ → ℕ → ℕ) (size k : ℕ)
    → Inv flag w
    → HasWords flag w disk
    → k < max_sectors
    → lba_of flag w k ≢ 0
    → disk_lba disk (record { i_size = size; i_sectors = w.i_sectors }) k ≡ lba_of flag w k
disk_lba-lba_of flag w disk size k i words lt there = elim (Bool-cases (ltb k direct)) [
  | inl below ↦ rw below refl
  | inr above ↦
      let word : words_of flag w (k - direct) ≢ 0 = rw above at there in
      rw above (words (has_second flag w (k - direct) i word) (k - direct) (ground arith))
]

-- The table on disk, where it need not be written.
pub HasWords-unsynced :
    (flag : Bool) (w : Writing)
    → Inv flag w
    → w.is_sync_second ≡ false
    → HasWords flag w w.part.disk
HasWords-unsynced true w i e there k lt = sym ((i.synced refl e).1 k lt)
HasWords-unsynced false w i e there k lt = rw (ne→==_false (second w) 0 there) refl

-- The bytes of the table are its words again.
table_at-table_bytes :
    (disk : ℕ → ℕ → ℕ) (lba k : ℕ) (table : ℕ → ℕ)
    → table k < 2 ^ 32
    → table_at (with_written disk lba 1 (table_bytes table)) lba k ≡ table k
table_at-table_bytes disk lba k table small =
    word_at-bytes (with_written disk lba 1 (table_bytes table) lba) (4 * k) (table k) small
      (written_here disk lba (table_bytes table) (4 * k) ∙ at 0 (omega arith) (omega arith))
      (written_here disk lba (table_bytes table) (4 * k + 1) ∙ at 1 (omega arith) refl)
      (written_here disk lba (table_bytes table) (4 * k + 2) ∙ at 2 (omega arith) refl)
      (written_here disk lba (table_bytes table) (4 * k + 3) ∙ at 3 (omega arith) refl)
  where
    at : (j : ℕ) → j < 4 → {n : ℕ} → n ≡ 4 * k + j → table_bytes table n ≡ byte_of (table k) j
    at j lt e =
        ap (table_bytes table) e
        ∙ ap₂ (λ (w b : ℕ). byte_of (table w) b) (omega arith) (omega arith)

-- sync_second: the table is on disk, and no sector of the file changes.
pub record SecondSynced (flag : Bool) (w : Writing) (part : Part) : Type 0 where
  pub words : HasWords flag w part.disk
  pub sb : part.sb ≡ w.part.sb
  pub bytes :
      (k o : ℕ)
      → k < max_sectors
      → lba_of flag w k ≢ 0
      → part.disk (lba_of flag w k) o ≡ w.part.disk (lba_of flag w k) o

pub sync_second-SecondSynced :
    (flag : Bool) (w : Writing) → Inv flag w → Returns (SecondSynced flag w) (sync_second w)
unfolding sync_second
sync_second-SecondSynced flag w i = elim (Bool-cases w.is_sync_second) [
  | inr unsynced ↦ subst (Returns (SecondSynced flag w)) (sym (ap choose unsynced)) (record {
    words = HasWords-unsynced flag w i unsynced;
    sb = refl;
    bytes = λ k o lt there. refl;
  })
  | inl synced ↦ subst (Returns (SecondSynced flag w)) (sym (ap choose synced)) (
      rw (le→leb (second w) max_lba (low flag i synced)) (record {
        words = λ there k lt. at flag i synced k lt;
        sb = refl;
        bytes = λ k o lt there.
            written_off w.part.disk (second w) (lba_of flag w k) (table_bytes w.table) o
              (i.file.beside k lt there);
      }))
]
  where
    choose : Bool → Outcome Part
    choose b =
        if b
        then (write_sectors w.part.disk (second w) 1 (table_bytes w.table)
            >>= (λ disk. ok (record w.part { disk = disk })))
        else ok w.part

    low : (flag : Bool) → Inv flag w → w.is_sync_second ≡ true → second w ≤ max_lba
    low true i synced = (i.file.table_block (i.there refl)).2
    low false i synced = absurd (ground (arith, (i.first refl).0))

    at :
        (flag : Bool)
        → Inv flag w
        → w.is_sync_second ≡ true
        → (k : ℕ) → k < 128
        → table_at (with_written w.part.disk (second w) 1 (table_bytes w.table)) (second w) k
          ≡ words_of flag w k
    at true i synced k lt =
        table_at-table_bytes w.part.disk (second w) k w.table
          (subst (λ (n : ℕ). n < 2 ^ 32) (word_of k) (i.file.words (direct + k) (omega arith)))
      where
        word_of : (k : ℕ) → lba_of true w (direct + k) ≡ w.table k
        word_of k = rw (le→ltb_false (direct + k) direct (omega arith)) (ap w.table (omega arith))
    at false i synced k lt = absurd (ground (arith, (i.first refl).0))

-- Where the inode table lies.
pub record HasPlace (part : Part) (i : Inode) : Type 0 where
  pub table : HasTable part.sb
  pub before : part.sb.inode_table_lba + 512 ≤ part.sb.data_start_lba
  pub number : i.i_no < max_files_per_part

-- The file behind `finish`: as large as it was or as far as was written, with the sectors of the loop and
-- their bytes, as file_read finds them.
pub record Finished (flag : Bool) (i : Inode) (end : ℕ) (w : Writing) (result : Inode × Part)
    : Type 0 where
  pub size : result.0.i_size ≡ max i.i_size end
  pub second_table : get_or result.0.i_sectors 12 0 ≡ second w
  pub sectors :
      (k : ℕ)
      → k < max_sectors
      → lba_of flag w k ≢ 0
      → disk_lba result.1.disk (file_of result.0) k ≡ lba_of flag w k
  pub bytes :
      (k o : ℕ)
      → k < max_sectors
      → lba_of flag w k ≢ 0
      → result.1.disk (lba_of flag w k) o ≡ w.part.disk (lba_of flag w k) o

-- The part of it that does not depend on the size.
without_sync :
    (flag : Bool) (i : Inode) (size end : ℕ) (w : Writing) (part : Part)
    → Inv flag w
    → SecondSynced flag w part
    → size ≡ max i.i_size end
    → Finished flag i end w (record i { i_sectors = w.i_sectors; i_size = size }, part)
without_sync flag i size end w part inv s e = record {
  size = e;
  second_table = refl;
  sectors = λ k lt there. disk_lba-lba_of flag w part.disk size k inv s.words lt there;
  bytes = s.bytes;
}

with_sync :
    (flag : Bool) (i : Inode) (size end : ℕ) (pad io_buf : ℕ → ℕ) (w : Writing) (part : Part)
    → Inv flag w
    → SecondSynced flag w part
    → HasPlace w.part i
    → size ≡ max i.i_size end
    → Finished flag i end w (
      record i { i_sectors = w.i_sectors; i_size = size },
      with_inode part (record i { i_sectors = w.i_sectors; i_size = size }) pad io_buf,
    )
with_sync flag i size end pad io_buf w part inv s place e = record {
  size = e;
  second_table = refl;
  sectors = λ k lt there.
      disk_lba-lba_of flag w (with_inode part grown pad io_buf).disk size k inv
        (λ has n small.
          table_at-same part.disk (with_inode part grown pad io_buf).disk (second w) n
            (λ o. outside (second w) o (inv.file.table_block has).0)
          ∙ s.words has n small)
        lt there;
  bytes = λ k o lt there.
      outside (lba_of flag w k) o (inv.file.blocks k lt there).0 ∙ s.bytes k o lt there;
}
  where
    grown : Inode
    grown = record i { i_sectors = w.i_sectors; i_size = size }

    outside :
        (t o : ℕ)
        → w.part.sb.data_start_lba ≤ t
        → (with_inode part grown pad io_buf).disk t o ≡ part.disk t o
    outside t o ge =
        with_inode-outside part grown pad io_buf t o (rw s.sb place.table) place.number
          (rw s.sb (omega (arith, place.before, ge)))

pub finish-Finished :
    (flag : Bool) (i : Inode) (p ret : ℕ) (pad io_buf : ℕ → ℕ) (w : Writing)
    → Inv flag w
    → HasPlace w.part i
    → p + ret < 2 ^ 32
    → Returns (Finished flag i (p + ret) w) (finish i p ret pad io_buf w)
unfolding finish
finish-Finished flag i p ret pad io_buf w inv place small =
    Returns-bind (SecondSynced flag w) (Finished flag i (p + ret) w) (sync_second w) _
      (sync_second-SecondSynced flag w inv) (λ part s. finished part s)
  where
    grown : Inode
    grown = record i { i_sectors = w.i_sectors; i_size = p + ret }

    short : (p + ret) % 2 ^ 32 ≡ p + ret
    short = omega arith

    finished :
        (part : Part)
        → SecondSynced flag w part
        → Returns (Finished flag i (p + ret) w) (
            if ltb i.i_size (p + ret)
            then (do
              part' ←
                  inode_sync part
                    (record i { i_sectors = w.i_sectors; i_size = (p + ret) % 2 ^ 32 })
                    pad
                    io_buf
              ok (record i { i_sectors = w.i_sectors; i_size = (p + ret) % 2 ^ 32 }, part'))
            else ok (record i { i_sectors = w.i_sectors }, part))
    finished part s = elim (Bool-cases (ltb i.i_size (p + ret))) [
      | inl grows ↦
          rw
            (
              grows,
              short,
              inode_sync-with_inode part grown pad io_buf (rw s.sb place.table) place.number,
            )
            (with_sync flag i (p + ret) (p + ret) pad io_buf w part inv s place
              (ground (arith, grows)))
      | inr fits ↦
          rw fits (without_sync flag i i.i_size (p + ret) w part inv s (ground (arith, fits)))
    ]
