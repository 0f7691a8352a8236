-- ===== src/FileWrite/Put.antt =====
-- put_bytes: a part of one sector of the file is replaced.
use fizzos.Base.{
  ℕ, ◌+◌, ◌-◌, ◌/◌, ◌%◌, ◌<◌, ◌≤◌, ◌≡◌, ◌≢◌, ◌⊎◌, refl, sym, ap, ◌∙◌, Bool, true, false, arith,
  ◌==◌, ltb, if◌then◌else◌, get_or, le→leb, Returns,
}
use fizzos.File.{direct, max_sectors}
use fizzos.Bitmap.{test_bit}
use fizzos.Disk.{bits_per_sector}
use fizzos.Ide.{max_lba}
use fizzos.Inodes.{Part, with_written, copy_in, with_read}
use fizzos.Inodes.Sync.{written_here, written_off, copied_here, copied_off, read_sector}
use fizzos.FileWrite.{Writing, table_at, put_bytes}
use fizzos.FileWrite.Alloc.{IsReady, free_blocks}
use fizzos.FileWrite.Sectors.{second, words_of, lba_of, IsFile-kept, Inv}
use fizzos.FileWrite.Fill.{table_at-same}

pub record Replaced (loaded : Bool) (lba offset c : ℕ) (src : ℕ → ℕ) (w w' : Writing) : Type 0 where
  pub inv : Inv loaded w'
  pub sb : w'.part.sb ≡ w.part.sb
  pub free : free_blocks w'.part ≡ free_blocks w.part
  pub same : (k : ℕ) → lba_of loaded w' k ≡ lba_of loaded w k
  pub written : (j : ℕ) → j < c → w'.part.disk lba (offset + j) ≡ src j
  pub around :
      (o : ℕ) → o < 512 → (o < offset) ⊎ (offset + c ≤ o) → w'.part.disk lba o ≡ w.part.disk lba o
  pub elsewhere : (s o : ℕ) → s ≢ lba → w'.part.disk s o ≡ w.part.disk s o

-- The bitmap lies before the blocks.
pub IsReady-disk :
    (part : Part) (disk' : ℕ → ℕ → ℕ)
    → IsReady part
    → ((s o : ℕ) → s < part.sb.data_start_lba → disk' s o ≡ part.disk s o)
    → IsReady (record part { disk = disk' })
IsReady-disk part disk' r same = record {
  valid = r.valid;
  mirrored = λ idx lt.
      ap (λ (b : ℕ). test_bit b (idx % 8))
        (same (part.sb.block_bitmap_lba + idx / bits_per_sector) (idx % bits_per_sector / 8)
          (omega (arith, r.before, lt)))
      ∙ r.mirrored idx lt;
  before = r.before;
  start = r.start;
  room = r.room;
}

module _ (loaded : Bool) (sec offset c : ℕ) (src io_buf : ℕ → ℕ) (w : Writing) (i : Inv loaded w)
    (lt : sec < max_sectors) (there : lba_of loaded w sec ≢ 0) where
  abbrev lba : ℕ
  lba = lba_of loaded w sec

  abbrev buffer : ℕ → ℕ
  buffer = copy_in (with_read w.part.disk lba 1 io_buf) offset c src

  abbrev put : Writing
  put = record w { part = record w.part { disk = with_written w.part.disk lba 1 buffer } }

  put-elsewhere : (s o : ℕ) → s ≢ lba → put.part.disk s o ≡ w.part.disk s o
  put-elsewhere s o ne = written_off w.part.disk lba s buffer o ne

  put-table : (k : ℕ) → table_at put.part.disk (second w) k ≡ table_at w.part.disk (second w) k
  put-table k =
      table_at-same w.part.disk put.part.disk (second w) k
        (λ o. put-elsewhere (second w) o (λ e. i.file.beside sec lt there (sym e)))

  put-words : (l : Bool) (k : ℕ) → words_of l put k ≡ words_of l w k
  put-words true k = refl
  put-words false k = ap (λ (n : ℕ). if second w == 0 then 0 else n) (put-table k)

  put-same : (k : ℕ) → lba_of loaded put k ≡ lba_of loaded w k
  put-same k =
      ap (λ (n : ℕ). if ltb k direct then get_or w.i_sectors k 0 else n)
        (put-words loaded (k - direct))

  put-Replaced : Replaced loaded lba offset c src w put
  put-Replaced = record {
    inv = record {
      ready = IsReady-disk w.part put.part.disk i.ready (λ s o before.
          put-elsewhere s o
            (λ e. absurd (omega (arith, before, e, (i.file.blocks sec lt there).0))));
      file =
          IsFile-kept w.part put.part (second w) (lba_of loaded w) (lba_of loaded put) i.file
            (λ k small. put-same k) (λ s t. t);
      thirteen = i.thirteen;
      there = i.there;
      first = λ e. ((i.first e).0, λ has z. (i.first e).1 has (sym (put-table 0) ∙ z));
      synced = λ t e. ((i.synced t e).0, λ k small. (i.synced t e).1 k small ∙ sym (put-table k));
    };
    sb = refl;
    free = refl;
    same = put-same;
    written = λ j small.
        written_here w.part.disk lba buffer (offset + j)
        ∙ copied_here (with_read w.part.disk lba 1 io_buf) offset c src j small;
    around = λ o small out.
        written_here w.part.disk lba buffer o
        ∙ copied_off (with_read w.part.disk lba 1 io_buf) offset c src o out
        ∙ read_sector w.part.disk lba io_buf o small;
    elsewhere = put-elsewhere;
  }

  pub put_bytes-Replaced :
      Returns (Replaced loaded lba offset c src w) (put_bytes lba offset c src io_buf w)
  unfolding put_bytes
  put_bytes-Replaced = rw (le→leb lba max_lba (i.file.blocks sec lt there).2) put-Replaced
