-- ===== src/FileWrite/Content.antt =====
-- file_write: the bytes are in the file, and file_read gives them.
use mathlib.Core.Path.{ap₂}
use Prim.Native.Nat.{max}
use fizzos.Base.{
  le→leb, ℕ, ◌+◌, ◌-◌, ◌*◌, ◌/◌, ◌%◌, ◌<◌, ◌≤◌, ◌≡◌, ◌≢◌, ◌⊎◌, inl, inr, refl, sym, ap, ◌∙◌, Bool,
  true, false, ◌&&◌, arith, ◌==◌, ltb, if◌then◌else◌, not, length, List, Returns-mono, ne→==_false,
  subst, Bool-cases, Outcome, ok, ◌>>=◌, ◌>>◌, assert, Returns, Returns-bind, values, values-agree,
}
use fizzos.Ide.{max_lba}
use fizzos.File.{direct, max_sectors, file_read}
use fizzos.File.Blocks.{content, IsAllocated}
use fizzos.File.Read.{file_read-content}
use fizzos.Inodes.{Inode, Part}
use fizzos.FileWrite.{Writing, table_at, read_words, write_loop, finish, file_write}
use fizzos.FileWrite.Alloc.{IsReady, free_blocks}
use fizzos.FileWrite.Sectors.{second, lba_of, IsFile, Inv}
use fizzos.FileWrite.Round.{read_table-Loaded}
use fizzos.FileWrite.Rounds.{loaded_before}
use fizzos.FileWrite.Loop.{Written, Done, need, file_byte, write_loop-Done}
use fizzos.FileWrite.Finish.{
  file_of, HasPlace, Finished, finish-Finished, disk_lba-lba_of, HasWords-unsynced, has_second,
}

abbrev pub start_state : Part → Inode → (ℕ → ℕ) → Writing
start_state part i table = record {
  part = part;
  i_sectors = i.i_sectors;
  table = table;
  is_sync_second = false;
}

-- A file of a partition: its sectors are blocks that are taken, each for itself, there is one for each
-- of its bytes, and a second table has a sector in it.
pub record IsStored (part : Part) (i : Inode) : Type 0 where
  pub ready : IsReady part
  pub file :
      IsFile part
        (second (start_state part i (λ k. 0)))
        (lba_of false (start_state part i (λ k. 0)))
  pub thirteen : length i.i_sectors ≡ 13
  pub first :
      second (start_state part i (λ k. 0)) ≢ 0
      → table_at part.disk (second (start_state part i (λ k. 0))) 0 ≢ 0
  pub size : i.i_size ≤ max_sectors * 512
  pub allocated : (k : ℕ) → k * 512 < i.i_size → lba_of false (start_state part i (λ k. 0)) k ≢ 0
  pub place : HasPlace part i

-- The file behind a write of `count` bytes at `p`.
pub record WriteResult (part : Part) (i : Inode) (src : ℕ → ℕ) (count p : ℕ)
    (result : Inode × Part × ℕ) : Type 0 where
  pub position : result.2 ≡ p + count
  pub size : result.0.i_size ≡ max i.i_size (p + count)
  pub allocated : IsAllocated result.1.disk (file_of result.0)
  pub written : (j : ℕ) → j < count → content result.1.disk (file_of result.0) (p + j) ≡ src j
  pub others :
      (q : ℕ)
      → q < i.i_size
      → (q < p) ⊎ (p + count ≤ q)
      → content result.1.disk (file_of result.0) q ≡ content part.disk (file_of i) q

module _ (part : Part) (i : Inode) (s : IsStored part i) where
  start-Inv : (table : ℕ → ℕ) → Inv false (start_state part i table)
  start-Inv table = record {
    ready = s.ready;
    file = s.file;
    thirteen = s.thirteen;
    there = λ e. absurd (ground arith);
    first = λ e. (refl, s.first);
    synced = λ e. absurd (ground arith);
  }

  -- A file that goes on behind sector 12 has a second table.
  has_table : direct * 512 < i.i_size → second (start_state part i (λ k. 0)) ≢ 0
  has_table long z = s.allocated direct long (rw z refl)

  -- The state before the first round.
  first_round :
      (dirty : ℕ → ℕ) (b : Bool)
      → (b ≡ true → direct * 512 < i.i_size)
      → Inv b (
          start_state part i
            (if b then table_at part.disk (second (start_state part i dirty)) else dirty))
        × ((k : ℕ)
            → k < max_sectors
            → lba_of b
                (start_state part i
                  (if b then table_at part.disk (second (start_state part i dirty)) else dirty))
                k
              ≡ lba_of false (start_state part i dirty) k)
  first_round dirty true long =
      let l =
        read_table-Loaded (start_state part i dirty) (start-Inv dirty) (has_table (long refl)) in
      (l.inv, l.same)
  first_round dirty false long = (start-Inv dirty, λ k lt. refl)

  -- What file_read finds before the write.
  content_before :
      (dirty : ℕ → ℕ) (q : ℕ)
      → q < i.i_size
      → content part.disk (file_of i) q
        ≡ part.disk (lba_of false (start_state part i dirty) (q / 512)) (q % 512)
  content_before dirty q lt =
      ap (λ (t : ℕ). part.disk t (q % 512))
        (disk_lba-lba_of false (start_state part i dirty) part.disk i.i_size (q / 512)
          (start-Inv dirty)
          (HasWords-unsynced false (start_state part i dirty) (start-Inv dirty) refl)
          (omega (arith, s.size)) (s.allocated (q / 512) (omega arith)))

-- What `finish` gives behind the loop.
module _ (part : Part) (i : Inode) (src dirty : ℕ → ℕ) (count p : ℕ) (b : Bool) (w w' : Writing)
    (result : Inode × Part) (s : IsStored part i) (inside : p ≤ i.i_size)
    (fits : p + count ≤ max_sectors * 512) (of_part : w.part.disk ≡ part.disk)
    (starts : (k : ℕ) → k < max_sectors → lba_of b w k ≡ lba_of false (start_state part i dirty) k)
    (h : Written b p count src w w') (f : Finished h.flag i (p + count) w' result) where
  started : (q : ℕ) → q < i.i_size → lba_of b w (q / 512) ≢ 0
  started q lt z =
      s.allocated (q / 512) (omega arith) (sym (starts (q / 512) (omega (arith, s.size))) ∙ z)

  sector_there : (q : ℕ) → q < result.0.i_size → lba_of h.flag w' (q / 512) ≢ 0
  sector_there q lt = elim (Bool-cases (ltb q i.i_size)) [
    | inl old ↦
        let below : q < i.i_size = ground arith in
        (λ z.
          started q below (sym (h.kept (q / 512) (omega (arith, s.size)) (started q below)) ∙ z))
    | inr new ↦
        let above : i.i_size ≤ q = ground arith in
        (λ z.
          h.has (q - p) (omega (arith, f.size))
            (ap (λ (n : ℕ). lba_of h.flag w' (n / 512)) (omega arith) ∙ z))
  ]

  in_file : (q : ℕ) → q < result.0.i_size → q / 512 < max_sectors
  in_file q lt = omega (arith, f.size, s.size)

  found :
      (q : ℕ)
      → q < result.0.i_size
      → content result.1.disk (file_of result.0) q ≡ file_byte h.flag w' q
  found q lt =
      ap (λ (t : ℕ). result.1.disk t (q % 512))
        (f.sectors (q / 512) (in_file q lt) (sector_there q lt))
      ∙ f.bytes (q / 512) (q % 512) (in_file q lt) (sector_there q lt)

  finished-WriteResult : WriteResult part i src count p (result.0, result.1, p + count)
  finished-WriteResult = record {
    position = refl;
    size = f.size;
    allocated = record {
      there = λ q lt z.
          sector_there q lt (sym (f.sectors (q / 512) (in_file q lt) (sector_there q lt)) ∙ z);
      on_disk = λ q lt.
          subst (λ (t : ℕ). t ≤ max_lba)
            (sym (f.sectors (q / 512) (in_file q lt) (sector_there q lt)))
            (h.inv.file.blocks (q / 512) (in_file q lt) (sector_there q lt)).2;
      table = λ long.
          subst (λ (t : ℕ). t ≤ max_lba) (sym f.second_table)
            (h.inv.file.table_block
              (has_second h.flag w' 0 h.inv (sector_there (direct * 512) long))).2;
    };
    written = λ j lt. found (p + j) (omega (arith, f.size)) ∙ h.written j lt;
    others = λ q lt out.
        found q (omega (arith, f.size))
        ∙ h.others q (omega (arith, s.size)) (started q lt) out
        ∙ ap (λ (disk : ℕ → ℕ → ℕ). disk (lba_of b w (q / 512)) (q % 512)) of_part
        ∙ ap (λ (t : ℕ). part.disk t (q % 512)) (starts (q / 512) (omega (arith, s.size)))
        ∙ sym (content_before part i s dirty q lt);
  }

-- The loop and what follows it.
from_loop :
    (part : Part) (i : Inode) (src dirty pad io_buf : ℕ → ℕ) (count p : ℕ) (b : Bool) (w : Writing)
    → IsStored part i
    → p ≤ i.i_size
    → p + count ≤ max_sectors * 512
    → w.part ≡ part
    → ((k : ℕ) → k < max_sectors → lba_of b w k ≡ lba_of false (start_state part i dirty) k)
    → (run : Outcome (Writing × ℕ)) → Returns (Done b p count src w) run
    → Returns (WriteResult part i src count p) (
        run >>= (λ (w', left).
          assert (left == 0)
          >> (finish i p count pad io_buf w' >>= (λ (i', part'). ok (i', part', p + count)))))
from_loop part i src dirty pad io_buf count p b w s inside fits of_part starts run done =
    Returns-bind (Done b p count src w) (WriteResult part i src count p) run _ done
      (λ (w', left) (h, none_left). rw none_left (
        Returns-bind (Finished h.flag i (p + count) w') (WriteResult part i src count p)
          (finish i p count pad io_buf w') _
          (finish-Finished h.flag i p count pad io_buf w' h.inv (place w' h) (omega arith))
          (λ (i', part') f.
            finished-WriteResult part i src dirty count p b w w' (i', part') s inside fits
              (ap (λ (x : Part). x.disk) of_part) starts h f)))
  where
    same_sb : (w' : Writing) → Written b p count src w w' → w'.part.sb ≡ part.sb
    same_sb w' h = h.sb ∙ ap (λ (x : Part). x.sb) of_part

    place : (w' : Writing) → Written b p count src w w' → HasPlace w'.part i
    place w' h = record {
      table = rw (same_sb w' h) s.place.table;
      before = rw (same_sb w' h) s.place.before;
      number = s.place.number;
    }

pub file_write-WriteResult :
    (part : Part) (i : Inode) (src : ℕ → ℕ) (count p : ℕ) (dirty dirty_words pad : ℕ → ℕ)
    → IsStored part i
    → p ≤ i.i_size
    → p + count ≤ max_sectors * 512
    → (0 < count → need (p / 512) (p % 512) count ≤ free_blocks part)
    → Returns (WriteResult part i src count p) (file_write part i src count p dirty dirty_words pad)
unfolding file_write read_words
file_write-WriteResult part i src count p dirty dirty_words pad s inside fits free =
    rw (table_there (loaded_before (p / 512)) refl, table_read (loaded_before (p / 512)) refl)
      (from_loop part i src dirty_words pad dirty count p (loaded_before (p / 512)) w s inside fits
        refl starts.1 (write_loop (max_sectors + 1) src count (p / 512) (p % 512) dirty w)
        (subst
          (λ (n : ℕ).
            Returns (Done (loaded_before (p / 512)) n count src w)
              (write_loop (max_sectors + 1) src count (p / 512) (p % 512) dirty w))
          (omega arith)
          (write_loop-Done (max_sectors + 1) src count (p / 512) (p % 512) dirty w starts.0
            (omega arith) (λ more. omega arith) (omega arith) (omega arith) free)))
  where
    long : loaded_before (p / 512) ≡ true → direct * 512 < i.i_size
    long e = ground arith

    table_there :
        (b : Bool)
        → loaded_before (p / 512) ≡ b
        → not (b && (second (start_state part i dirty_words) == 0)) ≡ true
    table_there true e =
        rw (ne→==_false (second (start_state part i dirty_words)) 0 (has_table part i s (long e)))
          refl
    table_there false e = refl

    table_read :
        (b : Bool)
        → loaded_before (p / 512) ≡ b
        → (if b
            then read_words part.disk (second (start_state part i dirty_words))
            else ok dirty_words)
          ≡ ok (
              if b
              then table_at part.disk (second (start_state part i dirty_words))
              else dirty_words)
    table_read true e =
        rw
          (le→leb (second (start_state part i dirty_words)) max_lba
            (s.file.table_block (has_table part i s (long e))).2)
          refl
    table_read false e = refl

    w : Writing
    w = start_state part i (
        if loaded_before (p / 512)
        then table_at part.disk (second (start_state part i dirty_words))
        else dirty_words)

    starts :
        Inv (loaded_before (p / 512)) w
        × ((k : ℕ)
            → k < max_sectors
            → lba_of (loaded_before (p / 512)) w k
              ≡ lba_of false (start_state part i dirty_words) k)
    starts = first_round part i s dirty_words (loaded_before (p / 512)) long

pub file_read-file_write :
    (part : Part) (i : Inode) (src : ℕ → ℕ) (count p : ℕ) (dirty dirty_words pad : ℕ → ℕ)
    → IsStored part i
    → p ≤ i.i_size
    → p + count ≤ max_sectors * 512
    → (0 < count → need (p / 512) (p % 512) count ≤ free_blocks part)
    → Returns
        (λ (i', part', pos).
          (buf : ℕ → ℕ)
          → file_read part'.disk (file_of i') count p buf ≡ ok (values src 0 count, pos))
        (file_write part i src count p dirty dirty_words pad)
file_read-file_write part i src count p dirty dirty_words pad s inside fits free =
    Returns-mono (WriteResult part i src count p)
      (λ ((i', part', pos) : Inode × Part × ℕ).
        (buf : ℕ → ℕ)
        → file_read part'.disk (file_of i') count p buf ≡ ok (values src 0 count, pos))
      (file_write part i src count p dirty dirty_words pad)
      (file_write-WriteResult part i src count p dirty dirty_words pad s inside fits free)
      (λ (i', part', pos) r buf. read_back i' part' pos r buf)
  where
    read_back :
        (i' : Inode) (part' : Part) (pos : ℕ)
        → WriteResult part i src count p (i', part', pos)
        → (buf : ℕ → ℕ)
        → file_read part'.disk (file_of i') count p buf ≡ ok (values src 0 count, pos)
    read_back i' part' pos r buf =
        file_read-content part'.disk (file_of i') count p buf r.allocated
          (omega (arith, r.size, s.size)) (omega (arith, r.size))
        ∙ ap (λ (n : ℕ). ok (values (content part'.disk (file_of i')) p n, p + n))
            (omega (arith, r.size))
        ∙ ap₂ (λ (bytes : List ℕ) (n : ℕ). ok (bytes, n))
            (values-agree (content part'.disk (file_of i')) src p 0 count
              (λ j lt. r.written j lt ∙ ap src (omega arith)))
            (sym r.position)
