-- ===== src/FileWrite/Rounds.antt =====
-- A round of the loop of file_write writes its part of one sector.
use fizzos.Base.{
  ℕ, ◌+◌, ◌<◌, ◌≤◌, ◌≡◌, ◌≢◌, ◌⊎◌, inl, inr, refl, sym, ap, ◌∙◌, Bool, arith, ◌==◌, ltb, leb,
  if◌then◌else◌, eq-cases, subst, Returns, Returns-mono,
}
use fizzos.File.{direct, max_sectors}
use fizzos.FileWrite.{Writing, load_table}
use fizzos.FileWrite.Alloc.{free_blocks}
use fizzos.FileWrite.Sectors.{lba_of, Inv}
use fizzos.FileWrite.Round.{Moved, Loaded, load_table-Loaded, load_table-skip}
use fizzos.FileWrite.Fill.{Filled}
use fizzos.FileWrite.Put.{Replaced}

-- Whether the table is in `io_buf` before the round for a sector, and whether it is in the round.
abbrev pub loaded_before : ℕ → Bool
loaded_before sec = ltb direct sec

abbrev pub loaded_in : ℕ → Bool
loaded_in sec = leb direct sec

abbrev pub table_cost : ℕ → ℕ
table_cost sec = if sec == direct then 1 else 0

-- The state behind load_table in a round.
pub record Prepared (sec : ℕ) (w w' : Writing) : Type 0 where
  pub inv : Inv (loaded_in sec) w'
  pub moved : Moved (table_cost sec) w w'
  pub same :
      (k : ℕ) → k < max_sectors → lba_of (loaded_in sec) w' k ≡ lba_of (loaded_before sec) w k

pub load_table-Prepared :
    (sec : ℕ) (w : Writing)
    → Inv (loaded_before sec) w
    → table_cost sec ≤ free_blocks w.part
    → Returns (Prepared sec w) (load_table sec w)
load_table-Prepared sec w i free = elim (eq-cases sec direct) [
  | inl at ↦
      subst
        (λ (s : ℕ).
          Inv (loaded_before s) w
          → table_cost s ≤ free_blocks w.part
          → Returns (Prepared s w) (load_table s w))
        (sym at)
        (λ i free.
          Returns-mono (Loaded w) (Prepared direct w) (load_table direct w)
            (load_table-Loaded w i free)
            (λ w' l. record { inv = l.inv; moved = l.moved; same = l.same }))
        i free
  | inr ne ↦ rw (load_table-skip sec w ne) (record {
    inv = subst (λ (b : Bool). Inv b w) (same_flag ne) i;
    moved = record { sb = refl; disk = λ s o ge. refl; free = omega arith };
    same = λ k lt. ap (λ (b : Bool). lba_of b w k) (sym (same_flag ne));
  })
]
  where
    same_flag : sec ≢ direct → loaded_before sec ≡ loaded_in sec
    same_flag ne = ground arith

-- A round has written `c` bytes from `offset` on of sector `sec`, and every other byte of the file, in
-- the sectors that it had, is as before.
pub record Rounded (b : Bool) (sec offset c : ℕ) (src : ℕ → ℕ) (w w' : Writing) : Type 0 where
  pub inv : Inv b w'
  pub sb : w'.part.sb ≡ w.part.sb
  pub free : free_blocks w.part ≤ free_blocks w'.part + 1 + table_cost sec
  pub kept :
      (k : ℕ)
      → k < max_sectors
      → lba_of (loaded_before sec) w k ≢ 0
      → lba_of b w' k ≡ lba_of (loaded_before sec) w k
  pub has : lba_of b w' sec ≢ 0
  pub written : (j : ℕ) → j < c → w'.part.disk (lba_of b w' sec) (offset + j) ≡ src j
  pub others :
      (k o : ℕ)
      → k < max_sectors
      → lba_of (loaded_before sec) w k ≢ 0
      → o < 512
      → (k ≢ sec) ⊎ (o < offset) ⊎ (offset + c ≤ o)
      → w'.part.disk (lba_of b w' k) o ≡ w.part.disk (lba_of (loaded_before sec) w k) o

module _ (sec offset c : ℕ) (src : ℕ → ℕ) (w w1 w2 w3 : Writing) (i : Inv (loaded_before sec) w)
    (lt : sec < max_sectors) (p : Prepared sec w w1) (f : Filled (loaded_in sec) sec w1 w2)
    (r : Replaced (loaded_in sec) (lba_of (loaded_in sec) w2 sec) offset c src w2 w3) where
  filled_kept :
      (k : ℕ)
      → k < max_sectors
      → lba_of (loaded_before sec) w k ≢ 0
      → lba_of (loaded_in sec) w2 k ≡ lba_of (loaded_before sec) w k
  filled_kept k small there = elim (eq-cases k sec) [
    | inr ne ↦ f.others k small ne ∙ p.same k small
    | inl same ↦
        ap (lba_of (loaded_in sec) w2) same
        ∙ f.kept (λ z. there (sym (p.same k small) ∙ ap (lba_of (loaded_in sec) w1) same ∙ z))
        ∙ ap (lba_of (loaded_in sec) w1) (sym same)
        ∙ p.same k small
  ]

  round_kept :
      (k : ℕ)
      → k < max_sectors
      → lba_of (loaded_before sec) w k ≢ 0
      → lba_of (loaded_in sec) w3 k ≡ lba_of (loaded_before sec) w k
  round_kept k small there = r.same k ∙ filled_kept k small there

  -- The blocks of the file are not written before put_bytes.
  bytes_before :
      (k o : ℕ)
      → k < max_sectors
      → lba_of (loaded_before sec) w k ≢ 0
      → w2.part.disk (lba_of (loaded_before sec) w k) o
        ≡ w.part.disk (lba_of (loaded_before sec) w k) o
  bytes_before k o small there =
      let block = (i.file.blocks k small there).0 in
      f.moved.disk (lba_of (loaded_before sec) w k) o (rw p.moved.sb block)
      ∙ p.moved.disk (lba_of (loaded_before sec) w k) o block

  round_others :
      (k o : ℕ)
      → k < max_sectors
      → lba_of (loaded_before sec) w k ≢ 0
      → o < 512
      → (k ≢ sec) ⊎ (o < offset) ⊎ (offset + c ≤ o)
      → w3.part.disk (lba_of (loaded_in sec) w3 k) o
        ≡ w.part.disk (lba_of (loaded_before sec) w k) o
  round_others k o small there in_sector out = elim (eq-cases k sec) [
    | inr ne ↦
        ap (λ (s : ℕ). w3.part.disk s o) (round_kept k small there)
        ∙ r.elsewhere (lba_of (loaded_before sec) w k) o (λ e. ne (
            f.inv.file.apart k sec small lt (λ z. there (sym (filled_kept k small there) ∙ z))
              (filled_kept k small there ∙ e)))
        ∙ bytes_before k o small there
    | inl same ↦
        ap (λ (s : ℕ). w3.part.disk s o) (r.same k ∙ ap (lba_of (loaded_in sec) w2) same)
        ∙ r.around o in_sector (in_round same out)
        ∙ ap (λ (s : ℕ). w2.part.disk s o)
            (ap (lba_of (loaded_in sec) w2) (sym same) ∙ filled_kept k small there)
        ∙ bytes_before k o small there
  ]
    where
      in_round :
          k ≡ sec → (k ≢ sec) ⊎ (o < offset) ⊎ (offset + c ≤ o) → (o < offset) ⊎ (offset + c ≤ o)
      in_round same (inl ne) = absurd (ne same)
      in_round same (inr out) = out

  pub round-Rounded : Rounded (loaded_in sec) sec offset c src w w3
  round-Rounded = record {
    inv = r.inv;
    sb = r.sb ∙ f.moved.sb ∙ p.moved.sb;
    free = omega (arith, r.free, f.moved.free, p.moved.free);
    kept = round_kept;
    has = λ z. f.has (sym (r.same sec) ∙ z);
    written =
        λ j small. ap (λ (s : ℕ). w3.part.disk s (offset + j)) (r.same sec) ∙ r.written j small;
    others = round_others;
  }
