-- ===== src/FileWrite/Sectors.antt =====
-- The sector numbers of a file while it is written, and what holds of them.
use fizzos.Base.{
  ℕ, ◌-◌, ◌^◌, ◌<◌, ◌≡◌, ◌≢◌, inl, inr, sym, ap, ◌∙◌, Bool, true, false, arith, ◌==◌, ltb,
  if◌then◌else◌, eq-cases, subst, get_or, length,
}
use fizzos.File.{direct, max_sectors}
use fizzos.Inodes.{Part}
use fizzos.FileWrite.{Writing, table_at}
use fizzos.FileWrite.Alloc.{IsTaken, IsReady}

abbrev pub second : Writing → ℕ
second w = get_or w.i_sectors 12 0

-- The words of the second table: those in `io_buf` once it is there, and those on disk before.
abbrev pub words_of : Bool → Writing → ℕ → ℕ
words_of true w k = w.table k
words_of false w k = if second w == 0 then 0 else table_at w.part.disk (second w) k

-- The number of each sector of the file, 0 for none.
abbrev pub lba_of : Bool → Writing → ℕ → ℕ
lba_of loaded w k = if ltb k direct then get_or w.i_sectors k 0 else words_of loaded w (k - direct)

-- The sectors of a file and its second table are blocks that are taken, each for itself.
pub record IsFile (part : Part) (table : ℕ) (lba : ℕ → ℕ) : Type 0 where
  pub blocks : (k : ℕ) → k < max_sectors → lba k ≢ 0 → IsTaken part (lba k)
  pub words : (k : ℕ) → k < max_sectors → lba k < 2 ^ 32
  pub apart : (j k : ℕ) → j < max_sectors → k < max_sectors → lba j ≢ 0 → lba j ≡ lba k → j ≡ k
  pub table_block : table ≢ 0 → IsTaken part table
  pub beside : (k : ℕ) → k < max_sectors → lba k ≢ 0 → lba k ≢ table

-- The file has the same sectors in another state.
pub IsFile-kept :
    (part part' : Part) (table : ℕ) (lba lba' : ℕ → ℕ)
    → IsFile part table lba
    → ((k : ℕ) → k < max_sectors → lba' k ≡ lba k)
    → ((s : ℕ) → IsTaken part s → IsTaken part' s)
    → IsFile part' table lba'
IsFile-kept part part' table lba lba' f same keeps = record {
  blocks = λ k lt some_there.
      subst (λ (s : ℕ). IsTaken part' s) (sym (same k lt))
        (keeps (lba k) (f.blocks k lt (λ e. some_there (same k lt ∙ e))));
  words = λ k lt. omega (arith, same k lt, f.words k lt);
  apart = λ j k ltj ltk some_there e.
      f.apart j k ltj ltk (λ z. some_there (same j ltj ∙ z)) (sym (same j ltj) ∙ e ∙ same k ltk);
  table_block = λ there. keeps table (f.table_block there);
  beside =
      λ k lt some_there e. f.beside k lt (λ z. some_there (same k lt ∙ z)) (sym (same k lt) ∙ e);
}

-- A second table is added.
pub IsFile-table :
    (part part' : Part) (table : ℕ) (lba : ℕ → ℕ)
    → IsFile part 0 lba
    → ((s : ℕ) → IsTaken part s → IsTaken part' s)
    → ((s : ℕ) → IsTaken part s → s ≢ table)
    → IsTaken part' table
    → IsFile part' table lba
IsFile-table part part' table lba f keeps fresh taken = record {
  blocks = λ k lt some_there. keeps (lba k) (f.blocks k lt some_there);
  words = f.words;
  apart = f.apart;
  table_block = λ there. taken;
  beside = λ k lt some_there. fresh (lba k) (f.blocks k lt some_there);
}

-- A sector that the file did not have is added.
pub IsFile-added :
    (part part' : Part) (table sec new : ℕ) (lba lba' : ℕ → ℕ)
    → IsFile part table lba
    → lba' sec ≡ new
    → ((k : ℕ) → k < max_sectors → k ≢ sec → lba' k ≡ lba k)
    → ((s : ℕ) → IsTaken part s → IsTaken part' s)
    → ((s : ℕ) → IsTaken part s → s ≢ new)
    → IsTaken part' new
    → new < 2 ^ 32
    → new ≢ 0
    → IsFile part' table lba'
IsFile-added part part' table sec new lba lba' f at_sec others keeps fresh taken small there =
    record {
      blocks = λ k lt some_there. elim (eq-cases k sec) [
        | inl e ↦ subst (λ (s : ℕ). IsTaken part' s) (sym (ap lba' e ∙ at_sec)) taken
        | inr ne ↦
            subst (λ (s : ℕ). IsTaken part' s) (sym (others k lt ne))
              (keeps (lba k) (old k lt ne some_there))
      ];
      words = λ k lt. elim (eq-cases k sec) [
        | inl e ↦ subst (λ (s : ℕ). s < 2 ^ 32) (sym (ap lba' e ∙ at_sec)) small
        | inr ne ↦ omega (arith, others k lt ne, f.words k lt)
      ];
      apart = apart;
      table_block = λ t. keeps table (f.table_block t);
      beside = λ k lt some_there e. elim (eq-cases k sec) [
        | inl same ↦
            fresh table (f.table_block (λ z. there (sym at_sec ∙ sym (ap lba' same) ∙ e ∙ z)))
              (sym e ∙ ap lba' same ∙ at_sec)
        | inr ne ↦ f.beside k lt (some_old k lt ne some_there) (sym (others k lt ne) ∙ e)
      ];
    }
  where
    some_old : (k : ℕ) → k < max_sectors → k ≢ sec → lba' k ≢ 0 → lba k ≢ 0
    some_old k lt ne some_there z = some_there (others k lt ne ∙ z)

    old : (k : ℕ) → k < max_sectors → k ≢ sec → lba' k ≢ 0 → IsTaken part (lba k)
    old k lt ne some_there = f.blocks k lt (some_old k lt ne some_there)

    apart : (j k : ℕ) → j < max_sectors → k < max_sectors → lba' j ≢ 0 → lba' j ≡ lba' k → j ≡ k
    apart j k ltj ltk some_there e = elim (eq-cases j sec) [
      | inl js ↦ elim (eq-cases k sec) [
        | inl ks ↦ js ∙ sym ks
        | inr kn ↦ absurd (
            fresh (lba k) (old k ltk kn (λ z. some_there (e ∙ z)))
              (sym (others k ltk kn) ∙ sym e ∙ ap lba' js ∙ at_sec))
      ]
      | inr jn ↦ elim (eq-cases k sec) [
        | inl ks ↦ absurd (
            fresh (lba j) (old j ltj jn some_there)
              (sym (others j ltj jn) ∙ e ∙ ap lba' ks ∙ at_sec))
        | inr kn ↦
            f.apart j k ltj ltk (some_old j ltj jn some_there)
              (sym (others j ltj jn) ∙ e ∙ others k ltk kn)
      ]
    ]

-- What holds between the steps of a round: `loaded` says whether the words in `io_buf` are the table's.
pub record Inv (loaded : Bool) (w : Writing) : Type 0 where
  pub ready : IsReady w.part
  pub file : IsFile w.part (second w) (lba_of loaded w)
  pub thirteen : length w.i_sectors ≡ 13
  pub there : loaded ≡ true → second w ≢ 0
  pub first :
      loaded ≡ false
      → (w.is_sync_second ≡ false) × (second w ≢ 0 → table_at w.part.disk (second w) 0 ≢ 0)
  pub synced :
      loaded ≡ true
      → w.is_sync_second ≡ false
      → (w.table 0 ≢ 0) × ((k : ℕ) → k < 128 → w.table k ≡ table_at w.part.disk (second w) k)
