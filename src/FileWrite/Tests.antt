-- ===== src/FileWrite/Tests.antt =====
-- A write to a file of 600 bytes that goes on behind its end.
use fizzos.Base.{
  ℕ, zero, suc, ◌%◌, ◌<◌, ◌≤◌, ◌≡◌, ◌⊎◌, inl, inr, refl, sym, ap, false, [], ◌∷◌, ok, arith, get_or,
  Returns, replicate, subst, ltb, Bool-cases, values,
}
use fizzos.Bitmap.{Bitmap, test_bit}
use fizzos.Bitmap.Bits.{IsValid}
use fizzos.File.{direct, file_read}
use fizzos.Inodes.{Inode, Part}
use fizzos.FileWrite.{file_write}
use fizzos.FileWrite.Alloc.{IsReady, IsTaken}
use fizzos.FileWrite.Sectors.{lba_of, IsFile}
use fizzos.FileWrite.Finish.{file_of}
use fizzos.FileWrite.Content.{
  start_state, IsStored, WriteResult, file_write-WriteResult, file_read-file_write,
}

-- The first two blocks are taken.
abbrev two_taken : Bitmap
two_taken = record { bits = 3 ∷ []; byte_size = 1; behind = λ i. 0; depth = 0 }

two_taken-IsValid : IsValid two_taken
two_taken-IsValid = record { sized = omega arith; bytes = small; beyond = λ i. omega arith }
  where
    small : (i : ℕ) → get_or two_taken.bits i 0 < 256
    small zero = omega arith
    small (suc i) = omega arith

abbrev home : Part
home = record {
  sb = record {
    sec_cnt = 2000;
    inode_cnt = 4096;
    part_lba_base = 0;
    block_bitmap_lba = 2;
    block_bitmap_sects = 1;
    inode_bitmap_lba = 3;
    inode_bitmap_sects = 1;
    inode_table_lba = 4;
    inode_table_sects = 512;
    data_start_lba = 516;
  };
  disk = λ s o. get_or two_taken.bits o 0;
  inode_bitmap = two_taken;
  block_bitmap = two_taken;
  open_inodes = [];
}

home-IsReady : IsReady home
home-IsReady = record {
  valid = two_taken-IsValid;
  mirrored = λ idx lt. ap (λ (o : ℕ). test_bit (get_or two_taken.bits o 0) (idx % 8)) (omega arith);
  before = omega arith;
  start = omega arith;
  room = omega arith;
}

abbrev letter : Inode
letter = record {
  i_no = 1;
  i_flags = 0;
  i_size = 600;
  i_count = 1;
  i_mode = 0;
  i_sectors = 516 ∷ 517 ∷ replicate 11 0;
}

abbrev sector_of : ℕ → ℕ
sector_of k = lba_of false (start_state home letter (λ k. 0)) k

no_sector : (n k : ℕ) → get_or {A = ℕ} (replicate n 0) k 0 ≡ 0
no_sector zero k = refl
no_sector (suc n) zero = refl
no_sector (suc n) (suc k) = no_sector n k

sector-cases :
    (k : ℕ)
    → ((k ≡ 0) × (sector_of k ≡ 516))
      ⊎ ((k ≡ 1) × (sector_of k ≡ 517))
      ⊎ ((2 ≤ k) × (sector_of k ≡ 0))
sector-cases zero = inl (refl, refl)
sector-cases (suc zero) = inr (inl (refl, refl))
sector-cases (suc (suc k)) = inr (
    inr (
      omega arith,
      elim (Bool-cases (ltb (suc (suc k)) direct)) [
        | inl below ↦ rw below (no_sector 11 k)
        | inr above ↦ rw above refl
      ],
    ))

letter-IsFile : IsFile home 0 sector_of
letter-IsFile = record {
  blocks = λ k lt there. elim (sector-cases k) [
    | inl (at, e) ↦ subst (IsTaken home) (sym e) (omega arith, refl, omega arith)
    | inr (inl (at, e)) ↦ subst (IsTaken home) (sym e) (omega arith, refl, omega arith)
    | inr (inr (at, e)) ↦ absurd (there e)
  ];
  words = λ k lt. elim (sector-cases k) [
    | inl (at, e) ↦ omega arith
    | inr (inl (at, e)) ↦ omega arith
    | inr (inr (at, e)) ↦ omega arith
  ];
  apart = λ j k ltj ltk there same. ground (arith, sector-cases j, sector-cases k);
  table_block = λ there. absurd (there refl);
  beside = λ k lt there. there;
}

letter-IsStored : IsStored home letter
letter-IsStored = record {
  ready = home-IsReady;
  file = letter-IsFile;
  thirteen = refl;
  first = λ there. absurd (there refl);
  size = omega arith;
  allocated = λ k lt z. elim (sector-cases k) [
    | inl (at, e) ↦ absurd (omega arith)
    | inr (inl (at, e)) ↦ absurd (omega arith)
    | inr (inr (at, e)) ↦ absurd (omega arith)
  ];
  place = record { table = omega arith; before = omega arith; number = omega arith };
}

file_write-WriteResult_example :
    Returns
      (WriteResult home letter (λ k. k % 256) 700 500)
      (file_write home letter (λ k. k % 256) 700 500 (λ k. 0) (λ k. 0) (λ k. 0))
file_write-WriteResult_example =
    file_write-WriteResult home letter (λ k. k % 256) 700 500 (λ k. 0) (λ k. 0) (λ k. 0)
      letter-IsStored (omega arith) (omega arith) (λ more. omega arith)

file_read-file_write_example :
    Returns
      (λ (i', part', pos).
        (buf : ℕ → ℕ)
        → file_read part'.disk (file_of i') 700 500 buf ≡ ok (values (λ k. k % 256) 0 700, pos))
      (file_write home letter (λ k. k % 256) 700 500 (λ k. 0) (λ k. 0) (λ k. 0))
file_read-file_write_example =
    file_read-file_write home letter (λ k. k % 256) 700 500 (λ k. 0) (λ k. 0) (λ k. 0)
      letter-IsStored (omega arith) (omega arith) (λ more. omega arith)
