-- ===== src/Dentry/Tests.antt =====
-- A directory with one entry, to which another one is written.
use fizzos.Base.{
  ◌≤◌, ℕ, zero, suc, ◌+◌, ◌<◌, ◌≡◌, ◌≢◌, inr, refl, [], ◌∷◌, some, ok, arith, ◌==◌, if◌then◌else◌,
  get_or, replicate, ltb, lt→ltb,
}
use fizzos.Dentry.{
  DentryDisk, NameBytes, entries, no_entry, entry_matches, find_entry, first_free, find_on_disk,
  DirState, DirWritten, dir_write, file_type,
}
use fizzos.Dentry.Names.{IsName}
use fizzos.Dentry.Search.{find_on_disk-long_name}
use fizzos.Dentry.Write.{IsDirectory, Entered, lba_of, dir_write-Entered}

-- The text of one byte.
abbrev letter : ℕ → NameBytes
letter c k = if k == 0 then c else 0

letter-IsName : IsName (letter 98) 1
letter-IsName = record { bytes = bytes; stop = refl }
  where
    bytes : (k : ℕ) → k < 1 → letter 98 k ≢ 0
    bytes zero lt = omega arith
    bytes (suc k) lt = absurd (omega arith)

-- The entries of the sector: one of them is used.
abbrev one_entry : ℕ → DentryDisk
one_entry zero = record { fname = letter 97; fname_len = 1; i_mode = 0x1000; i_no = 3 }
one_entry (suc j) = no_entry

abbrev directory : DirState
directory = record { disk = λ s. entries one_entry; i_sectors = 600 ∷ replicate 12 0; given = 0 }

no_sector : (n k : ℕ) → get_or {A = ℕ} (replicate n 0) k 0 ≡ 0
no_sector zero k = refl
no_sector (suc n) zero = refl
no_sector (suc n) (suc k) = no_sector n k

directory-IsDirectory : IsDirectory (letter 98) 1 700 directory
unfolding find_entry entry_matches
directory-IsDirectory = record {
  thirteen = refl;
  dents = λ k. one_entry;
  holds = λ k lt there. refl;
  no_match = λ k lt there. refl;
  blank = λ k j free. blank j free;
  apart = λ j k ltj ltk there same. apart j k there same;
  fresh = λ k lt there. fresh k;
  some_block = omega arith;
  low = λ k lt there. low k;
  low_block = omega arith;
}
  where
    blank : (j : ℕ) → file_type (one_entry j).i_mode ≡ 0 → (one_entry j).fname 1 ≡ 0
    blank zero free = refl
    blank (suc j) free = refl

    apart : (j k : ℕ) → lba_of directory j ≢ 0 → lba_of directory j ≡ lba_of directory k → j ≡ k
    apart zero zero there same = refl
    apart zero (suc k) there same = absurd (omega (arith, same, no_sector 12 k))
    apart (suc j) k there same = absurd (there (no_sector 12 j))

    low : (k : ℕ) → lba_of directory k ≤ 163_839
    low zero = omega arith
    low (suc k) = omega (arith, no_sector 12 k)

    fresh : (k : ℕ) → lba_of directory k ≢ 700
    fresh zero = omega arith
    fresh (suc k) = omega (arith, no_sector 12 k)

dir_write-Entered_example :
    (r : DirWritten) × (dir_write
        (λ k. ok (700 + k))
        (λ k. 5)
        32
        0x2000
        0
        []
        directory
        0x1000
        8
        (letter 98)
        1
      ≡ ok (some r))
    × Entered (letter 98) 1 8 32 [] r
unfolding first_free directory-IsDirectory
dir_write-Entered_example =
    dir_write-Entered (λ k. ok (700 + k)) 700 (λ k. 5) 32 0x2000 0 [] directory 0x1000 8 (letter 98)
      1 (omega arith) letter-IsName (omega arith) (omega arith) (omega arith) refl
      directory-IsDirectory (0, omega arith, omega arith, inr (1, refl))

-- Twenty-four times the same byte.
abbrev long_name : NameBytes
long_name k = if ltb k 24 then 97 else 0

long_name-IsName : IsName long_name 24
long_name-IsName = record { bytes = λ k lt. rw (lt→ltb k 24 lt) (omega arith); stop = refl }

find_on_disk-long_name_example :
    find_on_disk long_name 24 (λ s. entries one_entry) (600 ∷ replicate 12 0) 13 0
    ≢ ok (some (one_entry 0))
find_on_disk-long_name_example =
    find_on_disk-long_name long_name (λ s. entries one_entry) (600 ∷ replicate 12 0) 13 0
      (one_entry 0) long_name-IsName
