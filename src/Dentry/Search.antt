-- ===== src/Dentry/Search.antt =====
-- The search on disk for the longest names.
use fizzos.Base.{
  ℕ, zero, suc, ◌+◌, ◌≤◌, ◌≡◌, ◌≢◌, refl, subst, List, Option, none, some, Outcome, ok, panic,
  fault, blocked, out_of_fuel, ◌>>=◌, arith, ◌==◌, get_or, Bool-cases, inl, inr,
}
use fizzos.Dentry.{
  DentryDisk, NameBytes, Sector, entries, words, as_entries, as_words, find_entry, or_rest,
  find_in_table, find_on_disk,
}
use fizzos.Dentry.Names.{IsName, long_name-matches}

-- A search that did not find an entry.
abbrev FindsNone : Outcome (Option DentryDisk) → Type 0
FindsNone (ok (some e)) = ⊥
FindsNone _ = 0 ≤ 0

module _ (fname : NameBytes) (disk : ℕ → Sector) (name : IsName fname 24) where
  sector_missing : (n j : ℕ) (f : ℕ → DentryDisk) → find_entry fname 24 n j f ≡ none
  unfolding find_entry
  sector_missing zero j f = refl
  sector_missing (suc n) j f = rw (long_name-matches fname (f j) name) (sector_missing n (j + 1) f)

  in_sector_missing :
      (s : Sector) (rest : Outcome (Option DentryDisk))
      → FindsNone rest
      → FindsNone (as_entries s >>= (λ f. or_rest (find_entry fname 24 16 0 f) rest))
  in_sector_missing (entries f) rest m = rw (sector_missing 16 0 f) m
  in_sector_missing (words t) rest m = omega arith

  table_missing :
      (table : ℕ → ℕ) (n times : ℕ) → FindsNone (find_in_table fname 24 disk table n times)
  unfolding find_in_table
  table_missing table zero times = omega arith
  table_missing table (suc n) times =
      in_sector_missing (disk (table times)) (find_in_table fname 24 disk table n (times + 1))
        (table_missing table n (times + 1))

  rest_missing :
      (found rest : Outcome (Option DentryDisk))
      → FindsNone found
      → FindsNone rest
      → FindsNone (found >>= (λ d. or_rest d rest))
  rest_missing (ok none) rest a b = b
  rest_missing (ok (some e)) rest a b = absurd a
  rest_missing panic rest a b = a
  rest_missing fault rest a b = a
  rest_missing blocked rest a b = a
  rest_missing out_of_fuel rest a b = a

  second_missing :
      (s : Sector) (rest : Outcome (Option DentryDisk))
      → FindsNone rest
      → FindsNone (
          as_words s
          >>= (λ t. find_in_table fname 24 disk t 128 0 >>= (λ found. or_rest found rest)))
  second_missing (entries f) rest m = omega arith
  second_missing (words t) rest m =
      rest_missing (find_in_table fname 24 disk t 128 0) rest (table_missing t 128 0) m

  disk_missing :
      (sectors : List ℕ) (n idx : ℕ) → FindsNone (find_on_disk fname 24 disk sectors n idx)
  unfolding find_on_disk
  disk_missing sectors zero idx = omega arith
  disk_missing sectors (suc n) idx = elim (Bool-cases (get_or sectors idx 0 == 0)) [
    | inl none_there ↦ rw none_there (disk_missing sectors n (idx + 1))
    | inr there ↦ elim (Bool-cases (idx == 12)) [
      | inl last ↦
          rw (there, last)
            (second_missing (disk (get_or sectors idx 0))
              (find_on_disk fname 24 disk sectors n (idx + 1)) (disk_missing sectors n (idx + 1)))
      | inr direct ↦
          rw (there, direct)
            (in_sector_missing (disk (get_or sectors idx 0))
              (find_on_disk fname 24 disk sectors n (idx + 1)) (disk_missing sectors n (idx + 1)))
    ]
  ]

-- Whatever a directory's sectors hold, the search of them never finds a name of 24 bytes, the longest
-- that an entry has room for.
pub find_on_disk-long_name :
    (fname : NameBytes) (disk : ℕ → Sector) (sectors : List ℕ) (n idx : ℕ) (e : DentryDisk)
    → IsName fname 24
    → find_on_disk fname 24 disk sectors n idx ≢ ok (some e)
find_on_disk-long_name fname disk sectors n idx e name found =
    subst FindsNone found (disk_missing fname disk name sectors n idx)
