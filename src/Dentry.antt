-- ===== src/Dentry.antt =====
-- fs/dir.c: search_dentry and dir_write, over the sectors of a directory. A sector is an array of 16
-- entries, or the 128 words of a second table; reading one as the other is a `fault`. The inode of an
-- entry is its number. The blocks that block_bimap_alloc gives are an argument, by how many were given.
pub mod Names
pub mod Search
pub mod Write
mod Tests
use fizzos.Ide.{max_lba}
use fizzos.Base.{
  assert, ◌>>◌, leb, ℕ, zero, suc, ◌+◌, ◌-◌, ◌*◌, ◌/◌, ◌%◌, ◌^◌, Bool, true, false, not, ◌&&◌, ◌||◌,
  List, [], ◌∷◌, Option, none, some, Outcome, ok, panic, fault, ◌>>=◌, ◌>>◌, assert, ◌==◌, ltb,
  if◌then◌else◌, get_or, set, update,
}

-- The bytes of a name; of an entry on disk, 24 of them.
abbrev pub NameBytes : Type 0
NameBytes = ℕ → ℕ

pub record DentryDisk : Type 0 where
  pub fname : NameBytes
  pub fname_len : ℕ
  pub i_mode : ℕ
  pub i_no : ℕ

-- An entry of zeroes.
abbrev pub no_entry : DentryDisk
no_entry = record { fname = λ k. 0; fname_len = 0; i_mode = 0; i_no = 0 }

pub data Sector : Type 0 where
  entries : (ℕ → DentryDisk) → Sector
  words : (ℕ → ℕ) → Sector

abbrev pub as_entries : Sector → Outcome (ℕ → DentryDisk)
as_entries (entries f) = ok f
as_entries (words t) = fault

abbrev pub as_words : Sector → Outcome (ℕ → ℕ)
as_words (entries f) = fault
as_words (words t) = ok t

-- `fname` in memory has a byte more, and is cleared before the name is copied to it.
pub record Dentry : Type 0 where
  pub fname : NameBytes
  pub fname_len : ℕ
  pub count : ℕ
  pub i_no : ℕ

abbrev pub file_type : ℕ → ℕ
file_type mode = mode / 2 ^ 12 % 16

-- The bytes from `fname` of an entry on disk on: behind the 24 of the name is the length's low byte.
abbrev pub bytes_of : DentryDisk → NameBytes
bytes_of d k = if ltb k 24 then d.fname k else d.fname_len % 256

-- strncmp gives 0: it also compares the bytes behind the first `n`.
pub same_name : ℕ → ℕ → NameBytes → NameBytes → Bool
same_name k zero f g = f k == g k
same_name k (suc n) f g =
    let rest = same_name (k + 1) n f g in
    if not (f k == 0) && not (g k == 0) && (f k == g k) then rest else f k == g k

pub entry_matches : NameBytes → ℕ → DentryDisk → Bool
unfolding same_name
entry_matches dname len d =
    not (file_type d.i_mode == 0) && (d.fname_len == len) && same_name 0 len (bytes_of d) dname

-- The entries of one sector from `j` on, `n` of them.
pub find_entry : NameBytes → ℕ → ℕ → ℕ → (ℕ → DentryDisk) → Option DentryDisk
find_entry dname len zero j f = none
find_entry dname len (suc n) j f =
    let rest = find_entry dname len n (j + 1) f in
    if entry_matches dname len (f j) then some (f j) else rest

-- What follows where an entry was not found yet.
abbrev pub or_rest : Option DentryDisk → Outcome (Option DentryDisk) → Outcome (Option DentryDisk)
or_rest none rest = rest
or_rest (some d) rest = ok (some d)

-- The sectors in the second table, also those of the number 0.
pub find_in_table : NameBytes → ℕ → (ℕ → Sector) → (ℕ → ℕ) → ℕ → ℕ → Outcome (Option DentryDisk)
unfolding find_entry
find_in_table dname len disk table zero times = ok none
find_in_table dname len disk table (suc n) times =
    let rest = find_in_table dname len disk table n (times + 1) in
    as_entries (disk (table times)) >>= (λ f. or_rest (find_entry dname len 16 0 f) rest)

-- The sectors of the directory from `idx` on, `n` of them.
pub find_on_disk : NameBytes → ℕ → (ℕ → Sector) → List ℕ → ℕ → ℕ → Outcome (Option DentryDisk)
unfolding find_in_table find_entry
find_on_disk dname len disk sectors zero idx = ok none
find_on_disk dname len disk sectors (suc n) idx =
    let lba = get_or sectors idx 0 in
    let rest = find_on_disk dname len disk sectors n (idx + 1) in
    if lba == 0
    then rest
    else (if idx == 12
        then (do
          t ← as_words (disk lba)
          found ← find_in_table dname len disk t 128 0
          or_rest found rest)
        else (do f ← as_entries (disk lba); or_rest (find_entry dname len 16 0 f) rest))

-- The entries in memory: the first of the same name is counted once more.
pub find_cached : NameBytes → ℕ → List Dentry → Option (Dentry × List Dentry)
unfolding same_name
find_cached dname len [] = none
find_cached dname len (d ∷ rest) =
    let behind = find_cached dname len rest in
    let counted : Dentry = record d { count = d.count + 1 } in
    if same_name 0 len d.fname dname
    then some (counted, counted ∷ rest)
    else elim behind [ none ↦ none | some (e, rest') ↦ some (e, d ∷ rest') ]

pub data SearchResult : Type 0 where
  itself : SearchResult
  above : SearchResult
  child : Dentry → List Dentry → SearchResult
  missing : SearchResult

-- A new entry in memory.
abbrev pub dentry_of : NameBytes → ℕ → ℕ → Dentry
dentry_of dname len i_no = record {
  fname = λ k. if ltb k len then dname k else 0;
  fname_len = len;
  count = 1;
  i_no = i_no;
}

abbrev pub dot : ℕ
dot = 46

-- search_dentry in a directory with these entries in memory and these sectors.
pub search_dentry : (ℕ → Sector) → List Dentry → List ℕ → NameBytes → ℕ → Outcome SearchResult
unfolding find_cached find_on_disk
search_dentry disk subdirs sectors dname len =
    if (len == 1) && (dname 0 == dot)
    then ok itself
    else (if (len == 2) && (dname 0 == dot) && (dname 1 == dot)
        then ok above
        else elim (find_cached dname len subdirs) [
          | some (d, subdirs') ↦ ok (child d subdirs')
          | none ↦ (do
            found ← find_on_disk dname len disk sectors 13 0
            ok (elim found [
              | none ↦ missing
              | some d ↦ child (dentry_of dname len d.i_no) (dentry_of dname len d.i_no ∷ subdirs)
            ]))
        ])

-- What dir_write changes: the disk, the sectors of the directory, and how many blocks were given.
pub record DirState : Type 0 where
  pub disk : ℕ → Sector
  pub i_sectors : List ℕ
  pub given : ℕ

-- The first free entry of a sector.
pub first_free : ℕ → ℕ → (ℕ → DentryDisk) → Option ℕ
first_free zero j f = none
first_free (suc n) j f =
    let rest = first_free n (j + 1) f in if file_type (f j).i_mode == 0 then some j else rest

abbrev pub put_entry : ℕ → ℕ → DentryDisk → (ℕ → DentryDisk) → DirState → DirState
put_entry lba j d f st = record st { disk = update st.disk lba (entries (update f j d)) }

-- The name is copied over what the entry held.
abbrev pub named : NameBytes → ℕ → ℕ → ℕ → DentryDisk → DentryDisk
named fname len mode i_no old = record {
  fname = λ k. if ltb k len then fname k else old.fname k;
  fname_len = len;
  i_mode = mode;
  i_no = i_no;
}

-- `new_block` is what block_bimap_alloc gives or does, by the blocks given before.
module _ (new_block : ℕ → Outcome ℕ) (fname : NameBytes) (len mode i_no : ℕ) where
  -- One sector of the directory, where it has one.
  pub try_sector : ℕ → DirState → Outcome (Option DirState)
  unfolding first_free
  try_sector lba st = do
    assert (leb lba max_lba)
    f ← as_entries (st.disk lba)
    ok (elim (first_free 16 0 f) [
      | none ↦ none
      | some j ↦ some (put_entry lba j (named fname len mode i_no (f j)) f st)
    ])

  abbrev pub or_next : Option DirState → Outcome DirState → Outcome DirState
  or_next none rest = rest
  or_next (some st) rest = ok st

  -- A new sector with the entry.
  pub put_new : ℕ → DirState → Outcome DirState
  put_new block st =
      assert (leb block max_lba)
      >> ok (put_entry block 0 (named fname len mode i_no no_entry) (λ k. no_entry) st)

  -- The second table is written if it is a new one.
  pub sync_table : Bool → ℕ → (ℕ → ℕ) → DirState → Outcome DirState
  sync_table is_second lba table st =
      if is_second
      then assert (leb lba max_lba) >> ok (record st { disk = update st.disk lba (words table) })
      else ok st

  -- The sectors in the second table.
  pub write_in_table : Bool → ℕ → (ℕ → ℕ) → ℕ → ℕ → DirState → Outcome DirState
  unfolding try_sector put_new sync_table
  write_in_table is_second lba table zero times st = panic
  write_in_table is_second lba table (suc n) times st =
      let rest = write_in_table is_second lba table n (times + 1) st in
      if table times == 0
      then (do
        block ← new_block st.given
        st' ← put_new block (record st { given = st.given + 1 })
        sync_table is_second lba (update table times block) st')
      else (do
        done ← try_sector (table times) st
        elim done [ none ↦ rest | some st' ↦ sync_table is_second lba table st' ])

  -- Of a new second table the words are what the second half of `buf` held: the code clears the first.
  pub write_second : (ℕ → ℕ) → DirState → Outcome DirState
  unfolding write_in_table
  write_second dirty st =
      let lba = get_or st.i_sectors 12 0 in
      if lba == 0
      then (do
        block ← new_block st.given
        write_in_table true block dirty 128 0
            (record st { i_sectors = set st.i_sectors 12 block; given = st.given + 1 }))
      else (do
        assert (leb lba max_lba)
        t ← as_words (st.disk lba)
        write_in_table false lba t 128 0 st)

  pub write_direct : (ℕ → ℕ) → ℕ → ℕ → DirState → Outcome DirState
  unfolding write_second try_sector put_new
  write_direct dirty zero idx st = write_second dirty st
  write_direct dirty (suc n) idx st =
      let lba = get_or st.i_sectors idx 0 in
      let rest = write_direct dirty n (idx + 1) st in
      if lba == 0
      then (do
        block ← new_block st.given
        put_new block (record st { i_sectors = set st.i_sectors idx block; given = st.given + 1 }))
      else (do done ← try_sector lba st; or_next done rest)

abbrev pub max_file_size : ℕ
max_file_size = 71680

-- The entries of a new directory: `.` and `..`.
abbrev pub dots : ℕ → ℕ → ℕ → ℕ → ℕ → DentryDisk
dots mode i_no up_mode up_no zero = named (λ k. dot) 1 mode i_no no_entry
dots mode i_no up_mode up_no (suc zero) = named (λ k. dot) 2 up_mode up_no no_entry
dots mode i_no up_mode up_no (suc (suc j)) = no_entry

-- The result of dir_write: the directory's size, its entries in memory, and the first sector of the new
-- inode if it is a directory.
pub record DirWritten : Type 0 where
  pub state : DirState
  pub i_size : ℕ
  pub subdirs : List Dentry
  pub own_sector : Option ℕ

-- A new directory gets a sector of its own; its size is left out.
pub add_dots : (ℕ → Outcome ℕ) → ℕ → ℕ → ℕ → ℕ → DirState → Outcome (DirState × Option ℕ)
add_dots new_block mode i_no up_mode up_no st =
    if file_type mode == 2
    then (do
      block ← new_block st.given
      assert (leb block max_lba)
      ok (
        record st {
          disk = update st.disk block (entries (dots mode i_no up_mode up_no));
          given = st.given + 1;
        },
        some block,
      ))
    else ok (st, none)

-- dir_write of a name for an inode into a directory (with `up_mode`, `up_no`): none for NULL.
pub dir_write :
    (ℕ → Outcome ℕ)
    → (ℕ → ℕ)
    → ℕ
    → ℕ
    → ℕ
    → List Dentry
    → DirState
    → ℕ
    → ℕ
    → NameBytes
    → ℕ
    → Outcome (Option DirWritten)
unfolding write_direct add_dots
dir_write new_block dirty i_size up_mode up_no subdirs st mode i_no fname len =
    if i_size == max_file_size then ok none else (do
      st ← write_direct new_block fname len mode i_no dirty 12 0 st
      (st', own) ← add_dots new_block mode i_no up_mode up_no st
      ok (
          some (record {
            state = st';
            i_size = i_size + 32;
            subdirs = dentry_of fname len i_no ∷ subdirs;
            own_sector = own;
          })))
