-- ===== src/Dentry/Write.antt =====
-- dir_write puts an entry where search_dentry finds it.
use fizzos.Base.{
  le→leb, ℕ, zero, suc, ◌+◌, ◌<◌, ◌≤◌, ◌≡◌, ◌≢◌, ◌⊎◌, inl, inr, refl, sym, ap, ◌∙◌, List, ◌∷◌,
  Option, none, some, arith, update, get_or, set, length, eq-cases, ne→==_false, ==_refl, subst,
  get_or-set_self, get_or-set_ne, Outcome, ok, ◌>>=◌, Returns, Returns-mono, Returns-ok,
}
use fizzos.Ide.{max_lba}
use fizzos.Dentry.{
  DentryDisk, NameBytes, Sector, entries, no_entry, file_type, entry_matches, find_entry,
  find_on_disk, DirState, first_free, put_entry, named, try_sector, write_direct, put_new, or_next,
  Dentry, DirWritten, dir_write, add_dots, dentry_of, max_file_size,
}
use fizzos.Dentry.Names.{IsName, named-matches, find_entry-put}

abbrev pub lba_of : DirState → ℕ → ℕ
lba_of st k = get_or st.i_sectors k 0

-- The first twelve sectors hold entries, each for itself; none has the name; where an entry is free, the
-- byte at the end of the name is 0; the next block is not among them; and the driver takes them all.
pub record IsDirectory (fname : NameBytes) (len block : ℕ) (st : DirState) : Type 0 where
  pub thirteen : length st.i_sectors ≡ 13
  pub dents : ℕ → ℕ → DentryDisk
  pub holds : (k : ℕ) → k < 12 → lba_of st k ≢ 0 → st.disk (lba_of st k) ≡ entries (dents k)
  pub no_match : (k : ℕ) → k < 12 → lba_of st k ≢ 0 → find_entry fname len 16 0 (dents k) ≡ none
  pub blank : (k j : ℕ) → file_type (dents k j).i_mode ≡ 0 → (dents k j).fname len ≡ 0
  pub apart : (j k : ℕ) → j < 12 → k < 12 → lba_of st j ≢ 0 → lba_of st j ≡ lba_of st k → j ≡ k
  pub fresh : (k : ℕ) → k < 12 → lba_of st k ≢ 0 → lba_of st k ≢ block
  pub some_block : block ≢ 0
  pub low : (k : ℕ) → k < 12 → lba_of st k ≢ 0 → lba_of st k ≤ max_lba
  pub low_block : block ≤ max_lba

-- A sector of the directory from `idx` on is missing or has a free entry.
abbrev pub HasFree :
    (fname : NameBytes) (len block : ℕ) (st : DirState)
    → IsDirectory fname len block st
    → ℕ
    → Type 0
HasFree fname len block st d idx =
    (k : ℕ) × (idx ≤ k)
    × (k < 12)
    × ((lba_of st k ≡ 0) ⊎ ((j : ℕ) × (first_free 16 0 (d.dents k) ≡ some j)))

-- The entry is found from sector `idx` on, and the sectors before it are as they were.
pub record Found (fname : NameBytes) (len i_no n idx : ℕ) (st st' : DirState) : Type 0 where
  pub entry : DentryDisk
  pub number : entry.i_no ≡ i_no
  pub found : find_on_disk fname len st'.disk st'.i_sectors (suc n) idx ≡ ok (some entry)
  pub sectors : (k : ℕ) → k < idx → lba_of st' k ≡ lba_of st k
  pub bytes : (k : ℕ) → k < idx → lba_of st k ≢ 0 → st'.disk (lba_of st k) ≡ st.disk (lba_of st k)

module _ (fname : NameBytes) (len : ℕ) (disk : ℕ → Sector) (sectors : List ℕ) (n idx : ℕ)
    (f : ℕ → DentryDisk) where
  -- One sector of the search, where the entry is in it and where it is not.
  find_on_disk-here :
      (e : DentryDisk)
      → idx < 12
      → get_or sectors idx 0 ≢ 0
      → disk (get_or sectors idx 0) ≡ entries f
      → find_entry fname len 16 0 f ≡ some e
      → find_on_disk fname len disk sectors (suc n) idx ≡ ok (some e)
  unfolding find_on_disk
  find_on_disk-here e lt there holds is =
      rw (ne→==_false (get_or sectors idx 0) 0 there, ne→==_false idx 12 (omega arith), holds, is)
        refl

  find_on_disk-skip :
      idx < 12
      → get_or sectors idx 0 ≢ 0
      → disk (get_or sectors idx 0) ≡ entries f
      → find_entry fname len 16 0 f ≡ none
      → find_on_disk fname len disk sectors (suc n) idx
        ≡ find_on_disk fname len disk sectors n (idx + 1)
  unfolding find_on_disk
  find_on_disk-skip lt there holds is_not =
      rw
        (
          ne→==_false (get_or sectors idx 0) 0 there,
          ne→==_false idx 12 (omega arith),
          holds,
          is_not,
        )
        refl

module _ (fname : NameBytes) (len mode i_no block n idx : ℕ) (st : DirState)
    (name : IsName fname len) (short : len < 24) (known : file_type mode ≢ 0)
    (d : IsDirectory fname len block st) (lt : idx < 12) where
  -- The entry goes to a sector of its own.
  abbrev in_new : DirState
  in_new =
      put_entry block 0 (named fname len mode i_no no_entry) (λ k. no_entry)
        (record st { i_sectors = set st.i_sectors idx block; given = st.given + 1 })

  in_new-Found : Found fname len i_no n idx st in_new
  unfolding find_entry entry_matches first_free
  in_new-Found = record {
    entry = named fname len mode i_no no_entry;
    number = refl;
    found =
        find_on_disk-here fname len in_new.disk in_new.i_sectors n idx
          (update (λ k. no_entry) 0 (named fname len mode i_no no_entry))
          (named fname len mode i_no no_entry) lt (λ z. d.some_block (sym at ∙ z))
          (rw (at, ==_refl block) refl)
          (find_entry-put fname len 16 0 0 (λ k. no_entry) (named fname len mode i_no no_entry) refl
            refl (named-matches fname len mode i_no no_entry name short known refl));
    sectors = λ k before. get_or-set_ne st.i_sectors idx k block 0 (omega arith);
    bytes =
        λ k before there. rw (ne→==_false (lba_of st k) block (d.fresh k (omega arith) there)) refl;
  }
    where
      at : get_or (set st.i_sectors idx block) idx 0 ≡ block
      at = get_or-set_self st.i_sectors idx block 0 (omega (arith, d.thirteen))

  -- The entry goes to a free place of the sector.
  module _ (j : ℕ) (there : lba_of st idx ≢ 0) (free : first_free 16 0 (d.dents idx) ≡ some j) where
    abbrev new : DentryDisk
    new = named fname len mode i_no (d.dents idx j)

    abbrev in_old : DirState
    in_old = put_entry (lba_of st idx) j new (d.dents idx) st

    in_old-Found : file_type (d.dents idx j).i_mode ≡ 0 → Found fname len i_no n idx st in_old
    in_old-Found is_free = record {
      entry = new;
      number = refl;
      found =
          find_on_disk-here fname len in_old.disk st.i_sectors n idx (update (d.dents idx) j new)
            new lt there (rw (==_refl (lba_of st idx)) refl)
            (find_entry-put fname len 16 0 j (d.dents idx) new (d.no_match idx lt there) free (
              named-matches fname len mode i_no (d.dents idx j) name short known
                (d.blank idx j is_free)));
      sectors = λ k before. refl;
      bytes = λ k before some_there.
          rw
            (ne→==_false (lba_of st k) (lba_of st idx)
              (λ e. absurd (omega (arith, d.apart k idx (omega arith) lt some_there e))))
            refl;
    }

  -- The sector is full, and the entry is found behind it.
  later-Found :
      (st' : DirState)
      → lba_of st idx ≢ 0
      → Found fname len i_no n (idx + 1) st st'
      → Found fname len i_no (suc n) idx st st'
  later-Found st' there f = record {
    entry = f.entry;
    number = f.number;
    found =
        find_on_disk-skip fname len st'.disk st'.i_sectors (suc n) idx (d.dents idx) lt
          (λ z. there (sym (f.sectors idx (omega arith)) ∙ z))
          (ap st'.disk (f.sectors idx (omega arith))
            ∙ f.bytes idx (omega arith) there
            ∙ d.holds idx lt there)
          (d.no_match idx lt there)
        ∙ f.found;
    sectors = λ k before. f.sectors k (omega arith);
    bytes = λ k before. f.bytes k (omega arith);
  }

-- The place that first_free gives is free.
first_free-free :
    (n j i : ℕ) (f : ℕ → DentryDisk) → first_free n j f ≡ some i → file_type (f i).i_mode ≡ 0
unfolding first_free
first_free-free zero j i f e = absurd (ground arith)
first_free-free (suc n) j i f e = elim (eq-cases (file_type (f j).i_mode) 0) [
  | inl free ↦ subst (λ (k : ℕ). file_type (f k).i_mode ≡ 0) (some_inj (rw free at e)) free
  | inr used ↦ first_free-free n (j + 1) i f (rw (ne→==_false (file_type (f j).i_mode) 0 used) at e)
]
  where
    some_inj : some j ≡ some i → j ≡ i
    some_inj e = ap (λ (o : Option ℕ). elim o [ none ↦ 0 | some k ↦ k ]) e

module _ (new_block : ℕ → Outcome ℕ) (block : ℕ) (fname : NameBytes) (len mode i_no : ℕ)
    (dirty : ℕ → ℕ) (st : DirState) (gives : new_block st.given ≡ ok block)
    (name : IsName fname len) (short : len < 24) (known : file_type mode ≢ 0)
    (d : IsDirectory fname len block st) where
  -- A sector that is there, with what the search of it gives.
  in_sector :
      (n idx : ℕ)
      → idx < 12
      → lba_of st idx ≢ 0
      → (o : Option ℕ) → first_free 16 0 (d.dents idx) ≡ o
      → (rest : Outcome DirState) → (o ≡ none → Returns (Found fname len i_no n (idx + 1) st) rest)
      → Returns (Found fname len i_no (suc n) idx st) (
          try_sector new_block fname len mode i_no (lba_of st idx) st
          >>= (λ done. or_next new_block fname len mode i_no done rest))
  unfolding try_sector
  in_sector n idx lt there none is rest h =
      rw (le→leb (lba_of st idx) max_lba (d.low idx lt there), d.holds idx lt there, is)
        (Returns-mono (Found fname len i_no n (idx + 1) st) (Found fname len i_no (suc n) idx st)
          rest (h refl)
          (λ st' f.
            later-Found fname len mode i_no block n idx st name short known d lt st' there f))
  in_sector n idx lt there (some j) is rest h =
      rw (le→leb (lba_of st idx) max_lba (d.low idx lt there), d.holds idx lt there, is)
        (in_old-Found fname len mode i_no block (suc n) idx st name short known d lt j there is
          (first_free-free 16 0 j (d.dents idx) is))

  write_direct-Found :
      (n idx : ℕ)
      → n + idx ≡ 12
      → HasFree fname len block st d idx
      → Returns
          (Found fname len i_no n idx st)
          (write_direct new_block fname len mode i_no dirty n idx st)
  unfolding write_direct put_new
  write_direct-Found zero idx sum (k, ge, lt, free) = absurd (omega arith)
  write_direct-Found (suc n) idx sum (k, ge, lt, free) = elim (eq-cases (lba_of st idx) 0) [
    | inl missing ↦
        rw (missing, gives, le→leb block max_lba d.low_block)
          (in_new-Found fname len mode i_no block (suc n) idx st name short known d (omega arith))
    | inr there ↦ rw (ne→==_false (lba_of st idx) 0 there) (
        in_sector n idx (omega arith) there (first_free 16 0 (d.dents idx)) refl
          (write_direct new_block fname len mode i_no dirty n (idx + 1) st)
          (λ full. write_direct-Found n (idx + 1) (omega arith) (k, above there full, lt, free)))
  ]
    where
      above : lba_of st idx ≢ 0 → first_free 16 0 (d.dents idx) ≡ none → idx + 1 ≤ k
      above there full = elim (eq-cases k idx) [
        | inr ne ↦ omega arith
        | inl same ↦ absurd (clash same free)
      ]
        where
          clash :
              k ≡ idx → (lba_of st k ≡ 0) ⊎ ((j : ℕ) × (first_free 16 0 (d.dents k) ≡ some j)) → ⊥
          clash same (inl z) = there (ap (lba_of st) (sym same) ∙ z)
          clash same (inr (j, is)) =
              ground
                (arith, (sym full ∙ ap (λ (i : ℕ). first_free 16 0 (d.dents i)) (sym same) ∙ is))

-- What dir_write leaves: the new entry in memory and one on disk, which the search of the directory's
-- sectors finds.
pub record Entered (fname : NameBytes) (len i_no i_size : ℕ) (subdirs : List Dentry)
    (r : DirWritten) : Type 0 where
  pub entry : DentryDisk
  pub number : entry.i_no ≡ i_no
  pub on_disk : find_on_disk fname len r.state.disk r.state.i_sectors 13 0 ≡ ok (some entry)
  pub in_memory : r.subdirs ≡ dentry_of fname len i_no ∷ subdirs
  pub size : r.i_size ≡ i_size + 32

-- dir_write of a file that is not a directory, by a name of less than 24 bytes, into a directory
-- that is not as large as can be: its first twelve sectors are different, are ones that the driver takes,
-- do not have the name, and have room; each free entry in them has a 0 at the offset of the end of the
-- name; and the next call of block_bimap_alloc returns a block that is none of them and that the driver
-- takes. Then it returns, and the search of the sectors of the directory finds an entry of that inode.
pub dir_write-Entered :
    (new_block : ℕ → Outcome ℕ) (block : ℕ) (dirty : ℕ → ℕ) (i_size up_mode up_no : ℕ)
    (subdirs : List Dentry) (st : DirState) (mode i_no : ℕ) (fname : NameBytes) (len : ℕ)
    → i_size ≢ max_file_size
    → IsName fname len
    → len < 24
    → file_type mode ≢ 0
    → file_type mode ≢ 2
    → new_block st.given ≡ ok block
    → (d : IsDirectory fname len block st) → HasFree fname len block st d 0
    → (r : DirWritten) × (dir_write new_block dirty i_size up_mode up_no subdirs st mode i_no fname
          len
        ≡ ok (some r))
      × Entered fname len i_no i_size subdirs r
unfolding dir_write add_dots
dir_write-Entered new_block block dirty i_size up_mode up_no subdirs st mode i_no fname len room
      name short known not_dir gives d free =
    let (st', run, f) =
      Returns-ok (Found fname len i_no 12 0 st)
        (write_direct new_block fname len mode i_no dirty 12 0 st)
        (write_direct-Found new_block block fname len mode i_no dirty st gives name short known d 12
          0 refl free) in
    (
      record {
        state = st';
        i_size = i_size + 32;
        subdirs = dentry_of fname len i_no ∷ subdirs;
        own_sector = none;
      },
      rw (ne→==_false i_size max_file_size room, run, ne→==_false (file_type mode) 2 not_dir) refl,
      record {
        entry = f.entry;
        number = f.number;
        on_disk = f.found;
        in_memory = refl;
        size = refl;
      },
    )
