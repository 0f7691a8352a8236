-- ===== src/Inodes/Sync.antt =====
-- inode_sync writes one inode of the table, which inode_open then reads, and leaves the others.
use fizzos.Base.{
  true, ok, Returns, ◌≤◌, ℕ, ◌+◌, ◌*◌, ◌/◌, ◌%◌, ◌<◌, ◌≡◌, ◌≢◌, ◌⊎◌, inl, inr, refl, sym, ap, ◌∙◌,
  false, ◌&&◌, arith, ltb, leb, le→leb, lt→ltb, eq-cases,
}
use fizzos.Disk.{sector_size, inode_size, max_files_per_part, SuperBlock, get_inode_pos}
use fizzos.Ide.{max_lba}
use fizzos.Disk.Layout.{inode_place}
use fizzos.Inodes.{
  Inode, Part, encode, decode, sectors_of, inode_sync, read_inode, with_read, with_written, copy_in,
}
use fizzos.Inodes.Codec.{IsStorable, decode-encode, decode-agree}

-- A table of 4096 inodes in sectors that the driver takes.
abbrev pub HasTable : SuperBlock → Type 0
HasTable sb = sb.inode_table_lba + 512 ≤ max_lba + 1

-- What inode_sync and inode_open do where the sectors are such.
pub with_inode : Part → Inode → (ℕ → ℕ) → (ℕ → ℕ) → Part
unfolding encode
with_inode part i pad io_buf =
    let pos = get_inode_pos i.i_no part.sb in
    let n = sectors_of pos in
    let buf =
      copy_in (with_read part.disk pos.sec_no n io_buf) pos.offset inode_size (encode pad i) in
    record part { disk = with_written part.disk pos.sec_no n buf }

unfoldable pub inode_at : Part → ℕ → (ℕ → ℕ) → Inode
unfolding decode
inode_at part i_no buf =
    let pos = get_inode_pos i_no part.sb in
    decode i_no (with_read part.disk pos.sec_no (sectors_of pos) buf) pos.offset

-- Each sector of the table is one that the driver takes.
in_reach :
    (sb : SuperBlock) (i : ℕ)
    → HasTable sb
    → i < max_files_per_part
    → leb (get_inode_pos i sb).sec_no max_lba ≡ true
in_reach sb i table lt =
    rw (inode_place sb i lt (omega arith))
      (le→leb (sb.inode_table_lba + i / 8) max_lba (omega arith))

pub inode_sync-with_inode :
    (part : Part) (i : Inode) (pad io_buf : ℕ → ℕ)
    → HasTable part.sb
    → i.i_no < max_files_per_part
    → inode_sync part i pad io_buf ≡ ok (with_inode part i pad io_buf)
unfolding inode_sync with_inode
inode_sync-with_inode part i pad io_buf table lt = rw (in_reach part.sb i.i_no table lt) refl

pub read_inode-inode_at :
    (part : Part) (i : ℕ) (buf : ℕ → ℕ)
    → HasTable part.sb
    → i < max_files_per_part
    → read_inode part i buf ≡ ok (inode_at part i buf)
unfolding read_inode inode_at
read_inode-inode_at part i buf table lt = rw (in_reach part.sb i table lt) refl

-- A byte of the sector of an inode, in the buffer.
abbrev table_byte : Part → ℕ → ℕ → ℕ
table_byte part i k = part.disk (part.sb.inode_table_lba + i / 8) k

pub read_sector :
    (disk : ℕ → ℕ → ℕ) (s : ℕ) (buf : ℕ → ℕ) (k : ℕ) → k < 512 → with_read disk s 1 buf k ≡ disk s k
read_sector disk s buf k lt =
    rw (lt→ltb k (1 * sector_size) (omega arith))
      (ap (λ (t : ℕ). disk t (k % sector_size)) (omega arith) ∙ ap (disk s) (omega arith))

inode_at-decode :
    (part : Part) (i : ℕ) (buf : ℕ → ℕ)
    → HasTable part.sb
    → i < max_files_per_part
    → inode_at part i buf ≡ decode i (table_byte part i) (i % 8 * inode_size)
unfolding inode_at
inode_at-decode part i buf table lt = rw (inode_place part.sb i lt (omega arith)) (
    decode-agree i (with_read part.disk (part.sb.inode_table_lba + i / 8) 1 buf) (table_byte part i)
      (i % 8 * inode_size)
      (λ k small.
        read_sector part.disk (part.sb.inode_table_lba + i / 8) buf (i % 8 * inode_size + k)
          (omega arith)))

-- One sector is written.
pub written_here :
    (disk : ℕ → ℕ → ℕ) (s : ℕ) (buf : ℕ → ℕ) (o : ℕ) → with_written disk s 1 buf s o ≡ buf o
written_here disk s buf o =
    rw (le→leb s s (omega arith), lt→ltb s (s + 1) (omega arith)) (ap buf (omega arith))

pub written_off :
    (disk : ℕ → ℕ → ℕ) (s t : ℕ) (buf : ℕ → ℕ) (o : ℕ)
    → t ≢ s
    → with_written disk s 1 buf t o ≡ disk t o
written_off disk s t buf o ne = rw outside refl
  where
    outside : leb s t && ltb t (s + 1) ≡ false
    outside = ground arith

pub copied_here :
    (buf : ℕ → ℕ) (start n : ℕ) (src : ℕ → ℕ) (k : ℕ)
    → k < n
    → copy_in buf start n src (start + k) ≡ src k
copied_here buf start n src k lt =
    rw (le→leb start (start + k) (omega arith), lt→ltb (start + k) (start + n) (omega arith))
      (ap src (omega arith))

pub copied_off :
    (buf : ℕ → ℕ) (start n : ℕ) (src : ℕ → ℕ) (k : ℕ)
    → (k < start) ⊎ (start + n ≤ k)
    → copy_in buf start n src k ≡ buf k
copied_off buf start n src k out = rw outside refl
  where
    outside : leb start k && ltb k (start + n) ≡ false
    outside = ground arith

below_or_above : (a b k : ℕ) → k < 64 → a ≢ b → (a * 64 + k < b * 64) ⊎ (b * 64 + 64 ≤ a * 64 + k)
below_or_above a b k lt ne = ground arith

module _ (part : Part) (i : Inode) (pad io_buf : ℕ → ℕ) (table : HasTable part.sb)
    (lt : i.i_no < max_files_per_part) where
  abbrev synced : ℕ → ℕ
  synced =
      copy_in (with_read part.disk (part.sb.inode_table_lba + i.i_no / 8) 1 io_buf)
        (i.i_no % 8 * inode_size) inode_size (encode pad i)

  synced_disk :
      (with_inode part i pad io_buf).disk
      ≡ with_written part.disk (part.sb.inode_table_lba + i.i_no / 8) 1 synced
  unfolding with_inode
  synced_disk = rw (inode_place part.sb i.i_no lt (omega arith)) refl

  with_inode-sb : (with_inode part i pad io_buf).sb ≡ part.sb
  unfolding with_inode
  with_inode-sb = refl

  -- In the sector of the inode the bytes of the inode are the new ones.
  synced_here :
      (k : ℕ)
      → k < 64
      → table_byte (with_inode part i pad io_buf) i.i_no (i.i_no % 8 * inode_size + k)
        ≡ encode pad i k
  unfolding with_inode
  synced_here k small =
      ap
        (λ (disk : ℕ → ℕ → ℕ).
          disk (part.sb.inode_table_lba + i.i_no / 8) (i.i_no % 8 * inode_size + k))
        synced_disk
      ∙ written_here part.disk (part.sb.inode_table_lba + i.i_no / 8) synced
          (i.i_no % 8 * inode_size + k)
      ∙ copied_here (with_read part.disk (part.sb.inode_table_lba + i.i_no / 8) 1 io_buf)
          (i.i_no % 8 * inode_size) inode_size (encode pad i) k small

  -- The bytes of another inode are those before.
  synced_elsewhere :
      (j k : ℕ)
      → j ≢ i.i_no
      → k < 64
      → table_byte (with_inode part i pad io_buf) j (j % 8 * inode_size + k)
        ≡ table_byte part j (j % 8 * inode_size + k)
  unfolding with_inode
  synced_elsewhere j k ne small =
      ap (λ (disk : ℕ → ℕ → ℕ). disk (part.sb.inode_table_lba + j / 8) (j % 8 * inode_size + k))
        synced_disk
      ∙ elim (eq-cases (part.sb.inode_table_lba + j / 8) (part.sb.inode_table_lba + i.i_no / 8)) [
        | inr apart ↦
            written_off part.disk (part.sb.inode_table_lba + i.i_no / 8)
              (part.sb.inode_table_lba + j / 8) synced (j % 8 * inode_size + k) apart
        | inl same ↦
            ap
              (λ (t : ℕ).
                with_written part.disk (part.sb.inode_table_lba + i.i_no / 8) 1 synced t
                  (j % 8 * inode_size + k))
              same
            ∙ written_here part.disk (part.sb.inode_table_lba + i.i_no / 8) synced
                (j % 8 * inode_size + k)
            ∙ copied_off (with_read part.disk (part.sb.inode_table_lba + i.i_no / 8) 1 io_buf)
                (i.i_no % 8 * inode_size) inode_size (encode pad i) (j % 8 * inode_size + k)
                (beside same)
            ∙ read_sector part.disk (part.sb.inode_table_lba + i.i_no / 8) io_buf
                (j % 8 * inode_size + k) (omega arith)
            ∙ ap (λ (t : ℕ). part.disk t (j % 8 * inode_size + k)) (sym same)
      ]
    where
      beside :
          part.sb.inode_table_lba + j / 8 ≡ part.sb.inode_table_lba + i.i_no / 8
          → (j % 8 * inode_size + k < i.i_no % 8 * inode_size)
            ⊎ (i.i_no % 8 * inode_size + inode_size ≤ j % 8 * inode_size + k)
      beside same =
          ground (arith, below_or_above (j % 8) (i.i_no % 8) k small (λ e. ne (omega arith)))

-- with_inode writes to the table only.
pub with_inode-outside :
    (part : Part) (i : Inode) (pad io_buf : ℕ → ℕ) (s o : ℕ)
    → HasTable part.sb
    → i.i_no < max_files_per_part
    → part.sb.inode_table_lba + 512 ≤ s
    → (with_inode part i pad io_buf).disk s o ≡ part.disk s o
with_inode-outside part i pad io_buf s o table lt out =
    ap (λ (disk : ℕ → ℕ → ℕ). disk s o) (synced_disk part i pad io_buf table lt)
    ∙ written_off part.disk (part.sb.inode_table_lba + i.i_no / 8) s
        (synced part i pad io_buf table lt) o (λ e. absurd (omega (arith, e, out, lt)))

-- inode_sync of an inode whose fields fit, in a table of 4096 inodes whose sectors the driver takes: it
-- returns, the inode is read back from disk as it is in memory, with one user, and every other inode is
-- read as before.
pub inode_open-inode_sync :
    (part : Part) (i : Inode) (pad io_buf buf : ℕ → ℕ)
    → HasTable part.sb
    → i.i_no < max_files_per_part
    → IsStorable i
    → Returns
        (λ part'.
          (read_inode part' i.i_no buf ≡ ok (record i { i_count = 1 }))
          × ((j : ℕ)
              → j < max_files_per_part
              → j ≢ i.i_no
              → read_inode part' j buf ≡ read_inode part j buf))
        (inode_sync part i pad io_buf)
unfolding with_inode
inode_open-inode_sync part i pad io_buf buf table lt s =
    rw (inode_sync-with_inode part i pad io_buf table lt) (here, there)
  where
    after : Part
    after = with_inode part i pad io_buf

    here : read_inode after i.i_no buf ≡ ok (record i { i_count = 1 })
    here =
        read_inode-inode_at after i.i_no buf table lt
        ∙ ap ok (
            inode_at-decode after i.i_no buf table lt
            ∙ decode-encode pad i (table_byte after i.i_no) (i.i_no % 8 * inode_size) s
                (synced_here part i pad io_buf table lt))

    there :
        (j : ℕ)
        → j < max_files_per_part
        → j ≢ i.i_no
        → read_inode after j buf ≡ read_inode part j buf
    there j small ne =
        read_inode-inode_at after j buf table small
        ∙ ap ok (
            inode_at-decode after j buf table small
            ∙ decode-agree j (table_byte after j) (table_byte part j) (j % 8 * inode_size)
                (λ k lt64. synced_elsewhere part i pad io_buf table lt j k ne lt64)
            ∙ sym (inode_at-decode part j buf table small))
        ∙ sym (read_inode-inode_at part j buf table small)
