-- ===== src/Inodes/Codec.antt =====
-- What inode_sync writes to the inode table is what inode_open reads from it.
use mathlib.Core.Path.{ap₂}
use fizzos.Base.{
  ℕ, suc, ◌+◌, ◌*◌, ◌^◌, ◌<◌, ◌≡◌, refl, sym, ap, ◌∙◌, List, [], ◌∷◌, arith, get_or, values,
  values-agree, length, le→ltb_false,
}
use fizzos.File.{word_at}
use fizzos.Inodes.{Inode, byte_of, encode, decode}

-- The fields are as large as those on disk.
pub record IsStorable (i : Inode) : Type 0 where
  pub flags : i.i_flags < 2 ^ 32
  pub size : i.i_size < 2 ^ 32
  pub mode : i.i_mode < 2 ^ 16
  pub thirteen : length i.i_sectors ≡ 13
  pub sectors : (k : ℕ) → get_or i.i_sectors k 0 < 2 ^ 32

-- The four bytes of a number.
pub word_at-bytes :
    (f : ℕ → ℕ) (i n : ℕ)
    → n < 2 ^ 32
    → f i ≡ byte_of n 0
    → f (i + 1) ≡ byte_of n 1
    → f (i + 2) ≡ byte_of n 2
    → f (i + 3) ≡ byte_of n 3
    → word_at f i ≡ n
unfolding word_at
word_at-bytes f i n lt a b c d = rw (a, b, c, d) (omega arith)

encode-sector :
    (pad : ℕ → ℕ) (i : Inode) (k j : ℕ)
    → j < 4
    → encode pad i (12 + (4 * k + j)) ≡ byte_of (get_or i.i_sectors k 0) j
unfolding encode
encode-sector pad i k j lt =
    rw
      (
        le→ltb_false (12 + (4 * k + j)) 2 (omega arith),
        le→ltb_false (12 + (4 * k + j)) 4 (omega arith),
        le→ltb_false (12 + (4 * k + j)) 8 (omega arith),
        le→ltb_false (12 + (4 * k + j)) 12 (omega arith),
      )
      (ap₂ (λ (s b : ℕ). byte_of (get_or i.i_sectors s 0) b) (omega arith) (omega arith))

module _ (pad : ℕ → ℕ) (i : Inode) (buf : ℕ → ℕ) (offset : ℕ) (s : IsStorable i)
    (stored : (k : ℕ) → k < 64 → buf (offset + k) ≡ encode pad i k) where
  sector_byte :
      (k j : ℕ)
      → k < 13
      → j < 4
      → buf (offset + 12 + 4 * k + j) ≡ byte_of (get_or i.i_sectors k 0) j
  sector_byte k j lt lt4 =
      ap buf (omega arith) ∙ stored (12 + (4 * k + j)) (omega arith) ∙ encode-sector pad i k j lt4

  sector_word : (k : ℕ) → k < 13 → word_at buf (offset + 12 + 4 * k) ≡ get_or i.i_sectors k 0
  sector_word k lt =
      word_at-bytes buf (offset + 12 + 4 * k) (get_or i.i_sectors k 0) (s.sectors k)
        (ap buf (omega arith) ∙ sector_byte k 0 lt (omega arith)) (sector_byte k 1 lt (omega arith))
        (sector_byte k 2 lt (omega arith)) (sector_byte k 3 lt (omega arith))

  byte_field : (k n j : ℕ) → k < 64 → encode pad i k ≡ byte_of n j → buf (offset + k) ≡ byte_of n j
  byte_field k n j lt e = stored k lt ∙ e

  size_word : word_at buf (offset + 4) ≡ i.i_size
  unfolding encode
  size_word =
      word_at-bytes buf (offset + 4) i.i_size s.size (stored 4 (omega arith))
        (ap buf (omega arith) ∙ stored 5 (omega arith))
        (ap buf (omega arith) ∙ stored 6 (omega arith))
        (ap buf (omega arith) ∙ stored 7 (omega arith))

  flags_word : word_at buf (offset + 8) ≡ i.i_flags
  unfolding encode
  flags_word =
      word_at-bytes buf (offset + 8) i.i_flags s.flags (stored 8 (omega arith))
        (ap buf (omega arith) ∙ stored 9 (omega arith))
        (ap buf (omega arith) ∙ stored 10 (omega arith))
        (ap buf (omega arith) ∙ stored 11 (omega arith))

  mode_half : buf (offset + 2) + 2 ^ 8 * buf (offset + 3) ≡ i.i_mode
  unfolding encode
  mode_half = omega (arith, stored 2 (omega arith), stored 3 (omega arith), s.mode)

-- A function that gives the entries of a list.
values-get_or :
    (f : ℕ → ℕ) (a : ℕ) (xs : List ℕ)
    → ((k : ℕ) → k < length xs → f (a + k) ≡ get_or xs k 0)
    → values f a (length xs) ≡ xs
unfolding values
values-get_or f a [] h = refl
values-get_or f a (x ∷ xs) h =
    ap₂ ◌∷◌ (ap f (omega arith) ∙ h 0 (omega arith))
      (values-get_or f (a + 1) xs (λ k lt. ap f (omega arith) ∙ h (suc k) (omega arith)))

pub decode-encode :
    (pad : ℕ → ℕ) (i : Inode) (buf : ℕ → ℕ) (offset : ℕ)
    → IsStorable i
    → ((k : ℕ) → k < 64 → buf (offset + k) ≡ encode pad i k)
    → decode i.i_no buf offset ≡ record i { i_count = 1 }
unfolding decode
decode-encode pad i buf offset s stored =
    rw
      (
        size_word pad i buf offset s stored,
        flags_word pad i buf offset s stored,
        mode_half pad i buf offset s stored,
        all_sectors,
      )
      refl
  where
    sectors_from : ℕ → ℕ
    sectors_from k = word_at buf (offset + 12 + 4 * k)

    all_sectors : values sectors_from 0 13 ≡ i.i_sectors
    all_sectors =
        ap (values sectors_from 0) (sym s.thirteen)
        ∙ values-get_or sectors_from 0 i.i_sectors (λ k lt.
          ap sectors_from (omega arith)
          ∙ sector_word pad i buf offset s stored k (omega (arith, s.thirteen)))

-- Only the 64 bytes count.
pub decode-agree :
    (n : ℕ) (buf buf' : ℕ → ℕ) (offset : ℕ)
    → ((k : ℕ) → k < 64 → buf (offset + k) ≡ buf' (offset + k))
    → decode n buf offset ≡ decode n buf' offset
unfolding decode word_at
decode-agree n buf buf' offset same =
    rw
      (
        word_same 4 (omega arith),
        word_same 8 (omega arith),
        same 2 (omega arith),
        same 3 (omega arith),
        values-agree (λ k. word_at buf (offset + 12 + 4 * k))
            (λ k. word_at buf' (offset + 12 + 4 * k)) 0 0 13
            (λ k lt.
              ap (word_at buf) (omega arith)
              ∙ word_same (12 + 4 * k) (omega arith)
              ∙ ap (word_at buf') (omega arith)),
      )
      refl
  where
    at : (k j : ℕ) → k + j < 64 → buf (offset + k + j) ≡ buf' (offset + k + j)
    at k j lt = ap buf (omega arith) ∙ same (k + j) lt ∙ ap buf' (omega arith)

    word_same : (k : ℕ) → k + 3 < 64 → word_at buf (offset + k) ≡ word_at buf' (offset + k)
    word_same k lt = omega (
      arith,
      same k (omega arith),
      at k 1 (omega arith),
      at k 2 (omega arith),
      at k 3 (omega arith),
    )
