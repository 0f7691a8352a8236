-- ===== src/FileWrite/Alloc.antt =====
-- What a caller of block_bimap_alloc relies on: the block is new, and others keep theirs.
use Prim.Native.Nat.{min}
use fizzos.Base.{
  ℕ, zero, suc, ◌+◌, ◌-◌, ◌*◌, ◌^◌, ◌<◌, ◌≤◌, ◌≡◌, ◌≢◌, ◌⊎◌, inl, inr, refl, sym, ap, ◌∙◌, Bool,
  true, false, arith, ◌==◌, if◌then◌else◌, eq-cases, Bool-cases, Returns, Returns-mono, ne→==_false,
  ==_refl,
}
use fizzos.Bitmap.Bits.{is_set, IsValid}
use fizzos.Bitmap.Alloc.{IsFirstClear}
use fizzos.Ide.{max_lba}
use fizzos.Inodes.{Part, block_bimap_alloc}
use fizzos.Inodes.Blocks.{IsMirrored, BlockTaken, block_bimap_alloc-BlockTaken}

-- The bits below a number that are clear.
abbrev pub clear_below : (ℕ → Bool) → ℕ → ℕ
clear_below f zero = 0
clear_below f (suc n) = (if f n then 0 else 1) + clear_below f n

-- The first of them.
find_clear :
    (f : ℕ → Bool) (n : ℕ)
    → 0 < clear_below f n
    → (i : ℕ) × (i < n) × (f i ≡ false) × ((j : ℕ) → j < i → f j ≡ true)
find_clear f n pos = from_least (least f n)
  where
    least :
        (f : ℕ → Bool) (n : ℕ)
        → ((i : ℕ) × (i < n) × (f i ≡ false) × ((j : ℕ) → j < i → f j ≡ true))
          ⊎ ((clear_below f n ≡ 0) × ((j : ℕ) → j < n → f j ≡ true))
    least f zero = inr (refl, λ j lt. absurd (omega arith))
    least f (suc n) = elim (least f n) [
      | inl (i, lt, clear, before) ↦ inl (i, omega arith, clear, before)
      | inr (none_clear, all) ↦ elim (Bool-cases (f n)) [
        | inl is ↦ inr (
          rw is (omega (arith, none_clear)),
          λ j lt. elim (eq-cases j n) [ inl e ↦ ap f e ∙ is | inr ne ↦ all j (omega arith) ],
        )
        | inr clear ↦ inl (n, omega arith, clear, all)
      ]
    ]

    from_least :
        ((i : ℕ) × (i < n) × (f i ≡ false) × ((j : ℕ) → j < i → f j ≡ true))
          ⊎ ((clear_below f n ≡ 0) × ((j : ℕ) → j < n → f j ≡ true))
        → (i : ℕ) × (i < n) × (f i ≡ false) × ((j : ℕ) → j < i → f j ≡ true)
    from_least (inl found) = found
    from_least (inr (none_clear, all)) = absurd (omega (arith, none_clear))

clear_same :
    (f g : ℕ → Bool) (n : ℕ) → ((j : ℕ) → j < n → g j ≡ f j) → clear_below g n ≡ clear_below f n
clear_same f g zero same = refl
clear_same f g (suc n) same =
    rw (same n (omega arith), clear_same f g n (λ j lt. same j (omega arith))) refl

clear_after :
    (f g : ℕ → Bool) (i n : ℕ)
    → i < n
    → f i ≡ false
    → ((j : ℕ) → g j ≡ (if j == i then true else f j))
    → suc (clear_below g n) ≡ clear_below f n
clear_after f g i zero lt clear h = absurd (omega arith)
clear_after f g i (suc n) lt clear h = elim (eq-cases n i) [
  | inl e ↦
      let below = clear_same f g n (λ j small.
        h j ∙ rw (ne→==_false j i (λ same. absurd (omega (arith, same, e, small)))) refl) in
      rw (h n, e, ==_refl i, clear, ap (clear_below g) (sym e), ap (clear_below f) (sym e))
        (omega (arith, below))
  | inr ne ↦
      let rest = clear_after f g i n (omega arith) clear h in
      rw (h n, ne→==_false n i ne) (omega (arith, rest))
]

-- The blocks that can be handed out, and those of them that are free.
abbrev pub usable : Part → ℕ
usable part = min (8 * part.block_bitmap.byte_size) (512 * part.sb.block_bitmap_sects)

abbrev pub free_blocks : Part → ℕ
free_blocks part = clear_below (is_set part.block_bitmap) (usable part)

-- The sector is a block that is taken, one that the driver takes.
abbrev pub IsTaken : Part → ℕ → Type 0
IsTaken part s =
    ((part.sb.data_start_lba ≤ s)
      × (is_set part.block_bitmap (s - part.sb.data_start_lba) ≡ true)
      × (s ≤ max_lba))

-- The bitmap on disk is that in memory, and lies before the blocks, which the driver takes.
pub record IsReady (part : Part) : Type 0 where
  pub valid : IsValid part.block_bitmap
  pub mirrored :
      IsMirrored part.disk part.sb.block_bitmap_lba part.sb.block_bitmap_sects part.block_bitmap
  pub before : part.sb.block_bitmap_lba + part.sb.block_bitmap_sects ≤ part.sb.data_start_lba
  pub start : 0 < part.sb.data_start_lba
  pub room : part.sb.data_start_lba + 8 * part.block_bitmap.byte_size ≤ max_lba + 1

pub record Allocated (part : Part) (result : ℕ × Part) : Type 0 where
  pub ready : IsReady result.1
  pub sb : result.1.sb ≡ part.sb
  pub fresh : (s : ℕ) → IsTaken part s → s ≢ result.0
  pub taken : IsTaken result.1 result.0
  pub small : result.0 < 2 ^ 32
  pub keeps : (s : ℕ) → IsTaken part s → IsTaken result.1 s
  pub disk : (s o : ℕ) → part.sb.data_start_lba ≤ s → result.1.disk s o ≡ part.disk s o
  pub free : suc (free_blocks result.1) ≡ free_blocks part

module _ (part : Part) (idx : ℕ) (r : IsReady part)
    (first : IsFirstClear part.block_bitmap idx) where
  abbrev start : ℕ
  start = part.sb.data_start_lba

  taken-Allocated :
      (result : ℕ × Part) → idx < usable part → BlockTaken part idx result → Allocated part result
  taken-Allocated result lt t = record {
    ready = record {
      valid = t.bitmap.valid;
      mirrored = rw t.sb t.on_disk;
      before = rw t.sb r.before;
      start = rw t.sb r.start;
      room = rw (t.sb, t.bitmap.byte_size) r.room;
    };
    sb = t.sb;
    fresh = fresh;
    taken = rw (t.sb, lba) (omega arith, now_set, omega (arith, lba, r.room, first.inside));
    small = omega (arith, t.lba);
    keeps = keeps;
    disk = λ s o ge. t.elsewhere s o (inr (omega (arith, r.before, ge)));
    free =
        rw (t.sb, t.bitmap.byte_size)
          (clear_after (is_set part.block_bitmap) (is_set result.1.block_bitmap) idx (usable part)
            lt first.clear t.bitmap.bit);
  }
    where
      lba : result.0 ≡ start + idx
      lba = t.lba ∙ omega (arith, r.room, first.inside)

      now_set : is_set result.1.block_bitmap (start + idx - start) ≡ true
      now_set =
          ap (is_set result.1.block_bitmap) (omega arith) ∙ t.bitmap.bit idx ∙ rw (==_refl idx) refl

      clash : (s : ℕ) → s ≡ start + idx → is_set part.block_bitmap (s - start) ≡ true → ⊥
      clash s e set_there =
          not_both (is_set part.block_bitmap idx)
            (ap (is_set part.block_bitmap) (omega arith) ∙ set_there) first.clear
        where
          not_both : (c : Bool) → c ≡ true → c ≡ false → ⊥
          not_both c a b = ground arith

      fresh : (s : ℕ) → IsTaken part s → s ≢ result.0
      fresh s (ge, set_there, low) e = clash s (e ∙ lba) set_there

      keeps : (s : ℕ) → IsTaken part s → IsTaken result.1 s
      keeps s (ge, set_there, low) = rw t.sb (
        ge,
        t.bitmap.bit (s - start)
            ∙ rw (ne→==_false (s - start) idx (λ e. clash s (omega (arith, ge, e)) set_there))
                set_there,
        low,
      )

-- A free block there is, or one of several: it is handed out.
pub block_bimap_alloc-Allocated :
    (part : Part)
    → IsReady part
    → 0 < free_blocks part
    → Returns (Allocated part) (block_bimap_alloc part)
block_bimap_alloc-Allocated part r pos =
    let (idx, lt, clear, before) = find_clear (is_set part.block_bitmap) (usable part) pos in
    let first : IsFirstClear part.block_bitmap idx = record {
      inside = omega arith;
      clear = clear;
      before = before;
    } in
    Returns-mono (BlockTaken part idx) (Allocated part) (block_bimap_alloc part)
      ((block_bimap_alloc-BlockTaken part idx r.valid first r.mirrored
          (omega (arith, r.before, r.room))).0
        (omega arith))
      (λ result t. taken-Allocated part idx r first result lt t)
