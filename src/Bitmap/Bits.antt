-- ===== src/Bitmap/Bits.antt =====
-- bitmap_set, bitmap_reset and bitmap_reverse of lib/kernel/bitmap.c change one bit.
use Prim.Native.Nat.{bit_or, bit_and}
use fizzos.Base.{
  ℕ, ◌+◌, ◌-◌, ◌*◌, ◌/◌, ◌%◌, ◌^◌, ◌<◌, ◌≤◌, ◌≡◌, refl, ◌∙◌, Bool, true, false, ◌&&◌, ok, panic,
  Returns, arith, ◌==◌, if◌then◌else◌, length, get_or, set, length-set, get_elem?-eq-get_or,
  get_or-set_self, get_or-set_ne, eq-cases, inl, inr, List,
}
use fizzos.Bitmap.{Bitmap, test_bit, load_byte, store_byte, bitmap_set, bitmap_reset, bitmap_is_set}
use fizzos.Bitmap.Word.{test_bit-or, test_bit-and, byte_ops_lt}

-- The bits that a bitmap stands for.
abbrev pub is_set : Bitmap → ℕ → Bool
is_set bmap i = test_bit (get_or bmap.bits (i / 8) 0) (i % 8)

-- The buffer has `byte_size` bytes, and memory is made of bytes.
pub record IsValid (bmap : Bitmap) : Type 0 where
  pub sized : bmap.byte_size ≤ length bmap.bits
  pub bytes : (i : ℕ) → get_or bmap.bits i 0 < 256
  pub beyond : (i : ℕ) → bmap.behind i < 256

-- The state after an operation that gives bit `idx` the value `b`; the lock is as it was.
pub record Updated (bmap : Bitmap) (idx : ℕ) (b : Bool) (bmap' : Bitmap) : Type 0 where
  pub valid : IsValid bmap'
  pub bit : (j : ℕ) → is_set bmap' j ≡ (if j == idx then b else is_set bmap j)
  pub byte_size : bmap'.byte_size ≡ bmap.byte_size
  pub depth : bmap'.depth ≡ bmap.depth

get_or-set :
    (xs : List ℕ) (i j v : ℕ)
    → i < length xs
    → get_or (set xs i v) j 0 ≡ (if j == i then v else get_or xs j 0)
get_or-set xs i j v h = elim (eq-cases j i) [
  | inl e ↦ rw e (ground (arith, get_or-set_self xs i v 0 h))
  | inr ne ↦ ground (arith, get_or-set_ne xs i j v 0)
]

-- Bits of one byte are the bits whose numbers agree from the fourth digit on.
split_index : (j idx : ℕ) → (j == idx) ≡ ((j / 8 == idx / 8) && (j % 8 == idx % 8))
split_index j idx = ground arith

module _ (bmap : Bitmap) (idx : ℕ) (v : IsValid bmap) (inside : idx < 8 * bmap.byte_size) where
  byte_inside : idx / 8 < length bmap.bits
  byte_inside = omega (arith, v.sized)

  load_inside : load_byte bmap (idx / 8) ≡ ok (get_or bmap.bits (idx / 8) 0)
  load_inside = rw (get_elem?-eq-get_or bmap.bits (idx / 8) 0 byte_inside, load_byte) refl

  pub is_set_run : bitmap_is_set idx bmap ≡ ok (is_set bmap idx)
  unfolding bitmap_is_set
  is_set_run = rw load_inside refl

  -- Storing a byte in place of that of bit `idx`.
  stored_bit :
      (new j : ℕ)
      → is_set (store_byte bmap (idx / 8) new) j
        ≡ (if j / 8 == idx / 8 then test_bit new (j % 8) else is_set bmap j)
  stored_bit new j = rw (get_or-set bmap.bits (idx / 8) (j / 8) new byte_inside) (ground arith)

  stored_IsValid : (new : ℕ) → new < 256 → IsValid (store_byte bmap (idx / 8) new)
  stored_IsValid new h = record {
    sized = rw (length-set bmap.bits (idx / 8) new) v.sized;
    bytes = λ i. rw (get_or-set bmap.bits (idx / 8) i new byte_inside) (ground (arith, v.bytes i));
    beyond = v.beyond;
  }

  old_byte : ℕ
  old_byte = get_or bmap.bits (idx / 8) 0

  set_run :
      is_set bmap idx ≡ false
      → bitmap_set idx bmap
        ≡ ok
            (record (store_byte bmap
              (idx / 8)
              (bit_or (get_or bmap.bits (idx / 8) 0) (2 ^ (idx % 8)))) {
                depth = bmap.depth + 1 - 1;
              })
  unfolding bitmap_set
  set_run clear = ground (arith, load_inside)

  reset_run :
      is_set bmap idx ≡ true
      → bitmap_reset idx bmap
        ≡ ok
            (record (store_byte bmap
              (idx / 8)
              (bit_and (get_or bmap.bits (idx / 8) 0) (255 - 2 ^ (idx % 8)))) {
                depth = bmap.depth + 1 - 1;
              })
  unfolding bitmap_reset
  reset_run was = ground (arith, load_inside)

  -- bitmap_set of a clear bit of a valid bitmap returns, sets that bit and no other, and leaves the
  -- bitmap valid and the lock as it was.
  pub bitmap_set-Updated :
      is_set bmap idx ≡ false → Returns (Updated bmap idx true) (bitmap_set idx bmap)
  bitmap_set-Updated clear = rw (set_run clear) (record {
    valid = record {
      sized = (stored_IsValid _ small).sized;
      bytes = (stored_IsValid _ small).bytes;
      beyond = v.beyond;
    };
    bit = λ j.
        stored_bit _ j
        ∙ ground (
          arith,
          split_index j idx,
          test_bit-or (get_or bmap.bits (idx / 8) 0) (idx % 8) (j % 8) (v.bytes (idx / 8)),
        );
    byte_size = refl;
    depth = omega arith;
  })
    where
      small : bit_or (get_or bmap.bits (idx / 8) 0) (2 ^ (idx % 8)) < 256
      small =
          (byte_ops_lt (get_or bmap.bits (idx / 8) 0) (idx % 8) (v.bytes (idx / 8)) (omega arith)).0

  -- bitmap_reset of a set bit of a valid bitmap returns, clears that bit and no other, and leaves
  -- the bitmap valid and the lock as it was.
  pub bitmap_reset-Updated :
      is_set bmap idx ≡ true → Returns (Updated bmap idx false) (bitmap_reset idx bmap)
  bitmap_reset-Updated was = rw (reset_run was) (record {
    valid = record {
      sized = (stored_IsValid _ small).sized;
      bytes = (stored_IsValid _ small).bytes;
      beyond = v.beyond;
    };
    bit = λ j.
        stored_bit _ j
        ∙ ground (
          arith,
          split_index j idx,
          test_bit-and (get_or bmap.bits (idx / 8) 0) (idx % 8) (j % 8) (v.bytes (idx / 8)),
        );
    byte_size = refl;
    depth = omega arith;
  })
    where
      small : bit_and (get_or bmap.bits (idx / 8) 0) (255 - 2 ^ (idx % 8)) < 256
      small =
          (byte_ops_lt (get_or bmap.bits (idx / 8) 0) (idx % 8) (v.bytes (idx / 8)) (omega arith)).1

  -- bitmap_set of a bit that is set, and bitmap_reset of one that is clear, are failed assertions.
  pub bitmap_set_twice :
      (is_set bmap idx ≡ true → bitmap_set idx bmap ≡ panic)
      × (is_set bmap idx ≡ false → bitmap_reset idx bmap ≡ panic)
  unfolding bitmap_set bitmap_reset
  bitmap_set_twice = (λ was. ground (arith, load_inside), λ clear. ground (arith, load_inside))
