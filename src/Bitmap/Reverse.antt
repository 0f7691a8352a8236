-- ===== src/Bitmap/Reverse.antt =====
-- bitmap_reverse of lib/kernel/bitmap.c turns one bit over.
use fizzos.Base.{
  ℕ, ◌-◌, ◌*◌, ◌<◌, ◌≡◌, sym, ap, subst, Bool, true, false, not, ok, Returns, Returns-ok, arith,
  if◌then◌else◌, Bool-cases, inl, inr,
}
use fizzos.Bitmap.{Bitmap, mutex_acquire, mutex_release, bitmap_set, bitmap_reset, bitmap_reverse}
use fizzos.Bitmap.Bits.{
  is_set, IsValid, Updated, bitmap_set-Updated, bitmap_reset-Updated, is_set_run,
}

release_held :
    (bmap : Bitmap)
    → 0 < bmap.depth
    → mutex_release bmap ≡ ok (record bmap { depth = bmap.depth - 1 })
release_held bmap h = ground arith

-- The new value of a bit, 1 for set, and the bitmap with that bit turned over.
abbrev pub Reversed : Bitmap → ℕ → ℕ × Bitmap → Type 0
Reversed bmap idx (new, bmap') =
    (new ≡ (if is_set bmap idx then 0 else 1)) × Updated bmap idx (not (is_set bmap idx)) bmap'

-- bitmap_reverse of a bit of a valid bitmap returns its new value, 1 for set, turns that bit over and
-- no other, and leaves the bitmap valid and the lock as it was.
pub bitmap_reverse-Updated :
    (bmap : Bitmap) (idx : ℕ)
    → IsValid bmap
    → idx < 8 * bmap.byte_size
    → Returns (Reversed bmap idx) (bitmap_reverse idx bmap)
unfolding bitmap_reverse
bitmap_reverse-Updated bmap idx v inside = elim (Bool-cases (is_set bmap idx)) [
  | inl was ↦
      let (after, run, u) =
        Returns-ok (Updated held idx false) (bitmap_reset idx held)
          (bitmap_reset-Updated held idx acquired inside was) in
      rw
        (is_set_run held idx acquired inside, was, run, release_held after (omega (arith, u.depth)))
        (
          ap (λ (c : Bool). if c then 0 else 1) (sym was),
          subst (λ (c : Bool). Updated bmap idx (not c) (record after { depth = after.depth - 1 }))
              (sym was) (lowered after false u),
        )
  | inr clear ↦
      let (after, run, u) =
        Returns-ok (Updated held idx true) (bitmap_set idx held)
          (bitmap_set-Updated held idx acquired inside clear) in
      rw
        (
          is_set_run held idx acquired inside,
          clear,
          run,
          release_held after (omega (arith, u.depth)),
        )
        (
          ap (λ (c : Bool). if c then 0 else 1) (sym clear),
          subst (λ (c : Bool). Updated bmap idx (not c) (record after { depth = after.depth - 1 }))
              (sym clear) (lowered after true u),
        )
]
  where
    held : Bitmap
    held = mutex_acquire bmap

    acquired : IsValid held
    acquired = record { sized = v.sized; bytes = v.bytes; beyond = v.beyond }

    lowered :
        (after : Bitmap) (b : Bool)
        → Updated (mutex_acquire bmap) idx b after
        → Updated bmap idx b (record after { depth = after.depth - 1 })
    lowered after b u = record {
      valid = record { sized = u.valid.sized; bytes = u.valid.bytes; beyond = u.valid.beyond };
      bit = u.bit;
      byte_size = u.byte_size;
      depth = omega (arith, u.depth);
    }
