-- ===== src/Bitmap.antt =====
-- lib/kernel/bitmap.c: bitmaps, as the thread that holds their lock sees them. The lock is recursive:
-- `depth` counts how often the running thread holds it. (What happens to a thread that finds the lock
-- taken is not part of this module.)
pub mod Word
pub mod Bits
pub mod Scan
pub mod Search
pub mod Alloc
pub mod Reverse
mod Tests
use Prim.Native.Nat.{bit_or, bit_and}
use fizzos.Base.{
  ℕ, zero, suc, ◌+◌, ◌-◌, ◌*◌, ◌/◌, ◌%◌, ◌^◌, Bool, true, false, not, ◌&&◌, ◌||◌, Option, none,
  some, List, [], ◌∷◌, ◌++◌, Outcome, ok, panic, fault, ◌>>=◌, ◌>>◌, assert, ◌==◌, ltb,
  if◌then◌else◌, length, get_elem?, get_or, set, replicate, drop,
}

-- `behind` is the memory that follows the buffer: the code reads the bitmap a word at a time.
pub record Bitmap : Type 0 where
  pub bits : List ℕ
  pub byte_size : ℕ
  pub behind : ℕ → ℕ
  pub depth : ℕ

abbrev pub mutex_acquire : Bitmap → Bitmap
mutex_acquire bmap = record bmap { depth = bmap.depth + 1 }

-- A release asserts that the running thread is the holder.
abbrev pub mutex_release : Bitmap → Outcome Bitmap
mutex_release bmap = if bmap.depth == 0 then panic else ok (record bmap { depth = bmap.depth - 1 })

-- `b & 1 << i`, as a truth value.
abbrev pub test_bit : ℕ → ℕ → Bool
test_bit b i = (b / 2 ^ i) % 2 == 1

abbrev pub load_byte : Bitmap → ℕ → Outcome ℕ
load_byte bmap i = elim (get_elem? bmap.bits i) [ none ↦ fault | some b ↦ ok b ]

abbrev pub store_byte : Bitmap → ℕ → ℕ → Bitmap
store_byte bmap i b = record bmap { bits = set bmap.bits i b }

-- The bits of the last byte that stand for nothing: `for (i = 7; i > (size + 7) % 8; i--)`, from
-- the bit below `top` on.
surplus : ℕ → ℕ → ℕ
surplus zero last = 0
surplus (suc top) last =
    if ltb last top then bit_or (surplus top last) (2 ^ top) else surplus top last

-- Clears all bits but those of the last byte past `size`, which are set. `storage` is the buffer
-- that the caller has put into `bits`.
pub bitmap_init : List ℕ → (ℕ → ℕ) → ℕ → Outcome Bitmap
unfolding surplus
bitmap_init storage behind size = do
  assert (not (size == 0))
  let byte_size = (size + 7) / 8
  if ltb (length storage) byte_size
      then fault
      else ok (record {
        bits = replicate (byte_size - 1) 0 ++ (surplus 8 ((size + 7) % 8) ∷ drop byte_size storage);
        byte_size = byte_size;
        behind = behind;
        depth = 0;
      })

pub bitmap_set : ℕ → Bitmap → Outcome Bitmap
bitmap_set idx bmap = do
  let bmap = mutex_acquire bmap
  b ← load_byte bmap (idx / 8)
  assert (not (test_bit b (idx % 8)))
  mutex_release (store_byte bmap (idx / 8) (bit_or b (2 ^ (idx % 8))))

-- `~((uint8_t)1 << k)` keeps every bit of a byte but bit `k`.
pub bitmap_reset : ℕ → Bitmap → Outcome Bitmap
bitmap_reset idx bmap = do
  let bmap = mutex_acquire bmap
  b ← load_byte bmap (idx / 8)
  assert (test_bit b (idx % 8))
  mutex_release (store_byte bmap (idx / 8) (bit_and b (255 - 2 ^ (idx % 8))))

pub bitmap_is_set : ℕ → Bitmap → Outcome Bool
bitmap_is_set idx bmap = do b ← load_byte bmap (idx / 8); ok (test_bit b (idx % 8))

-- The new value of the bit, and the bitmap.
pub bitmap_reverse : ℕ → Bitmap → Outcome (ℕ × Bitmap)
bitmap_reverse idx bmap = do
  let bmap = mutex_acquire bmap
  was_set ← bitmap_is_set idx bmap
  bmap ← (if was_set then bitmap_reset idx bmap else bitmap_set idx bmap)
  bmap ← mutex_release bmap
  ok (if was_set then 0 else 1, bmap)

-- The byte at an index of the memory that the words are read from.
byte_at : Bitmap → ℕ → ℕ
byte_at bmap i =
    if ltb i (length bmap.bits) then get_or bmap.bits i 0 else bmap.behind (i - length bmap.bits)

-- The little-endian word number `idx`.
pub word : Bitmap → ℕ → ℕ
word bmap idx =
    byte_at bmap (4 * idx)
    + 256 * byte_at bmap (4 * idx + 1)
    + 65536 * byte_at bmap (4 * idx + 2)
    + 16777216 * byte_at bmap (4 * idx + 3)

-- `for (; i < i + n; i++)` over the bits of a word: the first that is clear.
pub clear_bit : ℕ → ℕ → ℕ → Option ℕ
clear_bit zero i w = none
clear_bit (suc n) i w = let rest = clear_bit n (i + 1) w in if test_bit w i then rest else some i

pub at_word : ℕ → Option ℕ → Option ℕ
at_word idx none = none
at_word idx (some i) = some (idx * 32 + i)

-- An early return: what follows counts only where nothing was found.
pub or_else : Option ℕ → Option ℕ → Option ℕ
or_else none rest = rest
or_else (some i) rest = some i

-- The loop over whole words from number `idx` on, `n` of them.
pub clear_in_words : ℕ → ℕ → Bitmap → Option ℕ
clear_in_words zero idx bmap = none
clear_in_words (suc n) idx bmap =
    let rest = clear_in_words n (idx + 1) bmap in
    if word bmap idx == 0xffff_ffff
    then rest
    else or_else (at_word idx (clear_bit 32 0 (word bmap idx))) rest

-- The search of the whole words, then of the bits of the bytes that are left.
pub scan_bits : Bitmap → Option ℕ
unfolding or_else byte_at word clear_bit at_word clear_in_words
scan_bits bmap =
    let words = bmap.byte_size / 4 in
    or_else (clear_in_words words 0 bmap)
      (at_word words (clear_bit (bmap.byte_size % 4 * 8) 0 (word bmap words)))

pub found_or_panic : Option ℕ → Bitmap → Outcome (ℕ × Bitmap)
found_or_panic none bmap = panic
found_or_panic (some i) bmap = ok (i, bmap)

-- The lock is released before the PANIC of a full bitmap.
pub bitmap_scan : Bitmap → Outcome (ℕ × Bitmap)
unfolding found_or_panic
bitmap_scan bmap = do
  let bmap = mutex_acquire bmap
  let found = scan_bits bmap
  bmap ← mutex_release bmap
  found_or_panic found bmap

pub bitmap_scan_set : Bitmap → Outcome (ℕ × Bitmap)
bitmap_scan_set bmap = do
  (idx, bmap) ← bitmap_scan (mutex_acquire bmap)
  bmap ← bitmap_set idx bmap
  bmap ← mutex_release bmap
  ok (idx, bmap)

series_done : Option ℕ → Bitmap → Outcome (ℕ × Bitmap)
series_done none bmap = panic
series_done (some i) bmap = do bmap ← mutex_release bmap; ok (i, bmap)

-- The bits of one word from bit `i` on, `n` of them, with `count` clear bits still wanted of `cnt`:
-- the start of the series, if it is complete, or the count that is left.
series_in_word : ℕ → ℕ → ℕ → ℕ → ℕ → ℕ → Option ℕ × ℕ
series_in_word cnt idx w zero i count = (none, count)
series_in_word cnt idx w (suc n) i count =
    let next = series_in_word cnt idx w n (i + 1) (if test_bit w i then cnt else count - 1) in
    if not (test_bit w i) && (count == 1) then (some (idx * 32 + i + 1 - cnt), 0) else next

-- The words: one that is full is passed over, with `count` as it is.
series_in_words : ℕ → ℕ → ℕ → ℕ → Bitmap → Option ℕ × ℕ
series_in_words cnt zero idx count bmap = (none, count)
series_in_words cnt (suc n) idx count bmap =
    let (found, left) = series_in_word cnt idx (word bmap idx) 32 0 count in
    let after_word = series_in_words cnt n (idx + 1) left bmap in
    let after_full = series_in_words cnt n (idx + 1) count bmap in
    if word bmap idx == 0xffff_ffff
    then after_full
    else elim found [ none ↦ after_word | some i ↦ (some i, 0) ]

-- The bytes that are left: the inner loop runs over all 32 bits of the word, once for each bit that
-- the outer loop counts.
series_in_rest : ℕ → ℕ → ℕ → ℕ → Bitmap → Option ℕ
series_in_rest cnt zero idx count bmap = none
series_in_rest cnt (suc n) idx count bmap =
    let (found, left) = series_in_word cnt idx (word bmap idx) 32 0 count in
    let rest = series_in_rest cnt n idx left bmap in elim found [ none ↦ rest | some i ↦ some i ]

-- For one bit the search is bitmap_scan's, and the lock is not released.
pub bitmap_scan_series : ℕ → Bitmap → Outcome (ℕ × Bitmap)
unfolding series_done series_in_word series_in_words series_in_rest byte_at word
bitmap_scan_series cnt bmap = do
  let bmap = mutex_acquire bmap
  assert (ltb 0 cnt)
  let words = bmap.byte_size / 4
  let (found, left) = series_in_words cnt words 0 cnt bmap
  if cnt == 1 then bitmap_scan bmap else elim found [
    | some i ↦ series_done (some i) bmap
    | none ↦ series_done (series_in_rest cnt (bmap.byte_size % 4 * 8) words left bmap) bmap
  ]

set_loop : ℕ → ℕ → Bitmap → Outcome Bitmap
set_loop zero idx bmap = ok bmap
set_loop (suc n) idx bmap = do bmap ← bitmap_set idx bmap; set_loop n (idx + 1) bmap

pub bitmap_set_series : ℕ → ℕ → Bitmap → Outcome Bitmap
unfolding set_loop
bitmap_set_series start_idx cnt bmap = do
  assert (ltb 0 cnt)
  bmap ← set_loop cnt start_idx (mutex_acquire bmap)
  mutex_release bmap

reset_loop : ℕ → ℕ → Bitmap → Outcome Bitmap
reset_loop zero idx bmap = ok bmap
reset_loop (suc n) idx bmap = do bmap ← bitmap_reset idx bmap; reset_loop n (idx + 1) bmap

pub bitmap_reset_series : ℕ → ℕ → Bitmap → Outcome Bitmap
unfolding reset_loop
bitmap_reset_series start_idx cnt bmap = do
  assert (ltb 0 cnt)
  bmap ← reset_loop cnt start_idx (mutex_acquire bmap)
  mutex_release bmap

pub bitmap_scan_set_series : ℕ → Bitmap → Outcome (ℕ × Bitmap)
unfolding bitmap_scan_series bitmap_set_series bitmap_set
bitmap_scan_set_series cnt bmap = do
  (idx, bmap) ← bitmap_scan_series cnt (mutex_acquire bmap)
  bmap ← bitmap_set_series idx cnt bmap
  bmap ← mutex_release bmap
  ok (idx, bmap)
