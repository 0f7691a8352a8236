-- ===== src/Fizzstr.antt =====
-- lib/fizzstr.c: copies, fills and comparisons of memory, and strings. Memory is a map from addresses
-- below 2 ^ 32 to bytes. A loop that a terminating 0 ends runs on a number of rounds; an `int` result is
-- its bit pattern.
pub mod Copy
pub mod Texts
mod Tests
use fizzos.Base.{
  ℕ, zero, suc, ◌+◌, ◌-◌, ◌%◌, ◌^◌, Bool, not, ◌&&◌, ◌||◌, Outcome, ok, out_of_fuel, ◌==◌, ltb, leb,
  if◌then◌else◌, update,
}

abbrev pub Bytes : Type 0
Bytes = ℕ → ℕ

-- `for(; n > 0; n--)`
pub copy_down : ℕ → ℕ → ℕ → Bytes → Bytes
copy_down zero dest src m = m
copy_down (suc n) dest src m = copy_down n dest src (update m (dest + n) (m (src + n)))

-- `for(int i = 0; i < n; i++)`, with `k` rounds left.
pub copy_up : ℕ → ℕ → ℕ → ℕ → Bytes → Bytes
copy_up zero i dest src m = m
copy_up (suc k) i dest src m = copy_up k (i + 1) dest src (update m (dest + i) (m (src + i)))

pub memcpy : ℕ → ℕ → ℕ → Bytes → Bytes
memcpy dest src n m =
    if leb src dest && ltb dest ((src + n) % 2 ^ 32)
    then copy_down n dest src m
    else copy_up n 0 dest src m

-- `for (int i = 0; i < n; i++)`, with `k` rounds left.
pub fill_up : ℕ → ℕ → ℕ → ℕ → Bytes → Bytes
fill_up zero i s c m = m
fill_up (suc k) i s c m = fill_up k (i + 1) s c (update m (s + i) (c % 256))

pub memset : ℕ → ℕ → ℕ → Bytes → Bytes
unfolding fill_up
memset s c n m = fill_up n 0 s c m

-- Signed bytes in their order.
abbrev pub signed_order : ℕ → ℕ
signed_order b = (b + 128) % 256

-- With `k` bytes left: 0, 1, or the pattern of -1.
pub memcmp_from : ℕ → ℕ → ℕ → ℕ → Bytes → ℕ
memcmp_from zero idx s1 s2 m = 0
memcmp_from (suc k) idx s1 s2 m =
    let rest = memcmp_from k (idx + 1) s1 s2 m in
    if m (s1 + idx) == m (s2 + idx)
    then rest
    else if ltb (signed_order (m (s2 + idx))) (signed_order (m (s1 + idx)))
    then 1
    else 2 ^ 32 - 1

pub memcmp : ℕ → ℕ → ℕ → Bytes → ℕ
unfolding memcmp_from
memcmp s1 s2 n m = memcmp_from n 0 s1 s2 m

-- The memory behind a strcpy; it returns `dest`.
pub strcpy : ℕ → ℕ → ℕ → Bytes → Outcome Bytes
strcpy zero dest src m = out_of_fuel
strcpy (suc k) dest src m =
    let rest = strcpy k (dest + 1) (src + 1) (update m dest (m src)) in
    if m src == 0 then ok (update m dest 0) else rest

-- The second loop of strncpy.
pub pad_from : ℕ → ℕ → ℕ → Bytes → Bytes
pad_from zero i dest m = m
pad_from (suc k) i dest m = pad_from k (i + 1) dest (update m (dest + i) 0)

-- The first loop, with `k` bytes left to write.
pub strncpy_from : ℕ → ℕ → ℕ → ℕ → Bytes → Bytes
unfolding pad_from
strncpy_from zero i dest src m = m
strncpy_from (suc k) i dest src m =
    let rest = strncpy_from k (i + 1) dest src (update m (dest + i) (m (src + i))) in
    if m (src + i) == 0 then pad_from (suc k) i dest m else rest

pub strncpy : ℕ → ℕ → ℕ → Bytes → Bytes
unfolding strncpy_from
strncpy dest src n m = strncpy_from n 0 dest src m

-- Behind the `len` bytes seen, with `k` rounds left before the length 100 is reached, where it is -1.
pub strlen_from : ℕ → ℕ → ℕ → Bytes → ℕ
strlen_from zero len s m = 2 ^ 32 - 1
strlen_from (suc k) len s m =
    let rest = strlen_from k (len + 1) s m in if m (s + len) == 0 then len else rest

pub strlen : ℕ → Bytes → ℕ
unfolding strlen_from
strlen s m = strlen_from 100 0 s m

-- The pattern of the difference of two signed bytes.
abbrev pub byte_difference : ℕ → ℕ → ℕ
byte_difference a b = (signed_order a + 2 ^ 32 - signed_order b) % 2 ^ 32

pub strcmp : ℕ → ℕ → ℕ → Bytes → Outcome ℕ
strcmp zero s1 s2 m = out_of_fuel
strcmp (suc k) s1 s2 m =
    let rest = strcmp k (s1 + 1) (s2 + 1) m in
    if not (m s1 == 0) && not (m s2 == 0) && (m s1 == m s2)
    then rest
    else ok (byte_difference (m s1) (m s2))

-- The bytes behind the `n` that are compared decide when those are equal.
pub strncmp : ℕ → ℕ → ℕ → Bytes → ℕ
strncmp s1 s2 zero m = byte_difference (m s1) (m s2)
strncmp s1 s2 (suc n) m =
    let rest = strncmp (s1 + 1) (s2 + 1) n m in
    if not (m s1 == 0) && not (m s2 == 0) && (m s1 == m s2)
    then rest
    else byte_difference (m s1) (m s2)

-- The address, or 0 for NULL. `c` is the pattern of a char.
pub strchr : ℕ → ℕ → ℕ → Bytes → Outcome ℕ
strchr zero s c m = out_of_fuel
strchr (suc k) s c m =
    let rest = strchr k (s + 1) c m in
    if not (m s == 0) && not (m s == c) then rest else if m s == c then ok s else ok 0
