-- ===== src/Fizzlib.antt =====
-- lib/fizzlib.c: numbers to text in a given radix. A value is its bit pattern, below 2 ^ 32. A buffer
-- is the list of the bytes from `dest` on; a write past its end is a fault, and so is division by a
-- radix of 0.
pub mod Digits
mod Tests
use fizzos.Base.{
  ℕ, zero, suc, ◌+◌, ◌-◌, ◌/◌, ◌%◌, ◌^◌, Bool, List, [], ◌∷◌, Outcome, ok, fault, out_of_fuel,
  ◌>>=◌, ◌>>◌, ◌==◌, ltb, leb, if◌then◌else◌, length, set,
}

abbrev pub put : List ℕ → ℕ → ℕ → Outcome (List ℕ)
put dest idx c = if ltb idx (length dest) then ok (set dest idx c) else fault

-- `d + 'a' - 10` from ten on, else `d + '0'`.
abbrev pub digit_char : ℕ → ℕ
digit_char d = if leb 10 d then d + b'a' - 10 else d + b'0'

-- `while (num) { num /= radix; idx++; }`
count_digits : ℕ → ℕ → ℕ → ℕ → Outcome ℕ
count_digits zero radix num idx = out_of_fuel
count_digits (suc k) radix num idx =
    let rest = count_digits k radix (num / radix) (idx + 1) in
    if num == 0 then ok idx else if radix == 0 then fault else rest

-- `while (value) { idx--; dest[idx] = ...; value /= radix; }`
write_digits : ℕ → ℕ → ℕ → ℕ → List ℕ → Outcome (List ℕ)
write_digits zero radix value idx dest = out_of_fuel
write_digits (suc k) radix value idx dest =
    let idx' = idx - 1 in
    let rest = λ (dest : List ℕ). write_digits k radix (value / radix) idx' dest in
    if value == 0
    then ok dest
    else if idx == 0
    then fault
    else put dest idx' (digit_char (value % radix)) >>= rest

-- A 32-bit value has at most 32 digits.
abbrev pub rounds : ℕ
rounds = 33

-- The number of characters, and the buffer.
pub uitoa : ℕ → List ℕ → ℕ → Outcome (ℕ × List ℕ)
uitoa value dest radix = if value == 0 then (do dest ← put dest 0 b'0'; ok (1, dest)) else (do
  count ← count_digits rounds radix value 0
  dest ← write_digits rounds radix value count dest
  ok (count, dest))

write_sign : List ℕ → Outcome (List ℕ)
write_sign [] = fault
write_sign (c ∷ dest) = ok (b'-' ∷ dest)

-- What is written behind the first byte.
behind_first : (List ℕ → Outcome (ℕ × List ℕ)) → List ℕ → Outcome (ℕ × List ℕ)
behind_first write [] = fault
behind_first write (c ∷ dest) = do (count, dest) ← write dest; ok (count + 1, c ∷ dest)

-- A pattern from 2 ^ 31 on is a negative number; the least of them has no negation (signed overflow is
-- undefined, here a fault). After the sign the digits are those of the absolute value.
pub itoa : ℕ → List ℕ → ℕ → Outcome (ℕ × List ℕ)
unfolding uitoa write_sign behind_first
itoa value dest radix =
    if ltb value (2 ^ 31)
    then uitoa value dest radix
    else if value == 2 ^ 31
    then fault
    else (do dest ← write_sign dest; behind_first (λ dest. uitoa (2 ^ 32 - value) dest radix) dest)
