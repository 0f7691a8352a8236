-- ===== src/Fizzstr/Tests.antt =====
-- lib/fizzstr.c on a small memory, and its theorems there.
use fizzos.Base.{ℕ, zero, suc, ◌+◌, ◌<◌, ◌≡◌, ◌≢◌, refl, arith, ok, ◌==◌, if◌then◌else◌}
use fizzos.Fizzstr.{Bytes, memcpy, memcmp, strncpy, strcmp, strchr}
use fizzos.Fizzstr.Copy.{memcpy-replaced}
use fizzos.Fizzstr.Texts.{IsText}

-- "ab" at 10, "abc" at 20.
abbrev texts : Bytes
texts a =
    if a == 10
    then 97
    else if a == 11
    then 98
    else if a == 20
    then 97
    else if a == 21
    then 98
    else if a == 22
    then 99
    else 0

ab-IsText : IsText texts 10 2
ab-IsText = record { inside = inside; ending = refl }
  where
    inside : (j : ℕ) → j < 2 → texts (10 + j) ≢ 0
    inside zero h = omega arith
    inside (suc zero) h = omega arith
    inside (suc (suc j)) h = absurd (omega arith)

-- Source and destination overlap.
memcpy-replaced_example : memcpy 11 10 2 texts 12 ≡ 98
memcpy-replaced_example = memcpy-replaced 11 10 2 texts 12 (omega arith)

compares_equal : strcmp 5 10 10 texts ≡ ok 0
unfolding strcmp
compares_equal = refl

compares_bytes : memcmp 10 20 2 texts ≡ 0
unfolding memcmp
compares_bytes = refl

pads : strncpy 30 10 5 texts 33 ≡ 0
unfolding strncpy
pads = refl

finds_char : strchr 5 10 98 texts ≡ ok 11
unfolding strchr
finds_char = refl
