-- ===== src/Fizzlib/Tests.antt =====
-- lib/fizzlib.c at small values, and its theorem at one.
use fizzos.Base.{
  ◌≡◌, ◌≤◌, ◌^◌, ◌-◌, refl, [], ◌∷◌, ok, fault, Returns, arith, take, drop, replicate,
}
use fizzos.Fizzlib.{uitoa, itoa, count_digits, write_digits}
use fizzos.Fizzlib.Digits.{read_from, uitoa_round_trip}

uitoa_round_trip_example :
    Returns
      (λ (count, dest').
        (read_from 16 0 (take count dest') ≡ 0xbeef)
        × (count ≤ 32)
        × (drop count dest' ≡ drop count (replicate 40 0)))
      (uitoa 0xbeef (replicate 40 0) 16)
uitoa_round_trip_example =
    uitoa_round_trip 0xbeef 16 (replicate 40 0) (omega arith) (omega arith) (omega arith)
      (omega arith)

writes_hex : uitoa 0xbeef (replicate 5 0) 16 ≡ ok (4, b'b' ∷ b'e' ∷ b'e' ∷ b'f' ∷ 0 ∷ [])
unfolding uitoa count_digits write_digits
writes_hex = refl

writes_negative : itoa (2 ^ 32 - 42) (replicate 4 0) 10 ≡ ok (3, b'-' ∷ b'4' ∷ b'2' ∷ 0 ∷ [])
unfolding itoa uitoa count_digits write_digits
writes_negative = refl

writes_past_end : uitoa 100 (replicate 2 0) 10 ≡ fault
unfolding uitoa count_digits write_digits
writes_past_end = refl
