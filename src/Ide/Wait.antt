-- ===== src/Ide/Wait.antt =====
-- busy_wait of device/ide.c.
use Prim.Native.Nat.{bit_and}
use fizzos.Base.{
  ℕ, zero, suc, ◌+◌, ◌-◌, ◌%◌, ◌^◌, ◌<◌, ◌≡◌, refl, sym, ap, ◌∙◌, Bool, true, false, not, ok,
  out_of_fuel, arith, ◌==◌,
}
use fizzos.Ide.{busy_from, busy_wait}

-- The disk is busy, and has data ready, in a status.
abbrev pub is_busy : ℕ → Bool
is_busy s = not (bit_and s 0x80 == 0)

abbrev pub has_data : ℕ → Bool
has_data s = not (bit_and s 0x8 == 0)

-- A round at a busy disk.
busy_step :
    (fuel limit n : ℕ) (status : ℕ → ℕ)
    → is_busy (status n) ≡ true
    → busy_from (suc fuel) limit n status
      ≡ busy_from fuel ((limit + 2 ^ 16 - 10) % 2 ^ 16) (n + 1) status
unfolding busy_from
busy_step fuel limit n status h = rw (not_false (bit_and (status n) 0x80 == 0) h) (ground arith)
  where
    not_false : (b : Bool) → not b ≡ true → b ≡ false
    not_false true h = sym h
    not_false false h = refl

busy_stop :
    (fuel limit n : ℕ) (status : ℕ → ℕ)
    → is_busy (status n) ≡ false
    → busy_from (suc fuel) limit n status ≡ ok (has_data (status (n + 1)))
unfolding busy_from
busy_stop fuel limit n status h = rw (not_true (bit_and (status n) 0x80 == 0) h) (ground arith)
  where
    not_true : (b : Bool) → not b ≡ false → b ≡ true
    not_true true h = refl
    not_true false h = sym h

forever_from :
    (fuel limit n : ℕ) (status : ℕ → ℕ)
    → ((j : ℕ) → is_busy (status j) ≡ true)
    → busy_from fuel limit n status ≡ out_of_fuel
forever_from zero limit n status h = unfold busy_from in refl
forever_from (suc fuel) limit n status h =
    busy_step fuel limit n status (h n)
    ∙ forever_from fuel ((limit + 2 ^ 16 - 10) % 2 ^ 16) (n + 1) status h

-- busy_wait never ends at a disk that stays busy, since its limit is an unsigned number and never below
-- 0: no number of rounds is enough.
pub busy_wait_forever :
    (fuel : ℕ) (status : ℕ → ℕ)
    → ((j : ℕ) → is_busy (status j) ≡ true)
    → busy_wait fuel status ≡ out_of_fuel
unfolding busy_wait
busy_wait_forever fuel status h = forever_from fuel 30000 0 status h

ready_from :
    (fuel limit n d : ℕ) (status : ℕ → ℕ)
    → ((j : ℕ) → j < d → is_busy (status (n + j)) ≡ true)
    → is_busy (status (n + d)) ≡ false
    → d < fuel
    → busy_from fuel limit n status ≡ ok (has_data (status (n + d + 1)))
ready_from zero limit n d status busy free h = absurd (omega arith)
ready_from (suc fuel) limit n zero status busy free h =
    busy_stop fuel limit n status (ap (λ (k : ℕ). is_busy (status k)) (here n) ∙ free)
    ∙ ap (λ (k : ℕ). ok (has_data (status (k + 1)))) (here n)
  where
    here : (n : ℕ) → n ≡ n + 0
    here n = omega arith
ready_from (suc fuel) limit n (suc d) status busy free h =
    busy_step fuel limit n status
      (ap (λ (k : ℕ). is_busy (status k)) (here n) ∙ busy 0 (omega arith))
    ∙ ready_from fuel ((limit + 2 ^ 16 - 10) % 2 ^ 16) (n + 1) d status
        (λ j lt. ap (λ (k : ℕ). is_busy (status k)) (shift j) ∙ busy (suc j) (omega arith))
        (ap (λ (k : ℕ). is_busy (status k)) (shift d) ∙ free) (omega arith)
    ∙ ap (λ (k : ℕ). ok (has_data (status (k + 1)))) (shift d)
  where
    here : (n : ℕ) → n ≡ n + 0
    here n = omega arith

    shift : (j : ℕ) → n + 1 + j ≡ n + suc j
    shift j = omega arith

-- busy_wait at a disk that is busy for `n` looks and then not, with a round for each and one more, says
-- whether the next status has data ready.
pub busy_wait-ready :
    (fuel n : ℕ) (status : ℕ → ℕ)
    → ((j : ℕ) → j < n → is_busy (status j) ≡ true)
    → is_busy (status n) ≡ false
    → n < fuel
    → busy_wait fuel status ≡ ok (has_data (status (n + 1)))
unfolding busy_wait
busy_wait-ready fuel n status busy free h =
    ready_from fuel 30000 0 n status
      (λ j lt. ap (λ (k : ℕ). is_busy (status k)) (zero-add j) ∙ busy j lt)
      (ap (λ (k : ℕ). is_busy (status k)) (zero-add n) ∙ free) h
    ∙ ap (λ (k : ℕ). ok (has_data (status (k + 1)))) (zero-add n)
  where
    zero-add : (j : ℕ) → 0 + j ≡ j
    zero-add j = omega arith
