-- ===== src/Base/Totals.antt =====
-- Sums of weights over a list, and what one place and two places add to them.
use Prim.Native.Nat.{ℕ, zero, suc, ◌+◌, ◌<◌, ◌≤◌}
use mathlib.Core.Path.{◌≡◌, refl, ap}
use mathlib.Core.Logic.{◌≢◌}
use mathlib.Core.List.{List, [], ◌∷◌, ◌++◌}
use native.Mathlib.Omega.{arith}
use fizzos.Base.Lists.{length, get_or, set}

module _ {ℓ} {A : Type ℓ} (w : A → ℕ) where
  unfoldable pub total : List A → ℕ
  total [] = 0
  total (x ∷ xs) = w x + total xs

  pub total-append : (xs ys : List A) → total (xs ++ ys) ≡ total xs + total ys
  unfolding total
  total-append [] ys = omega arith
  total-append (x ∷ xs) ys = omega (arith, total-append xs ys)

  pub total-one : (x : A) → total (x ∷ []) ≡ w x
  unfolding total
  total-one x = omega arith

  -- A place that is written to.
  pub total-set :
      (xs : List A) (i : ℕ) (a d : A)
      → i < length xs
      → total (set xs i a) + w (get_or xs i d) ≡ total xs + w a
  unfolding total
  total-set [] i a d h = absurd (omega arith)
  total-set (x ∷ xs) zero a d h = omega arith
  total-set (x ∷ xs) (suc i) a d h = omega (arith, total-set xs i a d (omega arith))

  pub le-total : (xs : List A) (i : ℕ) (d : A) → i < length xs → w (get_or xs i d) ≤ total xs
  unfolding total
  le-total [] i d h = absurd (omega arith)
  le-total (x ∷ xs) zero d h = omega arith
  le-total (x ∷ xs) (suc i) d h = omega (arith, le-total xs i d (omega arith))

  pub two-le-total :
      (xs : List A) (i j : ℕ) (d : A)
      → i < length xs
      → j < length xs
      → i ≢ j
      → w (get_or xs i d) + w (get_or xs j d) ≤ total xs
  unfolding total
  two-le-total [] i j d h k ne = absurd (omega arith)
  two-le-total (x ∷ xs) zero zero d h k ne = absurd (ne refl)
  two-le-total (x ∷ xs) zero (suc j) d h k ne = omega (arith, le-total xs j d (omega arith))
  two-le-total (x ∷ xs) (suc i) zero d h k ne = omega (arith, le-total xs i d (omega arith))
  two-le-total (x ∷ xs) (suc i) (suc j) d h k ne =
      omega (arith, two-le-total xs i j d (omega arith) (omega arith) (λ e. ne (ap suc e)))
