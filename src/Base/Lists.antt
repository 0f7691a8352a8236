-- ===== src/Base/Lists.antt =====
-- Lists measured and indexed by native numbers, under the library's names.
use Prim.Native.Nat.{ℕ, zero, suc, ◌+◌, ◌-◌, ◌<◌, ◌≤◌, min}
use mathlib.Core.Path.{◌≡◌, refl, ap, ap₂, sym, ◌∙◌}
use mathlib.Core.Logic.{◌≢◌}
use mathlib.Core.List.{List, [], ◌∷◌, ◌++◌}
use mathlib.Core.Option.{Option, none, some}
use native.Mathlib.Omega.{arith}

module _ {ℓ} {A : Type ℓ} where
  abbrev pub length : List A → ℕ
  length [] = 0
  length (x ∷ xs) = suc (length xs)

  abbrev pub get_elem? : List A → ℕ → Option A
  get_elem? [] i = none
  get_elem? (x ∷ xs) zero = some x
  get_elem? (x ∷ xs) (suc i) = get_elem? xs i

  abbrev pub get_or : List A → ℕ → A → A
  get_or [] i d = d
  get_or (x ∷ xs) zero d = x
  get_or (x ∷ xs) (suc i) d = get_or xs i d

  -- A write out of bounds changes nothing.
  abbrev pub set : List A → ℕ → A → List A
  set [] i v = []
  set (x ∷ xs) zero v = v ∷ xs
  set (x ∷ xs) (suc i) v = x ∷ set xs i v

  abbrev pub take : ℕ → List A → List A
  take zero xs = []
  take (suc n) [] = []
  take (suc n) (x ∷ xs) = x ∷ take n xs

  abbrev pub drop : ℕ → List A → List A
  drop zero xs = xs
  drop (suc n) [] = []
  drop (suc n) (x ∷ xs) = drop n xs

  abbrev pub replicate : ℕ → A → List A
  replicate zero a = []
  replicate (suc n) a = a ∷ replicate n a

module _ {ℓ} {A : Type ℓ} where
  pub length-append : (xs ys : List A) → length (xs ++ ys) ≡ length xs + length ys
  length-append [] ys = omega arith
  length-append (x ∷ xs) ys = omega (arith, length-append xs ys)

  pub length-set : (xs : List A) (i : ℕ) (v : A) → length (set xs i v) ≡ length xs
  length-set [] i v = refl
  length-set (x ∷ xs) zero v = refl
  length-set (x ∷ xs) (suc i) v = ap suc (length-set xs i v)

  pub get_elem?-eq-get_or :
      (xs : List A) (i : ℕ) (d : A) → i < length xs → get_elem? xs i ≡ some (get_or xs i d)
  get_elem?-eq-get_or [] i d h = absurd (omega arith)
  get_elem?-eq-get_or (x ∷ xs) zero d h = refl
  get_elem?-eq-get_or (x ∷ xs) (suc i) d h = get_elem?-eq-get_or xs i d (omega arith)

  pub get_or-set_self :
      (xs : List A) (i : ℕ) (v d : A) → i < length xs → get_or (set xs i v) i d ≡ v
  get_or-set_self [] i v d h = absurd (omega arith)
  get_or-set_self (x ∷ xs) zero v d h = refl
  get_or-set_self (x ∷ xs) (suc i) v d h = get_or-set_self xs i v d (omega arith)

  pub get_or-set_ne :
      (xs : List A) (i j : ℕ) (v d : A) → i ≢ j → get_or (set xs i v) j d ≡ get_or xs j d
  get_or-set_ne [] i j v d h = refl
  get_or-set_ne (x ∷ xs) zero zero v d h = absurd (h refl)
  get_or-set_ne (x ∷ xs) zero (suc j) v d h = refl
  get_or-set_ne (x ∷ xs) (suc i) zero v d h = refl
  get_or-set_ne (x ∷ xs) (suc i) (suc j) v d h = get_or-set_ne xs i j v d (λ e. h (ap suc e))

  pub get_or-snoc_lt :
      (xs : List A) (y d : A) (i : ℕ) → i < length xs → get_or (xs ++ (y ∷ [])) i d ≡ get_or xs i d
  get_or-snoc_lt [] y d i h = absurd (omega arith)
  get_or-snoc_lt (x ∷ xs) y d zero h = refl
  get_or-snoc_lt (x ∷ xs) y d (suc i) h = get_or-snoc_lt xs y d i (omega arith)

  pub get_or-snoc_last : (xs : List A) (y d : A) → get_or (xs ++ (y ∷ [])) (length xs) d ≡ y
  get_or-snoc_last [] y d = refl
  get_or-snoc_last (x ∷ xs) y d = get_or-snoc_last xs y d

  pub get_or_beyond : (xs : List A) (d : A) (i : ℕ) → length xs ≤ i → get_or xs i d ≡ d
  get_or_beyond [] d i h = refl
  get_or_beyond (x ∷ xs) d zero h = absurd (omega arith)
  get_or_beyond (x ∷ xs) d (suc i) h = get_or_beyond xs d i (omega arith)

  pub length-take : (n : ℕ) (xs : List A) → length (take n xs) ≡ min n (length xs)
  length-take zero xs = omega arith
  length-take (suc n) [] = omega arith
  length-take (suc n) (x ∷ xs) = omega (arith, length-take n xs)

  pub length-replicate : (n : ℕ) (a : A) → length (replicate n a) ≡ n
  length-replicate zero a = refl
  length-replicate (suc n) a = ap suc (length-replicate n a)

module _ {ℓ} {A : Type ℓ} where
  pub drop-set :
      (i : ℕ) (xs : List A) (v : A) → i < length xs → drop i (set xs i v) ≡ v ∷ drop (suc i) xs
  drop-set i [] v h = absurd (omega arith)
  drop-set zero (x ∷ xs) v h = refl
  drop-set (suc i) (x ∷ xs) v h = drop-set i xs v (omega arith)

  pub take-length-append : (xs ys : List A) → take (length xs) (xs ++ ys) ≡ xs
  take-length-append [] ys = refl
  take-length-append (x ∷ xs) ys = ap (λ l. x ∷ l) (take-length-append xs ys)

  pub drop-length-append : (xs ys : List A) → drop (length xs) (xs ++ ys) ≡ ys
  drop-length-append [] ys = refl
  drop-length-append (x ∷ xs) ys = drop-length-append xs ys

  pub append-take-drop : (n : ℕ) (xs : List A) → take n xs ++ drop n xs ≡ xs
  append-take-drop zero xs = refl
  append-take-drop (suc n) [] = refl
  append-take-drop (suc n) (x ∷ xs) = ap (λ l. x ∷ l) (append-take-drop n xs)

  pub length-drop : (n : ℕ) (xs : List A) → length (drop n xs) ≡ length xs - n
  length-drop zero xs = omega arith
  length-drop (suc n) [] = omega arith
  length-drop (suc n) (x ∷ xs) = omega (arith, length-drop n xs)

  -- The values of a function at the `n` numbers from `a` on.
  unfoldable pub values : (ℕ → A) → ℕ → ℕ → List A
  values f a zero = []
  values f a (suc n) = f a ∷ values f (a + 1) n

  pub values-append :
      (f : ℕ → A) (a n m : ℕ) → values f a n ++ values f (a + n) m ≡ values f a (n + m)
  unfolding values
  values-append f a zero m =
      ap (λ (l : ℕ). values f l m) (omega arith) ∙ ap (values f a) (omega arith)
  values-append f a (suc n) m =
      ap (λ l. f a ∷ l)
        (ap (λ (l : ℕ). values f (a + 1) n ++ values f l m) (omega arith)
          ∙ values-append f (a + 1) n m)
      ∙ sym (ap (values f a) (suc_plus n m))
    where
      suc_plus : (n m : ℕ) → suc n + m ≡ suc (n + m)
      suc_plus n m = omega arith

  -- Two functions that agree, at a distance.
  pub values-agree :
      (f g : ℕ → A) (a b n : ℕ)
      → ((i : ℕ) → i < n → f (a + i) ≡ g (b + i))
      → values f a n ≡ values g b n
  unfolding values
  values-agree f g a b zero h = refl
  values-agree f g a b (suc n) h =
      ap₂ ◌∷◌ (ap f (zero_more a) ∙ h 0 (omega arith) ∙ ap g (sym (zero_more b))) (
        values-agree f g (a + 1) (b + 1) n
          (λ i lt. ap f (shift a i) ∙ h (suc i) (omega arith) ∙ ap g (sym (shift b i))))
    where
      zero_more : (a : ℕ) → a ≡ a + 0
      zero_more a = omega arith

      shift : (a i : ℕ) → a + 1 + i ≡ a + suc i
      shift a i = omega arith
