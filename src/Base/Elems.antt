-- ===== src/Base/Elems.antt =====
-- Lists of elements as lib/kernel/list.c keeps them, where only the order of the elements matters.
use Prim.Native.Nat.{ℕ, ◌+◌}
use mathlib.Core.Bool.{Bool, true, false}
use mathlib.Core.List.{List, [], ◌∷◌, ◌++◌}
use mathlib.Core.Path.{◌≡◌}
use mathlib.Core.Logic.{◌⊎◌, inr}
use native.Mathlib.Omega.{arith}
use fizzos.Base.Lists.{length}
use fizzos.Base.Outcomes.{Outcome, ok, ◌>>◌, assert}
use fizzos.Base.Tests.{◌==◌, if◌then◌else◌}

unfoldable pub remove_elem : ℕ → List ℕ → List ℕ
remove_elem e [] = []
remove_elem e (x ∷ xs) = if x == e then xs else x ∷ remove_elem e xs

unfoldable pub contains : ℕ → List ℕ → Bool
contains e [] = false
contains e (x ∷ xs) = if x == e then true else contains e xs

-- list_delete: an element that is not in the list is a failed assertion.
unfoldable pub delete_elem : ℕ → List ℕ → Outcome (List ℕ)
unfolding contains remove_elem
delete_elem e xs = assert (contains e xs) >> ok (remove_elem e xs)

pub length-remove_elem :
    (e : ℕ) (xs : List ℕ) → contains e xs ≡ true → length (remove_elem e xs) + 1 ≡ length xs
unfolding contains remove_elem
length-remove_elem e [] h = absurd (ground arith)
length-remove_elem e (x ∷ xs) h = ground (arith, length-remove_elem e xs)

pub contains-remove_elem :
    (a e : ℕ) (xs : List ℕ) → contains a (remove_elem e xs) ≡ true → contains a xs ≡ true
unfolding contains remove_elem
contains-remove_elem a e [] h = h
contains-remove_elem a e (x ∷ xs) h = ground (arith, contains-remove_elem a e xs)

pub contains-snoc :
    (a y : ℕ) (xs : List ℕ) → contains a (xs ++ (y ∷ [])) ≡ true → (contains a xs ≡ true) ⊎ (a ≡ y)
unfolding contains
contains-snoc a y [] h = inr (ground arith)
contains-snoc a y (x ∷ xs) h = ground (arith, contains-snoc a y xs)
