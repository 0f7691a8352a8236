-- ===== src/Dlist/Find.antt =====
-- list_find of lib/kernel/list.c, and list_traversal.
use fizzos.Base.{
  ℕ, zero, suc, ◌<◌, ◌≡◌, refl, ap, ◌∙◌, Bool, ok, List, [], ◌∷◌, arith, length, if◌then◌else◌,
}
use fizzos.Dlist.{Ptr, null, Mem, list_find, find_from, list_traversal}
use fizzos.Dlist.Chain.{has, first, Next, Kernel}
use fizzos.Dlist.Represents.{Represents}

find_from-has :
    (k : ℕ) (e : Ptr) (m : Mem) (xs : List Ptr)
    → Next m.elem xs null
    → Kernel xs
    → length xs < k
    → find_from k (first xs null) e m ≡ ok (has e xs)
unfolding find_from
find_from-has zero e m xs n kernel fuel = absurd (omega arith)
find_from-has (suc k) e m [] n kernel fuel = refl
find_from-has (suc k) e m (x ∷ xs) n kernel fuel = rw n.0 (ground (arith, find_from-has k e m xs))

-- It is the chain of `next` from the head that counts, not the tail.
pub list_find_chain :
    (fuel : ℕ) (e : Ptr) (m : Mem) (xs : List Ptr)
    → m.head ≡ first xs null
    → Next m.elem xs null
    → Kernel xs
    → length xs < fuel
    → list_find fuel e m ≡ ok (has e xs)
unfolding list_find
list_find_chain fuel e m xs q n k h =
    ap (λ p. find_from fuel p e m) q ∙ find_from-has fuel e m xs n k h

-- list_find of a well formed list, with a round for each element and one more, returns whether the
-- element is in the list.
pub list_find-has :
    (fuel : ℕ) (e : Ptr) (m : Mem) (xs : List Ptr)
    → Represents m xs
    → length xs < fuel
    → list_find fuel e m ≡ ok (has e xs)
list_find-has fuel e m xs r h = list_find_chain fuel e m xs r.head r.nexts r.kernel h

-- The elements up to the first for which `f` is true, that one included.
abbrev pub visited : (Ptr → Bool) → List Ptr → List Ptr
visited f [] = []
visited f (x ∷ xs) = x ∷ (if f x then [] else visited f xs)

traversal_from :
    (k : ℕ) (f : Ptr → Bool) (m : Mem) (xs : List Ptr)
    → Next m.elem xs null
    → Kernel xs
    → length xs < k
    → list_traversal k f (first xs null) m ≡ ok (visited f xs)
unfolding list_traversal
traversal_from zero f m xs n kernel fuel = absurd (omega arith)
traversal_from (suc k) f m [] n kernel fuel = refl
traversal_from (suc k) f m (x ∷ xs) n kernel fuel = rw n.0 (ground (arith, traversal_from k f m xs))

-- list_traversal from the head of a well formed list, with a round for each element and one more,
-- calls its function on the elements in order, and stops after the first for which it returns true.
pub list_traversal-visited :
    (fuel : ℕ) (f : Ptr → Bool) (m : Mem) (xs : List Ptr)
    → Represents m xs
    → length xs < fuel
    → list_traversal fuel f m.head m ≡ ok (visited f xs)
list_traversal-visited fuel f m xs r h =
    ap (λ p. list_traversal fuel f p m) r.head ∙ traversal_from fuel f m xs r.nexts r.kernel h
