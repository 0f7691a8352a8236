-- ===== src/Dlist/Pop.antt =====
-- list_pop_front, list_front and list_empty of lib/kernel/list.c.
use fizzos.Base.{◌≡◌, ◌≢◌, ◌≤◌, refl, sym, ap, ◌∙◌, true, List, [], ◌∷◌, arith, ok, Returns}
use fizzos.Dlist.{Ptr, null, kernel_base, ListElem, Links, Mem, write, list_pop_front}
use fizzos.Dlist.Chain.{has, last, has-last, ne_of_has, ne_of_not_has, Next-frame, Prev-frame}
use fizzos.Dlist.Represents.{Represents, SameOutside, last-Kernel}

-- The links after the head `p` has forgotten the element behind it.
pub cut : Ptr → Links → Links
cut p h = write h p (record { prev = (h p).prev; next = null })

pub cut_other : (p : Ptr) (h : Links) (a : Ptr) → a ≢ p → cut p h a ≡ h a
unfolding cut
cut_other p h a ne = ground arith

pop_front_run :
    (m : Mem)
    → kernel_base ≤ m.head
    → kernel_base ≤ m.tail
    → kernel_base ≤ (m.elem m.head).next
    → m.head ≢ m.tail
    → list_pop_front m
      ≡ ok (m.head, record m { head = (m.elem m.head).next; elem = cut m.head m.elem })
unfolding list_pop_front cut
pop_front_run m hh ht hn ne = ground arith

-- The memory that list_pop_front leaves of a list with a second element.
pub popped : Mem → Mem
popped m = record m { head = (m.elem m.head).next; elem = cut m.head m.elem }

pub popped_elem : (m : Mem) → (popped m).elem ≡ cut m.head m.elem
unfolding popped
popped_elem m = refl

pub pop_front_explicit :
    (m : Mem) (x y : Ptr) (xs : List Ptr)
    → Represents m (x ∷ y ∷ xs)
    → (list_pop_front m ≡ ok (m.head, popped m)) × ((popped m).head ≡ y)
unfolding popped
pop_front_explicit m x y xs r = (
  pop_front_run m (omega arith) (omega (arith, last-Kernel y xs r.kernel.1))
      (omega (arith, second, r.kernel.1.0)) (λ q. apart (sym r.head ∙ q ∙ r.tail)),
  second,
)
  where
    apart : x ≢ last xs y
    apart q = ne_of_has (last xs y) x (y ∷ xs) (has-last y xs) r.distinct.0 (sym q)

    second : (m.elem m.head).next ≡ y
    second = ap (λ a. (m.elem a).next) r.head ∙ r.nexts.0

-- list_pop_front of a well formed list that is not empty returns the first element and leaves a well
-- formed list of the others; links but those of that element, and the interrupt flag, are as before.
pub pop_front-cons :
    (m : Mem) (x : Ptr) (xs : List Ptr)
    → Represents m (x ∷ xs)
    → Returns (λ (p, m'). (p ≡ x) × Represents m' xs × SameOutside (x ∷ []) m m') (list_pop_front m)
unfolding list_pop_front popped
pop_front-cons m x [] r = ground arith
pop_front-cons m x (y ∷ xs) r = rw (pop_front_explicit m x y xs r).0 (
  r.head,
  record {
    head = (pop_front_explicit m x y xs r).1;
    tail = r.tail;
    nexts = Next-frame m.elem g (y ∷ xs) null r.nexts.1 (λ a i. ap ListElem.next (same a i));
    prevs = Prev-frame m.elem g y xs r.prevs.1 (λ a i. ap ListElem.prev (same a (ground arith)));
    distinct = r.distinct.1;
    kernel = r.kernel.1;
  },
  record {
    links = λ a out. cut_other m.head m.elem a (λ q. ne_of_not_has a x [] out (q ∙ r.head));
    intr = refl;
  },
)
  where
    g : Links
    g = cut m.head m.elem

    same : (a : Ptr) → has a (y ∷ xs) ≡ true → g a ≡ m.elem a
    same a i = cut_other m.head m.elem a (λ q. ne_of_has a x (y ∷ xs) i r.distinct.0 (q ∙ r.head))

-- list_pop_front of an empty list returns NULL and changes nothing.
pub pop_front-nil : (m : Mem) → Represents m [] → list_pop_front m ≡ ok (null, m)
unfolding list_pop_front
pop_front-nil m r = ground arith
