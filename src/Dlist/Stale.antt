-- ===== src/Dlist/Stale.antt =====
-- Two operations of lib/kernel/list.c that leave a link behind: list_pop_back does not clear the
-- `next` of the new last element, and list_pop_front does not clear the `prev` of the new first one.
use fizzos.Base.{
  ℕ, ◌<◌, ◌≡◌, ◌≢◌, ◌≤◌, sym, ap, ◌∙◌, true, false, List, [], ◌∷◌, ◌++◌, arith, ok, Returns, length,
  ◌>>=◌,
}
use fizzos.Dlist.{
  Ptr, null, kernel_base, ListElem, Links, Mem, write, list_find, list_pop_back, list_pop_front,
  list_insert_front,
}
use fizzos.Dlist.Chain.{
  has, last, has-append, last-append, ne_of_has, ne_of_not_has, Prev-split, Next-frame,
}
use fizzos.Dlist.Distinct.{Kernel-split}
use fizzos.Dlist.Find.{list_find_chain}
use fizzos.Dlist.Pop.{cut_other, popped, popped_elem, pop_front_explicit}
use fizzos.Dlist.Represents.{Represents}

pop_back_run :
    (m : Mem)
    → kernel_base ≤ m.tail
    → m.tail ≢ m.head
    → list_pop_back m ≡ ok (m.tail, record m { tail = (m.elem m.tail).prev })
unfolding list_pop_back
pop_back_run m ht ne = ground arith

-- list_pop_back of a well formed list of two or more elements returns the last one and the tail is
-- the one before it, but list_find, with a round for each element and one more, still finds the
-- removed element.
pub pop_back_stale :
    (fuel : ℕ) (x : Ptr) (us : List Ptr) (e : Ptr) (m : Mem)
    → Represents m (x ∷ (us ++ (e ∷ [])))
    → length (x ∷ (us ++ (e ∷ []))) < fuel
    → Returns
        (λ (p, m'). (p ≡ e) × (m'.tail ≡ last us x) × (list_find fuel e m' ≡ ok true))
        (list_pop_back m)
pop_back_stale fuel x us e m r h = rw (pop_back_run m known ends) (
  tail,
  ap (λ a. (m.elem a).prev) tail ∙ (Prev-split m.elem x us (e ∷ []) r.prevs).1.0,
  list_find_chain fuel e (record m { tail = (m.elem m.tail).prev }) (x ∷ (us ++ (e ∷ []))) r.head
        r.nexts r.kernel h
      ∙ ap ok (found us),
)
  where
    tail : m.tail ≡ e
    tail = r.tail ∙ last-append us (e ∷ []) x

    known : kernel_base ≤ m.tail
    known = omega (arith, tail, (Kernel-split (x ∷ us) (e ∷ []) r.kernel).1.0)

    apart : x ≢ e
    apart q = ground (arith, has-append x us (e ∷ []), r.distinct.0)

    ends : m.tail ≢ m.head
    ends q = apart (sym r.head ∙ sym q ∙ tail)

    found : (us : List Ptr) → has e (x ∷ (us ++ (e ∷ []))) ≡ true
    found us = ground (arith, has-append e us (e ∷ []))

-- The links after `e` was put between `b` and `p`.
inserted : Ptr → Ptr → Ptr → Links → Links
inserted b e p h =
    let h1 = write h e (record { prev = b; next = (h e).next }) in
    let h2 = write h1 e (record { prev = (h1 e).prev; next = p }) in
    let h3 = write h2 p (record { prev = e; next = (h2 p).next }) in
    write h3 b (record { prev = (h3 b).prev; next = e })

inserted_next :
    (b e p : Ptr) (h : Links) (a : Ptr) → a ≢ b → a ≢ e → (inserted b e p h a).next ≡ (h a).next
unfolding inserted
inserted_next b e p h a ne ne' = ground arith

insert_front_run :
    (p e : Ptr) (m : Mem)
    → kernel_base ≤ p
    → kernel_base ≤ e
    → e ≢ p
    → kernel_base ≤ (m.elem p).prev
    → list_insert_front p e m ≡ ok (record m { elem = inserted (m.elem p).prev e p m.elem })
unfolding list_insert_front inserted
insert_front_run p e m hp he ne hb = ground arith

-- After list_pop_front of a well formed list of two or more elements, list_insert_front before the
-- new first one, of a kernel address that is not in the list, returns but loses the element: the
-- head stays, and list_find does not find it.
pub insert_front_lost :
    (fuel : ℕ) (x y : Ptr) (ys : List Ptr) (e : Ptr) (m : Mem)
    → Represents m (x ∷ y ∷ ys)
    → has e (y ∷ ys) ≡ false
    → kernel_base ≤ e
    → length (y ∷ ys) < fuel
    → Returns
        (λ m'. (m'.head ≡ y) × (list_find fuel e m' ≡ ok false))
        (list_pop_front m >>= λ (p, m'). list_insert_front y e m')
insert_front_lost fuel x y ys e m r o k h =
    rw
      (
        (pop_front_explicit m x y ys r).0,
        insert_front_run y e (popped m) r.kernel.1.0 k (λ q. ne_of_not_has e y ys o q) known,
      )
      (
        head,
        list_find_chain fuel e (record (popped m) { elem = g }) (y ∷ ys) head
              (Next-frame m.elem g (y ∷ ys) null r.nexts.1 same) r.kernel.1 h
            ∙ ap ok o,
      )
  where
    head : (popped m).head ≡ y
    head = (pop_front_explicit m x y ys r).1

    other : (a : Ptr) → has a (y ∷ ys) ≡ true → (popped m).elem a ≡ m.elem a
    other a i =
        ap (λ h. h a) (popped_elem m)
        ∙ cut_other m.head m.elem a (λ q. ne_of_has a x (y ∷ ys) i r.distinct.0 (q ∙ r.head))

    before : ((popped m).elem y).prev ≡ x
    before = ap ListElem.prev (other y (ground arith)) ∙ r.prevs.0

    known : kernel_base ≤ ((popped m).elem y).prev
    known = omega (arith, before, r.kernel.0)

    g : Links
    g = inserted ((popped m).elem y).prev e y (popped m).elem

    same : (a : Ptr) → has a (y ∷ ys) ≡ true → (g a).next ≡ (m.elem a).next
    same a i =
        inserted_next ((popped m).elem y).prev e y (popped m).elem a
          (λ q. ne_of_has a x (y ∷ ys) i r.distinct.0 (q ∙ before)) (ne_of_has a e (y ∷ ys) i o)
        ∙ ap ListElem.next (other a i)
