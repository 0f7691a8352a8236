-- ===== src/Dlist/Push.antt =====
-- list_push_back and list_push_front of lib/kernel/list.c.
use fizzos.Base.{◌≡◌, ◌≢◌, ◌≤◌, refl, sym, ap, false, List, [], ◌∷◌, ◌++◌, arith, ok, Returns}
use fizzos.Dlist.{
  Ptr, null, kernel_base, ListElem, Links, Mem, write, list_push_back, list_push_front,
}
use fizzos.Dlist.Chain.{
  has, last, Distinct, Kernel, has-append, ne_of_has, last-append, has-last, Next-append,
  Next-retarget, Prev-append, Prev-frame, Next-frame,
}
use fizzos.Dlist.Represents.{Represents, SameOutside, last-Kernel}

Distinct-append :
    (e : Ptr) (xs : List Ptr) → Distinct xs → has e xs ≡ false → Distinct (xs ++ (e ∷ []))
Distinct-append e [] d o = (refl, tt)
Distinct-append e (x ∷ xs) d o =
    (ground (arith, has-append x xs (e ∷ [])), Distinct-append e xs d.1 (ground arith))

Kernel-append : (e : Ptr) (xs : List Ptr) → Kernel xs → kernel_base ≤ e → Kernel (xs ++ (e ∷ []))
Kernel-append e [] k h = (h, tt)
Kernel-append e (x ∷ xs) k h = (k.0, Kernel-append e xs k.1 h)

-- The links after an element was put behind the tail `t`.
linked_behind : Ptr → Ptr → Links → Links
linked_behind t e h =
    let h1 = write h t (record { prev = (h t).prev; next = e }) in
    let h2 = write h1 e (record { prev = t; next = (h1 e).next }) in
    write h2 e (record { prev = (h2 e).prev; next = null })

module _ (t e : Ptr) (h : Links) (apart : t ≢ e) where
  behind_old : linked_behind t e h t ≡ record { prev = (h t).prev; next = e }
  unfolding linked_behind
  behind_old = ground arith

  behind_new : linked_behind t e h e ≡ record { prev = t; next = null }
  unfolding linked_behind
  behind_new = ground arith

behind_other : (t e : Ptr) (h : Links) (a : Ptr) → a ≢ t → a ≢ e → linked_behind t e h a ≡ h a
unfolding linked_behind
behind_other t e h a ne ne' = ground arith

behind_prev : (t e : Ptr) (h : Links) (a : Ptr) → a ≢ e → (linked_behind t e h a).prev ≡ (h a).prev
unfolding linked_behind
behind_prev t e h a ne = ground arith

push_back_run :
    (e : Ptr) (m : Mem)
    → kernel_base ≤ m.tail
    → kernel_base ≤ m.head
    → kernel_base ≤ e
    → list_push_back e m ≡ ok (record m { tail = e; elem = linked_behind m.tail e m.elem })
unfolding list_push_back linked_behind
push_back_run e m ht hh he = ground arith

-- list_push_back of a kernel address that is not in a well formed list returns and makes it the last
-- element of a well formed list; links outside the list and the interrupt flag are as before.
pub push_back-append :
    (e : Ptr) (m : Mem) (xs : List Ptr)
    → Represents m xs
    → has e xs ≡ false
    → kernel_base ≤ e
    → Returns
        (λ m'. Represents m' (xs ++ (e ∷ [])) × SameOutside (e ∷ xs) m m')
        (list_push_back e m)
unfolding list_push_back
push_back-append e m [] r o k = ground arith
push_back-append e m (x ∷ xs) r o k =
    rw (push_back_run e m (omega (arith, last-Kernel x xs r.kernel)) (omega arith) k, r.tail)
      (
        record {
          head = r.head;
          tail = sym (last-append xs (e ∷ []) x);
          nexts =
              Next-append g (x ∷ xs) (e ∷ []) null
                (Next-retarget m.elem g x xs null e r.distinct r.nexts
                  (λ a i ne.
                    ap ListElem.next (behind_other t e m.elem a ne (ne_of_has a e (x ∷ xs) i o)))
                  (ap ListElem.next (behind_old t e m.elem apart)))
                (ap ListElem.next (behind_new t e m.elem apart), tt);
          prevs =
              Prev-append g x xs (e ∷ [])
                (Prev-frame m.elem g x xs r.prevs
                  (λ a i. behind_prev t e m.elem a (ne_of_has a e (x ∷ xs) (ground arith) o)))
                (ap ListElem.prev (behind_new t e m.elem apart), tt);
          distinct = Distinct-append e (x ∷ xs) r.distinct o;
          kernel = Kernel-append e (x ∷ xs) r.kernel k;
        },
        record {
          links = λ a out.
              behind_other t e m.elem a
                (λ q. ne_of_has t a (x ∷ xs) (has-last x xs) (ground arith) (sym q)) (ground arith);
          intr = refl;
        },
      )
  where
    t : Ptr
    t = last xs x

    g : Links
    g = linked_behind t e m.elem

    apart : t ≢ e
    apart = ne_of_has t e (x ∷ xs) (has-last x xs) o

-- The links after an element was put before the head `p`.
linked_before : Ptr → Ptr → Links → Links
linked_before p e h =
    let h1 = write h e (record { prev = null; next = (h e).next }) in
    let h2 = write h1 e (record { prev = (h1 e).prev; next = p }) in
    write h2 p (record { prev = e; next = (h2 p).next })

before_new : (p e : Ptr) (h : Links) → e ≢ p → (linked_before p e h e).next ≡ p
unfolding linked_before
before_new p e h apart = ground arith

before_next : (p e : Ptr) (h : Links) (a : Ptr) → a ≢ e → (linked_before p e h a).next ≡ (h a).next
unfolding linked_before
before_next p e h a ne = ground arith

before_old : (p e : Ptr) (h : Links) → (linked_before p e h p).prev ≡ e
unfolding linked_before
before_old p e h = ground arith

before_other : (p e : Ptr) (h : Links) (a : Ptr) → a ≢ p → a ≢ e → linked_before p e h a ≡ h a
unfolding linked_before
before_other p e h a ne ne' = ground arith

push_front_run :
    (e : Ptr) (m : Mem)
    → kernel_base ≤ m.head
    → kernel_base ≤ e
    → list_push_front e m ≡ ok (record m { head = e; elem = linked_before m.head e m.elem })
unfolding list_push_front linked_before
push_front_run e m hh he = ground arith

-- list_push_front of a kernel address that is not in a well formed list returns and makes it the
-- first element of a well formed list; links outside the list and the interrupt flag are as before.
pub push_front-cons :
    (e : Ptr) (m : Mem) (xs : List Ptr)
    → Represents m xs
    → has e xs ≡ false
    → kernel_base ≤ e
    → Returns (λ m'. Represents m' (e ∷ xs) × SameOutside (e ∷ xs) m m') (list_push_front e m)
unfolding list_push_front
push_front-cons e m [] r o k = ground arith
push_front-cons e m (x ∷ xs) r o k =
    rw (push_front_run e m (omega arith) k, r.head)
      (
        record {
          head = refl;
          tail = r.tail;
          nexts = (
            before_new x e m.elem apart,
            Next-frame m.elem g (x ∷ xs) null r.nexts
                (λ a i. before_next x e m.elem a (ne_of_has a e (x ∷ xs) i o)),
          );
          prevs = (
            before_old x e m.elem,
            Prev-frame m.elem g x xs r.prevs (λ a i. ap ListElem.prev (
                before_other x e m.elem a (ne_of_has a x xs i r.distinct.0)
                  (ne_of_has a e (x ∷ xs) (ground arith) o))),
          );
          distinct = (o, r.distinct);
          kernel = (k, r.kernel);
        },
        record {
          links = λ a out. before_other x e m.elem a (ground arith) (ground arith);
          intr = refl;
        },
      )
  where
    g : Links
    g = linked_before x e m.elem

    apart : e ≢ x
    apart = ground arith
