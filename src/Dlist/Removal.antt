-- ===== src/Dlist/Removal.antt =====
-- list_delete of lib/kernel/list.c takes out the element and nothing else: the four cases of the
-- code, an only element, the first, the last and one in between.
use fizzos.Base.{
  ℕ, ◌<◌, ◌≡◌, ◌≢◌, ◌≤◌, refl, sym, ap, subst, ◌∙◌, true, false, List, [], ◌∷◌, ◌++◌, arith,
  Returns, Returns-ok, length, append-nil,
}
use fizzos.Dlist.{Ptr, null, kernel_base, ListElem, Links, Mem, write, list_delete, unlink}
use fizzos.Dlist.Chain.{
  has, last, has-append, has-last, last-append, ne_of_has, ne_of_not_has, Prev, Kernel, Next-split,
  Next-frame, Next-retarget, Prev-split, Prev-frame,
}
use fizzos.Dlist.Bypass.{
  bypassed_other, between, Next-split_inner, Prev-split_inner, Kernel-split_inner, front_ne,
  bypass_nexts, bypass_prevs,
}
use fizzos.Dlist.Delete.{
  Represents-intr, delete_run, unlink_only, unlink_head, unlink_tail, unlink_inner,
}
use fizzos.Dlist.Distinct.{IsBetween, Distinct-IsBetween, Kernel-remove, Kernel-split}
use fizzos.Dlist.Represents.{Represents, SameOutside, last-Kernel}

write_other : (h : Links) (p : Ptr) (c : ListElem) (a : Ptr) → a ≢ p → write h p c a ≡ h a
write_other h p c a ne = ground arith

write_self : (h : Links) (p : Ptr) (c : ListElem) → write h p c p ≡ c
write_self h p c = ground arith

-- An address outside a list is not the last of its front part.
ne_last_of_outside :
    (x : Ptr) (us vs : List Ptr) (a : Ptr) → has a (x ∷ (us ++ vs)) ≡ false → a ≢ last us x
ne_last_of_outside x us vs a out q =
    ne_of_has (last us x) a (x ∷ us) (has-last x us) (ground (arith, has-append a us vs)) (sym q)

here : (x : Ptr) (us : List Ptr) → has x (x ∷ us) ≡ true
here x us = ground arith

in_middle : (us : List Ptr) (e : Ptr) (ys : List Ptr) → has e (us ++ (e ∷ ys)) ≡ true
in_middle [] e ys = here e ys
in_middle (x ∷ us) e ys = ground (arith, in_middle us e ys)

outside_middle :
    (us : List Ptr) (e y : Ptr) (ys : List Ptr) (a : Ptr)
    → has a (us ++ (e ∷ y ∷ ys)) ≡ false
    → (a ≢ e) × (a ≢ y)
outside_middle [] e y ys a out = ground arith
outside_middle (x ∷ us) e y ys a out = outside_middle us e y ys a (ground arith)

write_next :
    (h : Links) (p q : Ptr) (a : Ptr)
    → (write h p (record { prev = q; next = (h p).next }) a).next ≡ (h a).next
write_next h p q a = ground arith

write_prev :
    (h : Links) (p q : Ptr) (a : Ptr)
    → (write h p (record { prev = (h p).prev; next = q }) a).prev ≡ (h a).prev
write_prev h p q a = ground arith

-- What `unlink` has to leave.
abbrev Removed : List Ptr → Ptr → List Ptr → Mem → Mem → Type 0
Removed us e ys m m' = Represents m' (us ++ ys) × SameOutside (us ++ (e ∷ ys)) m m'

unlink_first :
    (e y : Ptr) (ys : List Ptr) (m : Mem)
    → Represents m (e ∷ y ∷ ys)
    → Returns (Removed [] e (y ∷ ys) m) (unlink e m)
unlink_first e y ys m r = rw (unlink_head e m ends r.head r.kernel.0 known) (
  record {
    head = r.nexts.0;
    tail = r.tail;
    nexts = Next-frame m.elem g (y ∷ ys) null r.nexts.1 (λ a i. write_next m.elem s null a);
    prevs = Prev-frame m.elem g y ys r.prevs.1 (λ a i.
        ap ListElem.prev
          (write_other m.elem s _ a (λ q. ne_of_has a y ys i r.distinct.1.0 (q ∙ r.nexts.0))));
    distinct = r.distinct.1;
    kernel = r.kernel.1;
  },
  record {
    links = λ a out.
        write_other m.elem s _ a (λ q. ne_of_not_has a y ys (ground arith) (q ∙ r.nexts.0));
    intr = refl;
  },
)
  where
    s : Ptr
    s = (m.elem e).next

    g : Links
    g = write m.elem s (record { prev = null; next = (m.elem s).next })

    known : kernel_base ≤ s
    known = omega (arith, r.nexts.0)

    ends : m.head ≢ m.tail
    ends q =
        ne_of_has (last ys y) e (y ∷ ys) (has-last y ys) r.distinct.0 (sym r.tail ∙ sym q ∙ r.head)

unlink_last :
    (x : Ptr) (us : List Ptr) (e : Ptr) (m : Mem)
    → Represents m (x ∷ (us ++ (e ∷ [])))
    → Returns (Removed (x ∷ us) e [] m) (unlink e m)
unlink_last x us e m r =
    rw (unlink_tail e m ends not_head tail (Kernel-split (x ∷ us) (e ∷ []) r.kernel).1.0 known) (
      subst (λ l. Represents (record m { tail = p; elem = g }) l) (sym (append-nil (x ∷ us)))
          (record {
            head = r.head;
            tail = before;
            nexts =
                Next-retarget m.elem g x us e null b.left
                  (Next-split m.elem (x ∷ us) (e ∷ []) null r.nexts).0
                  (λ a i ne. ap ListElem.next (write_other m.elem p _ a (λ q. ne (q ∙ before))))
                  (ap (λ a. (g a).next) (sym before) ∙ ap ListElem.next (write_self m.elem p _));
            prevs = Prev-frame m.elem g x us prevs.0 (λ a i. write_prev m.elem p null a);
            distinct = b.left;
            kernel = (Kernel-split (x ∷ us) (e ∷ []) r.kernel).0;
          }),
      record {
        links = λ a out. write_other m.elem p _ a (λ q. outside a out (q ∙ before));
        intr = refl;
      },
    )
  where
    outside : (a : Ptr) → has a (x ∷ (us ++ (e ∷ []))) ≡ false → a ≢ last us x
    outside = ne_last_of_outside x us (e ∷ [])

    b : IsBetween (x ∷ us) e []
    b = Distinct-IsBetween (x ∷ us) e [] r.distinct

    p : Ptr
    p = (m.elem e).prev

    g : Links
    g = write m.elem p (record { prev = (m.elem p).prev; next = null })

    prevs : Prev m.elem x us × Prev m.elem (last us x) (e ∷ [])
    prevs = Prev-split m.elem x us (e ∷ []) r.prevs

    before : p ≡ last us x
    before = prevs.1.0

    known : kernel_base ≤ p
    known = omega (arith, before, last-Kernel x us (Kernel-split (x ∷ us) (e ∷ []) r.kernel).0)

    tail : m.tail ≡ e
    tail = r.tail ∙ last-append us (e ∷ []) x

    apart : x ≢ e
    apart q = ne_of_not_has e x us b.not_left (sym q)

    not_head : m.head ≢ e
    not_head q = apart (sym r.head ∙ q)

    ends : m.head ≢ m.tail
    ends q = apart (sym r.head ∙ q ∙ tail)

unlink_between :
    (x : Ptr) (us : List Ptr) (e y : Ptr) (ys : List Ptr) (m : Mem)
    → Represents m (x ∷ (us ++ (e ∷ y ∷ ys)))
    → Returns (Removed (x ∷ us) e (y ∷ ys) m) (unlink e m)
unlink_between x us e y ys m r =
    rw (unlink_inner e m ends not_head not_tail kernel.1.0 known_before known_after, before, after)
      (
        record {
          head = r.head;
          tail = r.tail ∙ last-append us (e ∷ y ∷ ys) x ∙ sym (last-append us (y ∷ ys) x);
          nexts = bypass_nexts x us e y ys m r;
          prevs = bypass_prevs x us e y ys m r;
          distinct = b.rest;
          kernel = Kernel-remove (x ∷ us) e (y ∷ ys) r.kernel;
        },
        record {
          links = λ a out.
              bypassed_other l e y m.elem a (ne_last_of_outside x us (e ∷ y ∷ ys) a out)
                (outside a out).0 (outside a out).1;
          intr = refl;
        },
      )
  where
    l : Ptr
    l = last us x

    b : IsBetween (x ∷ us) e (y ∷ ys)
    b = between x us e y ys m r

    kernel : Kernel (x ∷ us) × Kernel (e ∷ y ∷ ys)
    kernel = Kernel-split_inner x us e y ys m r

    before : (m.elem e).prev ≡ l
    before = (Prev-split_inner x us e y ys m r).1.0

    after : (m.elem e).next ≡ y
    after = (Next-split_inner x us e y ys m r).1.0

    known_before : kernel_base ≤ (m.elem e).prev
    known_before = omega (arith, before, last-Kernel x us kernel.0)

    known_after : kernel_base ≤ (m.elem e).next
    known_after = omega (arith, after, kernel.1.1.0)

    apart : x ≢ e
    apart q = ne_of_not_has e x us b.not_left (sym q)

    not_head : m.head ≢ e
    not_head q = apart (sym r.head ∙ q)

    tail : m.tail ≡ last ys y
    tail = r.tail ∙ last-append us (e ∷ y ∷ ys) x

    not_tail : m.tail ≢ e
    not_tail q = ne_of_has (last ys y) e (y ∷ ys) (has-last y ys) b.not_right (sym tail ∙ q)

    ends : m.head ≢ m.tail
    ends q =
        front_ne x us e y ys m r x (last ys y) (here x us) (has-last y ys) (sym r.head ∙ q ∙ tail)

    outside : (a : Ptr) → has a (x ∷ (us ++ (e ∷ y ∷ ys))) ≡ false → (a ≢ e) × (a ≢ y)
    outside a out = outside_middle (x ∷ us) e y ys a out

unlink_lem :
    (us : List Ptr) (e : Ptr) (ys : List Ptr) (m : Mem)
    → Represents m (us ++ (e ∷ ys))
    → Returns (Removed us e ys m) (unlink e m)
unlink_lem [] e [] m r = rw (unlink_only e m r.head r.tail) (
  record { head = refl; tail = refl; nexts = tt; prevs = tt; distinct = tt; kernel = tt },
  record { links = λ a out. refl; intr = refl },
)
unlink_lem [] e (y ∷ ys) m r = unlink_first e y ys m r
unlink_lem (x ∷ us) e [] m r = unlink_last x us e m r
unlink_lem (x ∷ us) e (y ∷ ys) m r = unlink_between x us e y ys m r

-- list_delete of an element of a well formed list, with a round for each element and one more,
-- returns, takes out that element, keeps the order of the others, and leaves a well formed list;
-- links outside the list and the interrupt flag are as before.
pub delete-append :
    (fuel : ℕ) (us : List Ptr) (e : Ptr) (ys : List Ptr) (m : Mem)
    → Represents m (us ++ (e ∷ ys))
    → length (us ++ (e ∷ ys)) < fuel
    → Returns
        (λ m'. Represents m' (us ++ ys) × SameOutside (us ++ (e ∷ ys)) m m')
        (list_delete fuel e m)
delete-append fuel us e ys m r h =
    let (m', u, left) =
      Returns-ok (Removed us e ys m0) (unlink e m0)
        (unlink_lem us e ys m0 (Represents-intr m false (us ++ (e ∷ ys)) r)) in
    rw (delete_run fuel e m m' (us ++ (e ∷ ys)) r h (in_middle us e ys) u)
      (Represents-intr m' m.intr (us ++ ys) left.0, record { links = left.1.links; intr = refl })
  where
    m0 : Mem
    m0 = record m { intr = false }
