-- ===== src/Dlist/Delete.antt =====
-- list_delete of lib/kernel/list.c.
use fizzos.Base.{ℕ, ◌<◌, ◌≡◌, ◌≢◌, ◌≤◌, refl, Bool, true, false, List, arith, ok, panic, length}
use fizzos.Dlist.{Ptr, null, kernel_base, Links, Mem, write, list_delete, delete_body, unlink}
use fizzos.Dlist.Chain.{has}
use fizzos.Dlist.Find.{list_find-has}
use fizzos.Dlist.Represents.{Represents}
use fizzos.Dlist.Run.{with_intr_off-ok, with_intr_off-panic}

-- The interrupt flag plays no part in what a list holds.
pub Represents-intr :
    (m : Mem) (b : Bool) (xs : List Ptr) → Represents m xs → Represents (record m { intr = b }) xs
Represents-intr m b xs r = record {
  head = r.head;
  tail = r.tail;
  nexts = r.nexts;
  prevs = r.prevs;
  distinct = r.distinct;
  kernel = r.kernel;
}

pub delete_run :
    (fuel : ℕ) (e : Ptr) (m m' : Mem) (xs : List Ptr)
    → Represents m xs
    → length xs < fuel
    → has e xs ≡ true
    → unlink e (record m { intr = false }) ≡ ok m'
    → list_delete fuel e m ≡ ok (record m' { intr = m.intr })
unfolding list_delete delete_body
delete_run fuel e m m' xs r h i u =
    with_intr_off-ok (delete_body fuel e) m m' (
      rw (list_find-has fuel e (record m { intr = false }) xs (Represents-intr m false xs r) h, i)
        u)

-- list_delete of an element that is not in a well formed list, with a round for each element and one
-- more, is a failed assertion.
pub delete_missing :
    (fuel : ℕ) (e : Ptr) (m : Mem) (xs : List Ptr)
    → Represents m xs
    → length xs < fuel
    → has e xs ≡ false
    → list_delete fuel e m ≡ panic
unfolding list_delete delete_body
delete_missing fuel e m xs r h o = with_intr_off-panic (delete_body fuel e) m (
    rw (list_find-has fuel e (record m { intr = false }) xs (Represents-intr m false xs r) h, o)
      refl)

pub unlink_only :
    (e : Ptr) (m : Mem)
    → m.head ≡ e
    → m.tail ≡ e
    → unlink e m ≡ ok (record m { head = null; tail = null })
unfolding unlink
unlink_only e m q t = ground arith

pub unlink_head :
    (e : Ptr) (m : Mem)
    → m.head ≢ m.tail
    → m.head ≡ e
    → kernel_base ≤ e
    → kernel_base ≤ (m.elem e).next
    → let s = (m.elem e).next in
      unlink e m
      ≡ ok (record m {
        head = s;
        elem = write m.elem s (record { prev = null; next = (m.elem s).next });
      })
unfolding unlink
unlink_head e m ne q he hs = ground arith

pub unlink_tail :
    (e : Ptr) (m : Mem)
    → m.head ≢ m.tail
    → m.head ≢ e
    → m.tail ≡ e
    → kernel_base ≤ e
    → kernel_base ≤ (m.elem e).prev
    → let b = (m.elem e).prev in
      unlink e m
      ≡ ok (record m {
        tail = b;
        elem = write m.elem b (record { prev = (m.elem b).prev; next = null });
      })
unfolding unlink
unlink_tail e m ne q t he hs = ground arith

-- The links after `e` between `b` and `a` was taken out.
unfoldable pub bypassed : Ptr → Ptr → Ptr → Links → Links
bypassed b e a h =
    let h1 = write h b (record { prev = (h b).prev; next = a }) in
    let h2 = write h1 a (record { prev = b; next = (h1 a).next }) in
    let h3 = write h2 e (record { prev = null; next = (h2 e).next }) in
    write h3 e (record { prev = (h3 e).prev; next = null })

pub unlink_inner :
    (e : Ptr) (m : Mem)
    → m.head ≢ m.tail
    → m.head ≢ e
    → m.tail ≢ e
    → kernel_base ≤ e
    → kernel_base ≤ (m.elem e).prev
    → kernel_base ≤ (m.elem e).next
    → unlink e m ≡ ok (record m { elem = bypassed (m.elem e).prev e (m.elem e).next m.elem })
unfolding unlink bypassed
unlink_inner e m ne q t he hp hn = ground arith
