-- ===== src/Dlist/Tests.antt =====
-- lib/kernel/list.c on small lists, and its theorems at them.
use fizzos.Base.{
  if◌then◌else◌, ◌≡◌, refl, true, false, List, [], ◌∷◌, Outcome, ok, Returns, arith, ◌>>=◌, ◌==◌,
}
use fizzos.Dlist.{
  Ptr, Mem, Links, list_push_back, list_delete, list_insert_front, list_traversal, list_forward,
  list_backward, insert_in_order, list_insert_back,
}
use fizzos.Dlist.Removal.{delete-append}
use fizzos.Dlist.Represents.{Represents, SameOutside}

abbrev p1 : Ptr
p1 = 0xc000_1000

abbrev p2 : Ptr
p2 = 0xc000_2000

abbrev p3 : Ptr
p3 = 0xc000_3000

abbrev links : Links
links a =
    if a == p1
    then record { prev = 0; next = p2 }
    else if a == p2
    then record { prev = p1; next = 0 }
    else record { prev = 0; next = 0 }

-- The list of `p1` and `p2`, with interrupts on.
abbrev two : Mem
two = record { head = p1; tail = p2; elem = links; intr = true }

two-Represents : Represents two (p1 ∷ p2 ∷ [])
two-Represents = record {
  head = refl;
  tail = refl;
  nexts = (refl, (refl, tt));
  prevs = (refl, tt);
  distinct = (refl, (refl, tt));
  kernel = (omega arith, (omega arith, tt));
}

delete-append_example :
    Returns
      (λ m'. Represents m' (p1 ∷ []) × SameOutside (p1 ∷ p2 ∷ []) two m')
      (list_delete 3 p2 two)
delete-append_example = delete-append 3 (p1 ∷ []) p2 [] two two-Represents (omega arith)

-- The addresses reached from the head, after some operations.
reached : Outcome Mem → Outcome (List Ptr)
reached r = r >>= λ m. list_traversal 9 (λ p. false) m.head m

forward_swaps : reached (list_forward p2 two) ≡ ok (p2 ∷ p1 ∷ [])
unfolding reached list_forward list_traversal
forward_swaps = refl

backward_swaps : reached (list_backward p1 two) ≡ ok (p2 ∷ p1 ∷ [])
unfolding reached list_backward list_traversal
backward_swaps = refl

inserts_in_order :
    reached (insert_in_order (λ p. p) true 9 p3 two >>= insert_in_order (λ p. p) true 9 0xc000_1800)
    ≡ ok (p1 ∷ 0xc000_1800 ∷ p2 ∷ p3 ∷ [])
unfolding reached insert_in_order list_push_back list_insert_front list_traversal
inserts_in_order = refl

inserts_back : reached (list_insert_back p1 p3 two) ≡ ok (p1 ∷ p3 ∷ p2 ∷ [])
unfolding reached list_insert_back list_traversal
inserts_back = refl
