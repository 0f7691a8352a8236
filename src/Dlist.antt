-- ===== src/Dlist.antt =====
-- lib/kernel/list.c: doubly linked lists whose links stand inside other structures. An address maps
-- to the two links that it holds; `Mem` has one `struct list`, the links of all elements, and the
-- interrupt flag. Reading or writing a link through NULL is a fault.
pub mod Chain
pub mod Represents
pub mod Push
pub mod Run
pub mod Find
pub mod Pop
pub mod Distinct
pub mod Delete
pub mod Bypass
pub mod Removal
pub mod Stale
mod Tests
use fizzos.Base.{
  ℕ, zero, suc, Bool, true, false, not, ◌&&◌, List, [], ◌∷◌, Outcome, ok, panic, fault, out_of_fuel,
  ◌>>=◌, ◌>>◌, assert, ◌==◌, leb, if◌then◌else◌,
}
use fizzos.Interrupt.{intr_disable, intr_set_status}

abbrev pub Ptr : Type 0
Ptr = ℕ

abbrev pub null : Ptr
null = 0

abbrev pub kernel_base : Ptr
kernel_base = 0xc000_0000

pub record ListElem : Type 0 where
  pub prev : Ptr
  pub next : Ptr

abbrev pub Links : Type 0
Links = Ptr → ListElem

pub record Mem : Type 0 where
  pub head : Ptr
  pub tail : Ptr
  pub elem : Links
  pub intr : Bool

abbrev pub write : Links → Ptr → ListElem → Links
write h p c a = if a == p then c else h a

abbrev pub get_next : Ptr → Mem → Outcome Ptr
get_next p m = if p == null then fault else ok (m.elem p).next

abbrev pub get_prev : Ptr → Mem → Outcome Ptr
get_prev p m = if p == null then fault else ok (m.elem p).prev

abbrev pub set_next : Ptr → Ptr → Mem → Outcome Mem
set_next p q m =
    if p == null
    then fault
    else ok (record m { elem = write m.elem p (record { prev = (m.elem p).prev; next = q }) })

abbrev pub set_prev : Ptr → Ptr → Mem → Outcome Mem
set_prev p q m =
    if p == null
    then fault
    else ok (record m { elem = write m.elem p (record { prev = q; next = (m.elem p).next }) })

-- A critical section: interrupts go off, and the status from before comes back at its end.
abbrev pub with_intr_off : (Mem → Outcome Mem) → Mem → Outcome Mem
with_intr_off body m = do
  let (old_status, flag) = intr_disable m.intr
  m' ← body (record m { intr = flag })
  ok (record m' { intr = (intr_set_status old_status m'.intr).1 })

pub list_init : Mem → Mem
list_init m = record m { head = null; tail = null }

pub list_empty : Mem → Bool
list_empty m = m.head == null

insert_back_body : Ptr → Ptr → Mem → Outcome Mem
insert_back_body before_elem elem m = do
  after ← get_next before_elem m
  m ← set_next elem after m
  m ← set_prev elem before_elem m
  m ← set_next before_elem elem m
  following ← get_next elem m
  if following == null
      then assert (m.tail == before_elem) >> ok (record m { tail = elem })
      else set_prev following elem m

pub list_insert_back : Ptr → Ptr → Mem → Outcome Mem
unfolding insert_back_body
list_insert_back before_elem elem m =
    assert (not (before_elem == null)) >> with_intr_off (insert_back_body before_elem elem) m

insert_front_body : Ptr → Ptr → Mem → Outcome Mem
insert_front_body back_elem elem m = do
  before ← get_prev back_elem m
  m ← set_prev elem before m
  m ← set_next elem back_elem m
  m ← set_prev back_elem elem m
  preceding ← get_prev elem m
  if preceding == null
      then assert (m.head == back_elem) >> ok (record m { head = elem })
      else set_next preceding elem m

pub list_insert_front : Ptr → Ptr → Mem → Outcome Mem
unfolding insert_front_body
list_insert_front back_elem elem m =
    assert (not (back_elem == null)) >> with_intr_off (insert_front_body back_elem elem) m

push_back_body : Ptr → Mem → Outcome Mem
push_back_body elem m = do
  m ←
      (if m.tail == null
        then (do
          assert (m.head == null)
          m ← set_prev elem null (record m { head = elem; tail = elem })
          set_next elem null m)
        else (do
          m ← set_next m.tail elem m
          m ← set_prev elem m.tail m
          m ← set_next elem null m
          ok (record m { tail = elem })))
  assert (leb kernel_base m.tail && leb kernel_base m.head)
  ok m

pub list_push_back : Ptr → Mem → Outcome Mem
unfolding push_back_body
list_push_back elem m = assert (not (elem == null)) >> with_intr_off (push_back_body elem) m

push_front_body : Ptr → Mem → Outcome Mem
push_front_body elem m =
    if m.head == null && m.tail == null
    then (do m ← set_prev elem null (record m { head = elem; tail = elem }); set_next elem null m)
    else (do
      m ← set_prev elem null m
      m ← set_next elem m.head m
      m ← set_prev m.head elem m
      ok (record m { head = elem }))

-- `ASSERT(list && elem)`: the list itself is always there.
pub list_push_front : Ptr → Mem → Outcome Mem
unfolding push_front_body
list_push_front elem m = assert (not (elem == null)) >> with_intr_off (push_front_body elem) m

pop_back_body : Mem → Outcome Mem
pop_back_body m = do
  assert (not (m.tail == null))
  if m.tail == m.head
      then ok (record m { head = null; tail = null })
      else (do last ← get_prev m.tail m; ok (record m { tail = last }))

-- Returns the element, and the memory.
pub list_pop_back : Mem → Outcome (Ptr × Mem)
unfolding pop_back_body
list_pop_back m = do m' ← with_intr_off pop_back_body m; ok (m.tail, m')

pub list_front : Mem → Outcome Ptr
list_front m = if m.head == null then panic else if m.tail == null then panic else ok m.head

pub list_back : Mem → Outcome Ptr
list_back m = if m.head == null then panic else if m.tail == null then panic else ok m.tail

pop_front_body : Mem → Outcome Mem
pop_front_body m =
    if m.head == null
    then assert (m.tail == null) >> ok m
    else if m.head == m.tail
    then ok (record m { head = null; tail = null })
    else (do second ← get_next m.head m; set_next m.head null (record m { head = second }))

links_in_kernel : Mem → Bool
links_in_kernel m =
    if m.tail == null && m.head == null
    then true
    else leb kernel_base m.tail && leb kernel_base m.head

-- NULL is returned for an empty list. The last assertion reads the list after interrupts are back.
pub list_pop_front : Mem → Outcome (Ptr × Mem)
unfolding pop_front_body links_in_kernel
list_pop_front m = do
  m' ← with_intr_off pop_front_body m
  if m.head == null then ok (null, m') else (do assert (links_in_kernel m'); ok (m.head, m'))

-- The walk from `e`; each round reads one `next`.
find_from : ℕ → Ptr → Ptr → Mem → Outcome Bool
find_from zero e elem m = out_of_fuel
find_from (suc k) e elem m =
    let rest = find_from k (m.elem e).next elem m in
    if e == null then ok false else if e == elem then ok true else rest

pub list_find : ℕ → Ptr → Mem → Outcome Bool
unfolding find_from
list_find fuel elem m = find_from fuel m.head elem m

pub unlink : Ptr → Mem → Outcome Mem
unlink elem m =
    if m.head == m.tail
    then assert (m.head == elem) >> ok (record m { head = null; tail = null })
    else if m.head == elem
    then (do second ← get_next elem m; set_prev second null (record m { head = second }))
    else if m.tail == elem
    then (do before ← get_prev elem m; set_next before null (record m { tail = before }))
    else (do
      before ← get_prev elem m
      after ← get_next elem m
      m ← set_next before after m
      m ← set_prev after before m
      m ← set_prev elem null m
      set_next elem null m)

delete_body : ℕ → Ptr → Mem → Outcome Mem
delete_body fuel elem m = do found ← list_find fuel elem m; assert found; unlink elem m

pub list_delete : ℕ → Ptr → Mem → Outcome Mem
unfolding unlink delete_body
list_delete fuel elem = with_intr_off (delete_body fuel elem)

forward_body : Ptr → Mem → Outcome Mem
forward_body elem m = do
  elem_prev ← get_prev elem m
  assert (
      not (m.head == null)
      && not (m.tail == null)
      && not (m.head == elem)
      && not (elem_prev == null))
  m ←
      (if m.tail == elem
        then ok (record m { tail = elem_prev })
        else (do after ← get_next elem m; set_prev after elem_prev m))
  m ←
      (if m.head == elem_prev
        then ok (record m { head = elem })
        else (do before ← get_prev elem_prev m; set_next before elem m))
  before ← get_prev elem_prev m
  m ← set_prev elem before m
  after ← get_next elem m
  m ← set_next elem_prev after m
  m ← set_next elem elem_prev m
  set_prev elem_prev elem m

-- Moves the element one place towards the head.
pub list_forward : Ptr → Mem → Outcome Mem
unfolding forward_body
list_forward elem = with_intr_off (forward_body elem)

backward_body : Ptr → Mem → Outcome Mem
backward_body elem m = do
  elem_next ← get_next elem m
  assert (
      not (m.head == null)
      && not (m.tail == null)
      && not (m.tail == elem)
      && not (elem_next == null))
  m ←
      (if m.tail == elem_next
        then ok (record m { tail = elem })
        else (do after ← get_next elem_next m; set_prev after elem m))
  m ←
      (if m.head == elem
        then ok (record m { head = elem_next })
        else (do before ← get_prev elem m; set_next before elem_next m))
  before ← get_prev elem m
  m ← set_prev elem_next before m
  after ← get_next elem_next m
  m ← set_next elem after m
  m ← set_next elem_next elem m
  set_prev elem elem_next m

-- Moves the element one place towards the tail.
pub list_backward : Ptr → Mem → Outcome Mem
unfolding backward_body
list_backward elem = with_intr_off (backward_body elem)

-- The elements that `f` was called on, in order: the walk stops after the first for which it
-- returns true. What `f` does to its argument is the caller's.
pub list_traversal : ℕ → (Ptr → Bool) → Ptr → Mem → Outcome (List Ptr)
list_traversal zero f head m = out_of_fuel
list_traversal (suc k) f head m =
    let rest = list_traversal k f (m.elem head).next m in
    if head == null
    then ok []
    else if f head
    then ok (head ∷ [])
    else (do visited ← rest; ok (head ∷ visited))

-- The first element from `head` on before which `elem` goes. `value` reads the 32-bit word at the
-- offset behind an element; `ascending` is the parameter `flag`.
order_scan : (Ptr → ℕ) → Bool → ℕ → Ptr → Ptr → Mem → Outcome Ptr
order_scan value ascending zero head elem m = out_of_fuel
order_scan value ascending (suc k) head elem m =
    let rest = order_scan value ascending k (m.elem head).next elem m in
    let passes =
      if ascending then leb (value head) (value elem) else leb (value elem) (value head) in
    if head == null then ok head else if passes then rest else ok head

pub insert_in_order : (Ptr → ℕ) → Bool → ℕ → Ptr → Mem → Outcome Mem
unfolding order_scan
insert_in_order value ascending fuel elem = with_intr_off (λ m. do
  place ← order_scan value ascending fuel m.head elem m
  if place == null then list_push_back elem m else list_insert_front place elem m)
