-- ===== src/Dlist/Represents.antt =====
-- A `struct list` of lib/kernel/list.c that holds a list of addresses, and what an operation leaves
-- alone.
use fizzos.Base.{◌≡◌, ◌≤◌, true, false, List, [], ◌∷◌, arith}
use fizzos.Dlist.{Ptr, null, kernel_base, Mem}
use fizzos.Dlist.Chain.{has, first, last, Next, Inner, Distinct, Kernel}

-- The `prev` of the first element is not constrained: list_pop_front leaves it behind.
pub record Represents (m : Mem) (xs : List Ptr) : Type 0 where
  pub head : m.head ≡ first xs null
  pub tail : m.tail ≡ last xs null
  pub nexts : Next m.elem xs null
  pub prevs : Inner m.elem xs
  pub distinct : Distinct xs
  pub kernel : Kernel xs

-- The links outside `xs`, and the interrupt flag, are as they were.
pub record SameOutside (xs : List Ptr) (m m' : Mem) : Type 0 where
  pub links : (a : Ptr) → has a xs ≡ false → m'.elem a ≡ m.elem a
  pub intr : m'.intr ≡ m.intr

pub has-Kernel : (a : Ptr) (xs : List Ptr) → Kernel xs → has a xs ≡ true → kernel_base ≤ a
has-Kernel a [] k i = absurd (ground arith)
has-Kernel a (x ∷ xs) k i = ground (arith, has-Kernel a xs)

pub last-Kernel : (x : Ptr) (xs : List Ptr) → Kernel (x ∷ xs) → kernel_base ≤ last xs x
last-Kernel x [] k = k.0
last-Kernel x (y ∷ xs) k = last-Kernel y xs k.1
