-- ===== src/Dlist/Chain.antt =====
-- What the links of lib/kernel/list.c say of a list of addresses: the chain of `next`, that of `prev`,
-- and how writes outside a chain, appending and splitting act on them.
use fizzos.Base.{
  ◌≡◌, ◌≢◌, ◌≤◌, refl, sym, ap, ◌∙◌, Bool, true, false, ◌||◌, List, [], ◌∷◌, ◌++◌, arith, ◌==◌,
  Bool-cases, inl, inr,
}
use mathlib.Core.Bool.{false≢true}
use fizzos.Dlist.{Ptr, kernel_base, Links}

abbrev pub has : Ptr → List Ptr → Bool
has a [] = false
has a (x ∷ xs) = (a == x) || has a xs

abbrev pub first : List Ptr → Ptr → Ptr
first [] q = q
first (x ∷ xs) q = x

abbrev pub last : List Ptr → Ptr → Ptr
last [] p = p
last (x ∷ xs) p = last xs x

-- Each element's `next` is the element after it, the last one's `q`.
abbrev pub Next : Links → List Ptr → Ptr → Type 0
Next h [] q = Unit
Next h (x ∷ xs) q = ((h x).next ≡ first xs q) × Next h xs q

-- Each element's `prev` is the element before it, the first one's `p`.
abbrev pub Prev : Links → Ptr → List Ptr → Type 0
Prev h p [] = Unit
Prev h p (x ∷ xs) = ((h x).prev ≡ p) × Prev h x xs

-- The same with nothing said of the first element's `prev`.
abbrev pub Inner : Links → List Ptr → Type 0
Inner h [] = Unit
Inner h (x ∷ xs) = Prev h x xs

abbrev pub Distinct : List Ptr → Type 0
Distinct [] = Unit
Distinct (x ∷ xs) = (has x xs ≡ false) × Distinct xs

-- Every element is an address of the kernel's part of memory, so not NULL.
abbrev pub Kernel : List Ptr → Type 0
Kernel [] = Unit
Kernel (x ∷ xs) = (kernel_base ≤ x) × Kernel xs

pub has-append : (a : Ptr) (xs ys : List Ptr) → has a (xs ++ ys) ≡ (has a xs || has a ys)
has-append a [] ys = refl
has-append a (x ∷ xs) ys = ground (arith, has-append a xs ys)

pub first-append : (xs ys : List Ptr) (q : Ptr) → first (xs ++ ys) q ≡ first xs (first ys q)
first-append [] ys q = refl
first-append (x ∷ xs) ys q = refl

pub last-append : (xs ys : List Ptr) (p : Ptr) → last (xs ++ ys) p ≡ last ys (last xs p)
last-append [] ys p = refl
last-append (x ∷ xs) ys p = last-append xs ys x

pub has-last : (x : Ptr) (xs : List Ptr) → has (last xs x) (x ∷ xs) ≡ true
has-last x [] = ground arith
has-last x (y ∷ xs) = ground (arith, has-last y xs)

pub Next-frame :
    (h g : Links) (xs : List Ptr) (q : Ptr)
    → Next h xs q
    → ((a : Ptr) → has a xs ≡ true → (g a).next ≡ (h a).next)
    → Next g xs q
Next-frame h g [] q n same = tt
Next-frame h g (x ∷ xs) q n same =
    (ground (arith, same x), Next-frame h g xs q n.1 (λ a i. same a (ground arith)))

pub Prev-frame :
    (h g : Links) (p : Ptr) (xs : List Ptr)
    → Prev h p xs
    → ((a : Ptr) → has a xs ≡ true → (g a).prev ≡ (h a).prev)
    → Prev g p xs
Prev-frame h g p [] n same = tt
Prev-frame h g p (x ∷ xs) n same =
    (ground (arith, same x), Prev-frame h g x xs n.1 (λ a i. same a (ground arith)))

pub Next-append :
    (h : Links) (xs ys : List Ptr) (q : Ptr)
    → Next h xs (first ys q)
    → Next h ys q
    → Next h (xs ++ ys) q
Next-append h [] ys q n m = m
Next-append h (x ∷ xs) ys q n m =
    (ground (arith, first-append xs ys q), Next-append h xs ys q n.1 m)

pub Next-split :
    (h : Links) (xs ys : List Ptr) (q : Ptr)
    → Next h (xs ++ ys) q
    → Next h xs (first ys q) × Next h ys q
Next-split h [] ys q n = (tt, n)
Next-split h (x ∷ xs) ys q n =
    let (m, k) = Next-split h xs ys q n.1 in ((ground (arith, first-append xs ys q), m), k)

pub Prev-append :
    (h : Links) (p : Ptr) (xs ys : List Ptr)
    → Prev h p xs
    → Prev h (last xs p) ys
    → Prev h p (xs ++ ys)
Prev-append h p [] ys n m = m
Prev-append h p (x ∷ xs) ys n m = (n.0, Prev-append h x xs ys n.1 m)

pub Prev-split :
    (h : Links) (p : Ptr) (xs ys : List Ptr)
    → Prev h p (xs ++ ys)
    → Prev h p xs × Prev h (last xs p) ys
Prev-split h p [] ys n = (tt, n)
Prev-split h p (x ∷ xs) ys n = let (m, k) = Prev-split h x xs ys n.1 in ((n.0, m), k)

-- Only the last element's `next` has changed: the chain now ends at `r`.
pub Next-retarget :
    (h g : Links) (x : Ptr) (xs : List Ptr) (q r : Ptr)
    → Distinct (x ∷ xs)
    → Next h (x ∷ xs) q
    → ((a : Ptr) → has a (x ∷ xs) ≡ true → a ≢ last xs x → (g a).next ≡ (h a).next)
    → (g (last xs x)).next ≡ r
    → Next g (x ∷ xs) r
Next-retarget h g x [] q r d n same e = (e, tt)
Next-retarget h g x (y ∷ xs) q r d n same e = (
  ground (arith, same x, has-last y xs),
  Next-retarget h g y xs q r d.1 n.1 (λ a i. same a (ground arith)) e,
)

pub ne_of_has : (a b : Ptr) (xs : List Ptr) → has a xs ≡ true → has b xs ≡ false → a ≢ b
ne_of_has a b xs i o e = false≢true (sym o ∙ ap (λ c. has c xs) (sym e) ∙ i)

pub ne_of_not_has : (a x : Ptr) (xs : List Ptr) → has a (x ∷ xs) ≡ false → a ≢ x
ne_of_not_has a x xs o = ground arith

-- Where an element stands in a list.
pub has-split :
    (a : Ptr) (xs : List Ptr)
    → has a xs ≡ true
    → (us : List Ptr) × (vs : List Ptr) × (xs ≡ us ++ (a ∷ vs))
has-split a [] i = absurd (ground arith)
has-split a (x ∷ xs) i = elim (Bool-cases (a == x)) [
  | inl here ↦ ([], xs, ap (λ y. y ∷ xs) (ground arith))
  | inr there ↦ let (us, vs, e) = has-split a xs (ground arith) in (x ∷ us, vs, ap (λ l. x ∷ l) e)
]
