-- ===== src/Buddy/Alloc.antt =====
-- alloc_pages of kernel/buddy.c.
use native.Mathlib.Nat.{pow-suc}
use fizzos.Base.{
  ℕ, zero, suc, ◌+◌, ◌*◌, ◌-◌, ◌/◌, ◌^◌, ◌<◌, ◌≤◌, ◌≡◌, ◌≢◌, refl, ap, ◌∙◌, Bool, true, false, List,
  [], ◌∷◌, arith, ltb, length, contains, update, Returns, Returns-ok, Bool-cases, inl, inr, ltb→lt,
  le→leb, lt→ltb,
}
use fizzos.Bitmap.{bitmap_reverse}
use fizzos.Bitmap.Reverse.{Reversed, bitmap_reverse-Updated}
use fizzos.Buddy.{
  FreeArea, Areas, Buddy, max_order, split_down, take_group, alloc_from, alloc_pages, area_of,
  set_area,
}
use fizzos.Buddy.Total.{
  holds, listed, cover-update, groups_with, AreApart, total-update, free_pages_of, IsPool,
  update-IsPool,
}
use fizzos.Buddy.Split.{Cut, Reversed-IsArea, split_down_lem, weight_more, pow_pos}

-- What taking a group of `order` out of a pool leaves: a pool in which each page of the group is in one
-- free group less than before, and each other page in as many.
abbrev pub Taken : ℕ → ℕ → Areas → ℕ × Areas → Type 0
Taken n order a (idx, a') =
    IsPool n a'
    × (free_pages_of a' + 2 ^ order ≡ free_pages_of a)
    × (idx + 2 ^ order ≤ n)
    × ((page : ℕ) → groups_with page a' + holds page idx (2 ^ order) ≡ groups_with page a)

-- The group given was free, page by page, and is not any more; all other pages are as free as they were,
-- and still no page is in two free groups.
abbrev pub GivenOut : ℕ → ℕ → Areas → ℕ × Areas → Type 0
GivenOut n order a (idx, a') =
    Taken n order a (idx, a')
    × AreApart a'
    × ((page : ℕ)
        → idx ≤ page
        → page < idx + 2 ^ order
        → (groups_with page a ≡ 1) × (groups_with page a' ≡ 0))

Taken-GivenOut :
    (n order : ℕ) (a : Areas) (r : ℕ × Areas)
    → AreApart a
    → Taken n order a r
    → GivenOut n order a r
Taken-GivenOut n order a (idx, a') apart t = (
  t,
  λ page. omega (arith, t.3 page, apart page),
  λ page ge lt.
      let one : holds page idx (2 ^ order) ≡ 1 =
        rw (le→leb idx page ge, lt→ltb page (idx + 2 ^ order) lt) refl in
      (omega (arith, t.3 page, apart page, one), omega (arith, t.3 page, apart page, one)),
)

pow-le : (k o : ℕ) → o ≤ k → 2 ^ o ≤ 2 ^ k
pow-le zero zero h = omega arith
pow-le zero (suc o) h = absurd (omega arith)
pow-le (suc k) zero h = omega (arith, pow_pos (suc k))
pow-le (suc k) (suc o) h = omega (arith, pow-le k o (omega arith), pow-suc 2 k, pow-suc 2 o)

one_more : (x : ℕ) → 0 < x → x ≡ x - 1 + 1
one_more x h = omega arith

contains-cons : (j x : ℕ) (l : List ℕ) → contains j l ≡ true → contains j (x ∷ l) ≡ true
unfolding contains
contains-cons j x l h = ground arith

contains_first : (x : ℕ) (l : List ℕ) → contains x (x ∷ l) ≡ true
unfolding contains
contains_first x l = ground arith

take_group-Taken :
    (n o order : ℕ) (a : Areas) (l : List ℕ)
    → order ≤ o
    → o ≤ max_order
    → IsPool n a
    → (a o).pg_list ≡ l
    → 0 < length l
    → Returns (Taken n order a) (take_group o order l a)
unfolding take_group listed
take_group-Taken n o order a [] lo hi p e some_free = absurd (omega arith)
take_group-Taken n o order a (idx ∷ rest) lo hi p e some_free =
    let ar = p o hi in
    let fits : idx + 2 ^ o ≤ n = ar.inside idx (ap (contains idx) e ∙ contains_first idx rest) in
    let ((bit, bmap), run, rev) =
      Returns-ok (Reversed (a o).bmap (idx / 2 ^ (o + 1)))
        (bitmap_reverse (idx / 2 ^ (o + 1)) (a o).bmap)
        (bitmap_reverse-Updated (a o).bmap (idx / 2 ^ (o + 1)) ar.bitmap
          (ar.bits idx (omega (arith, pow_pos o)))) in
    let taken : FreeArea = record { nr_free = (a o).nr_free - 1; bmap = bmap; pg_list = rest } in
    let (a', split, (pool, kept, covers)) =
      Returns-ok (λ a'. Cut n order idx (2 ^ o) (update a o taken) a')
        (split_down (o - order) order idx (2 ^ o / 2) (update a o taken))
        (split_down_lem n (o - order) order idx (2 ^ o / 2) (2 ^ o) (update a o taken) (omega arith)
          (ap (λ (x : ℕ). 2 ^ x) (omega arith)) refl fits
          (ar.aligned idx (ap (contains idx) e ∙ contains_first idx rest))
          (update-IsPool n o a taken p (
            Reversed-IsArea n o (idx / 2 ^ (o + 1)) bit ((a o).nr_free - 1) (a o) bmap rest ar rev
              (λ j c. ar.inside j (ap (contains j) e ∙ contains-cons j idx rest c))
              (λ j c. ar.aligned j (ap (contains j) e ∙ contains-cons j idx rest c))
              (omega (arith, ar.counted, ap length e))))) in
    rw (run, split)
      (
        pool,
        omega (
          arith,
          kept,
          total-update (max_order + 1) o a taken (omega arith),
          weight_more ((a o).nr_free - 1) (2 ^ o),
          ap (λ (x : ℕ). x * 2 ^ o)
              (one_more (a o).nr_free (omega (arith, ar.counted, ap length e))),
        ),
        omega (arith, pow-le o order lo),
        λ page. omega (
          arith,
          covers page,
          cover-update page (max_order + 1) o a taken (omega arith),
          ap (listed page (2 ^ o)) e,
        ),
      )

alloc_from-Taken :
    (n k o order i : ℕ) (a : Areas)
    → order ≤ o
    → o + k ≡ max_order + 1
    → o ≤ i
    → i ≤ max_order
    → 0 < (a i).nr_free
    → IsPool n a
    → Returns (Taken n order a) (alloc_from k o order a)
unfolding alloc_from
alloc_from-Taken n zero o order i a lo all le hi some_free p = absurd (omega arith)
alloc_from-Taken n (suc k) o order i a lo all le hi some_free p =
    elim (Bool-cases (ltb 0 (a o).nr_free)) [
      | inl here ↦ rw here (
          take_group-Taken n o order a (a o).pg_list lo (omega arith) p refl
            (omega (arith, ltb→lt 0 (a o).nr_free here, (p o (omega arith)).counted)))
      | inr none_here ↦ rw none_here (
          alloc_from-Taken n k (o + 1) order i a (omega arith) (omega arith)
            (omega (arith, later none_here)) hi some_free p)
    ]
  where
    later : ltb 0 (a o).nr_free ≡ false → o ≢ i
    later none_here e = ground (arith, ap (λ (j : ℕ). (a j).nr_free) e)

-- alloc_pages of an order up to the largest, from a pool of pages below `n` in which no page is in two
-- free groups, and which has a free group of that order or a larger one, returns a group that lies in
-- the pool: each of its pages was in a free group and is in none now, each other page is in as many free
-- groups as before, still no page is in two, and there are as many free pages less as the group has.
pub alloc_pages-GivenOut :
    (n order i : ℕ) (user : Bool) (b : Buddy)
    → order ≤ i
    → i ≤ max_order
    → 0 < (area_of user b i).nr_free
    → IsPool n (area_of user b)
    → AreApart (area_of user b)
    → Returns
        (λ (pg, b'). GivenOut n order (area_of user b) (pg, area_of user b'))
        (alloc_pages user order b)
unfolding alloc_pages
alloc_pages-GivenOut n order i user b lo hi some_free p apart =
    let ((pg, a), run, taken) =
      Returns-ok (Taken n order (area_of user b))
        (alloc_from (max_order + 1 - order) order order (area_of user b))
        (alloc_from-Taken n (max_order + 1 - order) order order i (area_of user b) (omega arith)
          (omega arith) lo hi some_free p) in
    rw (run, le→leb order max_order (omega arith))
      (stored user pg a (Taken-GivenOut n order (area_of user b) (pg, a) apart taken))
  where
    stored :
        (u : Bool) (pg : ℕ) (a : Areas)
        → GivenOut n order (area_of user b) (pg, a)
        → GivenOut n order (area_of user b) (
          pg,
          area_of u (record (set_area u a b) {
            private = update b.private pg order;
            count = update b.count pg 1;
          }),
        )
    stored true pg a t = t
    stored false pg a t = t
