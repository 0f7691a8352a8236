-- ===== src/Buddy/Total.antt =====
-- The pages that the areas of kernel/buddy.c count as free, and the areas' invariant.
use fizzos.Base.{
  ℕ, zero, suc, ◌+◌, ◌*◌, ◌/◌, ◌^◌, ◌<◌, ◌≤◌, ◌≡◌, refl, true, arith, length, contains, update,
  List, [], ◌∷◌, ◌++◌, ◌&&◌, ltb, leb, if◌then◌else◌, eq-cases, inl, inr, ==_refl, ne→==_false,
}
use fizzos.Bitmap.Bits.{IsValid}
use fizzos.Buddy.{FreeArea, Areas, max_order}

abbrev pub weight : ℕ → FreeArea → ℕ
weight o area = area.nr_free * 2 ^ o

-- The pages of the free groups of the `n` smallest orders.
pub total : ℕ → Areas → ℕ
total zero a = 0
total (suc n) a = total n a + weight n (a n)

total-update_above :
    (n i : ℕ) (a : Areas) (area : FreeArea) → n ≤ i → total n (update a i area) ≡ total n a
unfolding total
total-update_above zero i a area h = refl
total-update_above (suc n) i a area h = ground (arith, total-update_above n i a area)

pub total-update :
    (n i : ℕ) (a : Areas) (area : FreeArea)
    → i < n
    → total n (update a i area) + weight i (a i) ≡ total n a + weight i area
unfolding total
total-update zero i a area h = absurd (omega arith)
total-update (suc n) i a area h = elim (eq-cases n i) [
  | inl e ↦ rw e (ground (arith, total-update_above i i a area))
  | inr ne ↦ ground (arith, total-update n i a area)
]

-- All free pages of a pool.
abbrev pub free_pages_of : Areas → ℕ
free_pages_of a = total (max_order + 1) a

-- Whether a group of so many pages has a page, and how many groups of a list have it.
abbrev pub holds : ℕ → ℕ → ℕ → ℕ
holds page start size = if leb start page && ltb page (start + size) then 1 else 0

unfoldable pub listed : ℕ → ℕ → List ℕ → ℕ
listed page size [] = 0
listed page size (i ∷ l) = holds page i size + listed page size l

pub listed-snoc :
    (page size x : ℕ) (l : List ℕ)
    → listed page size (l ++ (x ∷ [])) ≡ listed page size l + holds page x size
unfolding listed
listed-snoc page size x [] = omega arith
listed-snoc page size x (i ∷ l) = omega (arith, listed-snoc page size x l)

-- How many free groups of the `n` smallest orders have a page.
unfoldable pub cover : ℕ → ℕ → Areas → ℕ
cover page zero a = 0
cover page (suc n) a = cover page n a + listed page (2 ^ n) (a n).pg_list

cover-update_above :
    (page n i : ℕ) (a : Areas) (area : FreeArea)
    → n ≤ i
    → cover page n (update a i area) ≡ cover page n a
unfolding cover
cover-update_above page zero i a area h = refl
cover-update_above page (suc n) i a area h =
    rw
      (
        ne→==_false n i (λ e. absurd (omega (arith, e, h))),
        cover-update_above page n i a area (omega arith),
      )
      refl

pub cover-update :
    (page n i : ℕ) (a : Areas) (area : FreeArea)
    → i < n
    → cover page n (update a i area) + listed page (2 ^ i) (a i).pg_list
      ≡ cover page n a + listed page (2 ^ i) area.pg_list
unfolding cover
cover-update page zero i a area h = absurd (omega arith)
cover-update page (suc n) i a area h = elim (eq-cases n i) [
  | inl e ↦ rw (e, ==_refl i) (omega (arith, cover-update_above page i i a area (omega arith)))
  | inr ne ↦ rw (ne→==_false n i ne) (omega (arith, cover-update page n i a area (omega arith)))
]

-- How many free groups of a pool have a page.
abbrev pub groups_with : ℕ → Areas → ℕ
groups_with page a = cover page (max_order + 1) a

-- No page is in two free groups.
abbrev pub AreApart : Areas → Type 0
AreApart a = (page : ℕ) → groups_with page a ≤ 1

-- A group of `size` pages starts at a multiple of it.
abbrev pub IsAligned : ℕ → ℕ → Type 0
IsAligned size i = (q : ℕ) × (i ≡ q * size)

-- An area of a pool whose page numbers are below `n`: the bitmap has a bit for each pair of groups, the
-- number of groups is that of the list, and the groups lie in the pool, at multiples of their size.
pub record IsArea (n o : ℕ) (area : FreeArea) : Type 0 where
  pub bitmap : IsValid area.bmap
  pub bits : (i : ℕ) → i < n → i / 2 ^ (o + 1) < 8 * area.bmap.byte_size
  pub counted : area.nr_free ≡ length area.pg_list
  pub inside : (i : ℕ) → contains i area.pg_list ≡ true → i + 2 ^ o ≤ n
  pub aligned : (i : ℕ) → contains i area.pg_list ≡ true → IsAligned (2 ^ o) i

abbrev pub IsPool : ℕ → Areas → Type 0
IsPool n a = (o : ℕ) → o ≤ max_order → IsArea n o (a o)

pub update-IsPool :
    (n i : ℕ) (a : Areas) (area : FreeArea)
    → IsPool n a
    → IsArea n i area
    → IsPool n (update a i area)
update-IsPool n i a area p new o h = elim (eq-cases o i) [
  | inl e ↦ rw (e, ==_refl i) new
  | inr ne ↦ rw (ne→==_false o i ne) (p o h)
]
