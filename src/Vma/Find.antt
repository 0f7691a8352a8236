-- ===== src/Vma/Find.antt =====
-- The searches of kernel/vma.c among areas in order.
use fizzos.Base.{
  ℕ, ◌<◌, ◌≤◌, ◌≡◌, refl, arith, Option, none, some, List, [], ◌∷◌, ltb, leb, Bool-cases, inl, inr,
  ◌⊎◌, ltb→lt,
}
use fizzos.Vma.{VmArea, find_vma, find_inter_section}

-- Every area satisfies `P`.
abbrev pub All : (VmArea → Type 0) → List VmArea → Type 0
All P [] = Unit
All P (vma ∷ rest) = P vma × All P rest

-- Each area is not empty, and those behind it begin at its end or later.
abbrev pub IsSorted : List VmArea → Type 0
IsSorted [] = Unit
IsSorted (vma ∷ rest) =
    (vma.vm_start < vma.vm_end) × All (λ v. vma.vm_end ≤ v.vm_start) rest × IsSorted rest

-- The area is one of them.
abbrev pub IsOneOf : VmArea → List VmArea → Type 0
IsOneOf v [] = 1 ≤ 0
IsOneOf v (vma ∷ rest) = (vma ≡ v) ⊎ IsOneOf v rest

-- What the search for an area that meets a range has to find.
abbrev pub Meets : ℕ → ℕ → List VmArea → Option VmArea → Type 0
Meets lo hi areas none = All (λ v. (v.vm_end ≤ lo) ⊎ (hi ≤ v.vm_start)) areas
Meets lo hi areas (some v) = IsOneOf v areas × (v.vm_start < hi) × (lo < v.vm_end)

All-mono :
    (P Q : VmArea → Type 0) (areas : List VmArea)
    → ((v : VmArea) → P v → Q v)
    → All P areas
    → All Q areas
All-mono P Q [] f h = tt
All-mono P Q (v ∷ areas) f h = (f v h.0, All-mono P Q areas f h.1)

Meets-cons :
    (lo hi : ℕ) (vma : VmArea) (rest : List VmArea) (r : Option VmArea)
    → vma.vm_end ≤ lo
    → Meets lo hi rest r
    → Meets lo hi (vma ∷ rest) r
Meets-cons lo hi vma rest none h m = (inl h, m)
Meets-cons lo hi vma rest (some v) h m = (inr m.0, m.1, m.2)

-- find_inter_section, among areas in order that do not overlap, returns one of the areas, which meets
-- the range, or no area meets it.
pub find_inter_section-Meets :
    (areas : List VmArea) (lo hi : ℕ)
    → IsSorted areas
    → Meets lo hi areas (find_inter_section areas lo hi)
unfolding find_inter_section find_vma
find_inter_section-Meets [] lo hi s = tt
find_inter_section-Meets (vma ∷ rest) lo hi s = elim (Bool-cases (ltb lo vma.vm_end)) [
  | inr past ↦ rw past (
      Meets-cons lo hi vma rest (find_inter_section rest lo hi) (ground arith)
        (find_inter_section-Meets rest lo hi s.2))
  | inl ends_in ↦ elim (Bool-cases (leb hi vma.vm_start)) [
    | inr meets ↦ rw (ends_in, meets) (inl refl, ground arith, ltb→lt lo vma.vm_end ends_in)
    | inl behind ↦ rw (ends_in, behind) (inr (ground arith), later (ground arith))
  ]
]
  where
    later : hi ≤ vma.vm_start → All (λ v. (v.vm_end ≤ lo) ⊎ (hi ≤ v.vm_start)) rest
    later h =
        All-mono (λ v. vma.vm_end ≤ v.vm_start) (λ v. (v.vm_end ≤ lo) ⊎ (hi ≤ v.vm_start)) rest
          (λ v e. inr (omega (arith, s.0))) s.1
