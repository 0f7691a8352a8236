-- ===== src/Paging/Count.antt =====
-- How many entries name a frame, and what holds of the counts and of writable entries.
use fizzos.Base.{
  ℕ, ◌+◌, ◌<◌, ◌≤◌, ◌≡◌, ◌≢◌, ◌⊎◌, refl, sym, ap, ◌∙◌, true, Option, none, some, [], arith, ◌==◌,
  if◌then◌else◌, set, length, eq-cases, ==_refl, inl, inr, subst, total, total-set, le-total,
  two-le-total,
}
use fizzos.Paging.{Pte, Space, Machine, space_of, entry, set_entry}
use fizzos.Paging.View.{entry_inside}

abbrev pub slot_hits : ℕ → Option Pte → ℕ
slot_hits f none = 0
slot_hits f (some e) = if e.frame == f then 1 else 0

abbrev pub hits : ℕ → Space → ℕ
hits f s = total (slot_hits f) s

-- The entries of all processes that name a frame.
abbrev pub maps : ℕ → Machine → ℕ
maps f m = total (hits f) m.spaces

-- The count of a page in use says how many entries name it, and a writable page has just one.
pub record IsSound (m : Machine) : Type 0 where
  pub counted : (f : ℕ) → 0 < maps f m → m.count f ≡ maps f m
  pub exclusive :
      (p v : ℕ) (e : Pte) → entry p v m ≡ some e → e.writable ≡ true → maps e.frame m ≡ 1

-- A frame that no process uses yet.
abbrev pub IsFresh : ℕ → Machine → Type 0
IsFresh f m = maps f m ≡ 0

pub maps-set_entry :
    (m : Machine) (p v f : ℕ) (o : Option Pte)
    → p < length m.spaces
    → v < length (space_of p m)
    → maps f (set_entry p v o m) + slot_hits f (entry p v m) ≡ maps f m + slot_hits f o
maps-set_entry m p v f o hp hv = omega (
  arith,
  total-set (hits f) m.spaces p (set (space_of p m) v o) [] hp,
  total-set (slot_hits f) (space_of p m) v o none hv,
)

pub slot_self : (e : Pte) → slot_hits e.frame (some e) ≡ 1
slot_self e = rw (==_refl e.frame) refl

-- An entry is counted.
pub entry-maps : (m : Machine) (p v : ℕ) (e : Pte) → entry p v m ≡ some e → 0 < maps e.frame m
entry-maps m p v e h =
    let (hp, hv) = entry_inside m p v e h in
    omega (
      arith,
      le-total (hits e.frame) m.spaces p [] hp,
      le-total (slot_hits e.frame) (space_of p m) v none hv,
      ap (slot_hits e.frame) h,
      slot_self e,
    )

-- Two entries for a frame are both counted.
pub two_entries-maps :
    (m : Machine) (p v q w : ℕ) (e e' : Pte)
    → entry p v m ≡ some e
    → entry q w m ≡ some e'
    → e'.frame ≡ e.frame
    → (p ≢ q) ⊎ (v ≢ w)
    → 2 ≤ maps e.frame m
two_entries-maps m p v q w e e' h h' same apart = elim (eq-cases p q) [
  | inr other ↦ omega (
    arith,
    two-le-total (hits e.frame) m.spaces p q [] hp hq other,
    le-total (slot_hits e.frame) (space_of p m) v none hv,
    le-total (slot_hits e.frame) (space_of q m) w none hw,
    first,
    second,
  )
  | inl one ↦ omega (
    arith,
    two-le-total (slot_hits e.frame) (space_of p m) v w none hv
        (subst (λ (k : ℕ). w < length (space_of k m)) (sym one) hw) (pages apart one),
    le-total (hits e.frame) m.spaces p [] hp,
    first,
    subst (λ (k : ℕ). slot_hits e.frame (entry k w m) ≡ 1) (sym one) second,
  )
]
  where
    hp : p < length m.spaces
    hp = (entry_inside m p v e h).0

    hv : v < length (space_of p m)
    hv = (entry_inside m p v e h).1

    hq : q < length m.spaces
    hq = (entry_inside m q w e' h').0

    hw : w < length (space_of q m)
    hw = (entry_inside m q w e' h').1

    first : slot_hits e.frame (entry p v m) ≡ 1
    first = ap (slot_hits e.frame) h ∙ slot_self e

    second : slot_hits e.frame (entry q w m) ≡ 1
    second =
        ap (slot_hits e.frame) h' ∙ subst (λ (f : ℕ). slot_hits f (some e') ≡ 1) same (slot_self e')

    pages : (p ≢ q) ⊎ (v ≢ w) → p ≡ q → v ≢ w
    pages (inl other) one = absurd (other one)
    pages (inr other) one = other
