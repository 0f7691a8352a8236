-- ===== src/Paging/View.antt =====
-- What a process sees at its pages, and the entries behind a write to one.
use fizzos.Base.{
  ℕ, zero, suc, ◌<◌, ◌≡◌, ◌≢◌, ◌⊎◌, refl, sym, ◌∙◌, true, ◌&&◌, Option, none, some, List, [], ◌∷◌,
  arith, ◌==◌, if◌then◌else◌, get_or, set, length, get_or-set_self, get_or-set_ne, eq-cases,
  ==_refl, ne→==_false, inl, inr,
}
use fizzos.Paging.{Pte, Space, Machine, space_of, entry, set_entry}

abbrev pub byte_at : (ℕ → ℕ → ℕ) → ℕ → Option Pte → Option ℕ
byte_at mem off none = none
byte_at mem off (some e) = some (mem e.frame off)

-- The byte at a place of a page of a process, if the page is there.
abbrev pub view : Machine → ℕ → ℕ → ℕ → Option ℕ
view m p v off = byte_at m.mem off (entry p v m)

-- An entry that is there is inside of the tables.
pub entry_inside :
    (m : Machine) (p v : ℕ) (e : Pte)
    → entry p v m ≡ some e
    → (p < length m.spaces) × (v < length (space_of p m))
entry_inside m p v e h = (process m.spaces p v h, page (space_of p m) v h)
  where
    page : (s : Space) (v : ℕ) → get_or s v none ≡ some e → v < length s
    page [] v h = absurd (ground arith)
    page (o ∷ s) zero h = omega arith
    page (o ∷ s) (suc v) h = omega (arith, page s v h)

    process : (ss : List Space) (p v : ℕ) → get_or (get_or ss p []) v none ≡ some e → p < length ss
    process [] p v h = absurd (ground arith)
    process (s ∷ ss) zero v h = omega arith
    process (s ∷ ss) (suc p) v h = omega (arith, process ss p v h)

pub entry-set_entry :
    (m : Machine) (p v q w : ℕ) (o : Option Pte)
    → p < length m.spaces
    → v < length (space_of p m)
    → entry q w (set_entry p v o m) ≡ (if (q == p) && (w == v) then o else entry q w m)
entry-set_entry m p v q w o hp hv = elim (eq-cases q p) [
  | inr other ↦
      rw
        (
          ne→==_false q p other,
          get_or-set_ne m.spaces p q (set (space_of p m) v o) [] (λ e. other (sym e)),
        )
        refl
  | inl same ↦
      rw (same, ==_refl p, get_or-set_self m.spaces p (set (space_of p m) v o) [] hp)
        (elim (eq-cases w v) [
          | inr other ↦
              rw
                (
                  ne→==_false w v other,
                  get_or-set_ne (space_of p m) v w o none (λ e. other (sym e)),
                )
                refl
          | inl at ↦ rw (at, ==_refl v, get_or-set_self (space_of p m) v o none hv) refl
        ])
]

-- An entry behind the write is the new one, or another one and as it was.
pub entry_after :
    (m : Machine) (p v q w : ℕ) (o : Option Pte) (e : Pte)
    → p < length m.spaces
    → v < length (space_of p m)
    → entry q w (set_entry p v o m) ≡ some e
    → ((q ≡ p) × (w ≡ v) × (o ≡ some e)) ⊎ (((q ≢ p) ⊎ (w ≢ v)) × (entry q w m ≡ some e))
entry_after m p v q w o e hp hv h = elim (eq-cases q p) [
  | inr other ↦ inr (inl other, rw (ne→==_false q p other) at found)
  | inl same ↦ elim (eq-cases w v) [
    | inr other ↦ inr (inr other, rw (same_process same, ne→==_false w v other) at found)
    | inl at_page ↦ inl (same, at_page, rw (same_process same, same_page at_page) at found)
  ]
]
  where
    found : (if (q == p) && (w == v) then o else entry q w m) ≡ some e
    found = sym (entry-set_entry m p v q w o hp hv) ∙ h

    same_process : q ≡ p → q == p ≡ true
    same_process e = ground arith

    same_page : w ≡ v → w == v ≡ true
    same_page e = ground arith
