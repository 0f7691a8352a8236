-- ===== src/Dentry/Names.antt =====
-- When an entry on disk has a name, and where the search of a sector finds it.
use fizzos.Base.{
  ℕ, zero, suc, ◌+◌, ◌<◌, ◌≤◌, ◌≡◌, ◌≢◌, inl, inr, refl, sym, ap, ◌∙◌, Bool, true, false, ◌&&◌, not,
  Option, none, some, arith, ◌==◌, ltb, if◌then◌else◌, update, eq-cases, ne→==_false, ==_refl,
  Bool-cases, lt→ltb,
}
use fizzos.Dentry.{
  DentryDisk, NameBytes, file_type, bytes_of, same_name, entry_matches, find_entry, first_free,
  named,
}

-- A text of `len` bytes with a 0 behind it.
pub record IsName (fname : NameBytes) (len : ℕ) : Type 0 where
  pub bytes : (k : ℕ) → k < len → fname k ≢ 0
  pub stop : fname len ≡ 0

same_name-true :
    (k n : ℕ) (f g : NameBytes)
    → ((i : ℕ) → k ≤ i → i < k + n → (f i ≡ g i) × (g i ≢ 0))
    → f (k + n) ≡ g (k + n)
    → same_name k n f g ≡ true
unfolding same_name
same_name-true k zero f g same last =
    rw (ap f (sym same_place) ∙ last ∙ ap g same_place) (==_refl (g k))
  where
    same_place : k + zero ≡ k
    same_place = omega arith
same_name-true k (suc n) f g same last =
    let (e, ne) = same k (omega arith) (omega arith) in
    rw (e, ne→==_false (g k) 0 ne, ==_refl (g k))
      (same_name-true (k + 1) n f g (λ i ge lt. same i (omega arith) (omega arith))
        (ap f (omega arith) ∙ last ∙ ap g (omega arith)))

same_name-false :
    (k n : ℕ) (f g : NameBytes)
    → ((i : ℕ) → k ≤ i → i < k + n → g i ≢ 0)
    → f (k + n) ≢ g (k + n)
    → same_name k n f g ≡ false
unfolding same_name
same_name-false k zero f g bytes last =
    ne→==_false (f k) (g k) (λ e. last (ap f (omega arith) ∙ e ∙ ap g (omega arith)))
same_name-false k (suc n) f g bytes last = elim (eq-cases (f k) (g k)) [
  | inr ne ↦ rw (ne→==_false (f k) (g k) ne) (either (not (f k == 0) && not (g k == 0)) _)
  | inl e ↦
      rw (e, ne→==_false (g k) 0 (bytes k (omega arith) (omega arith)), ==_refl (g k))
        (same_name-false (k + 1) n f g (λ i ge lt. bytes i (omega arith) (omega arith))
          (λ same. last (ap f (omega arith) ∙ same ∙ ap g (omega arith))))
]
  where
    either : (b r : Bool) → (if b && false then r else false) ≡ false
    either true r = refl
    either false r = refl

-- The entry that is written has the name, if the name is short and what it is written over has a 0 there.
pub named-matches :
    (fname : NameBytes) (len mode i_no : ℕ) (old : DentryDisk)
    → IsName fname len
    → len < 24
    → file_type mode ≢ 0
    → old.fname len ≡ 0
    → entry_matches fname len (named fname len mode i_no old) ≡ true
unfolding entry_matches
named-matches fname len mode i_no old name short known blank =
    rw (ne→==_false (file_type mode) 0 known, ==_refl len)
      (same_name-true 0 len (bytes_of new) fname
        (λ i ge lt. (here i (omega arith), name.bytes i (omega arith)))
        (ap (bytes_of new) same_place ∙ behind ∙ sym (ap fname same_place)))
  where
    new : DentryDisk
    new = named fname len mode i_no old

    same_place : 0 + len ≡ len
    same_place = omega arith

    here : (i : ℕ) → i < len → bytes_of new i ≡ fname i
    here i lt = rw (lt→ltb i 24 (omega arith), lt→ltb i len lt) refl

    behind : bytes_of new len ≡ fname len
    behind = rw (lt→ltb len 24 short, not_below) (blank ∙ sym name.stop)
      where
        not_below : ltb len len ≡ false
        not_below = ground arith

-- No entry has a name of 24 bytes: the byte behind it is that of the length.
pub long_name-matches :
    (fname : NameBytes) (d : DentryDisk) → IsName fname 24 → entry_matches fname 24 d ≡ false
unfolding entry_matches
long_name-matches fname d name = elim (eq-cases d.fname_len 24) [
  | inr ne ↦ rw (ne→==_false d.fname_len 24 ne) (none_of (not (file_type d.i_mode == 0)))
  | inl e ↦
      rw
        (same_name-false 0 24 (bytes_of d) fname (λ i ge lt. name.bytes i (omega arith))
          (λ same. absurd (omega (arith, same, e, name.stop))))
        (both_false (not (file_type d.i_mode == 0)) (d.fname_len == 24))
]
  where
    none_of : (b : Bool) → (b && false && same_name 0 24 (bytes_of d) fname) ≡ false
    none_of true = refl
    none_of false = refl

    both_false : (b c : Bool) → (b && c && false) ≡ false
    both_false true true = refl
    both_false true false = refl
    both_false false c = refl

-- The first free entry is not before the place where the search begins.
first_free-le : (n j i : ℕ) (f : ℕ → DentryDisk) → first_free n j f ≡ some i → j ≤ i
unfolding first_free
first_free-le zero j i f e = absurd (ground arith)
first_free-le (suc n) j i f e = elim (Bool-cases (file_type (f j).i_mode == 0)) [
  | inl free ↦ ground (arith, (rw free at e))
  | inr used ↦ omega (arith, first_free-le n (j + 1) i f (rw used at e))
]

-- The entry is put at the first free place of a sector without its name: it is found there.
pub find_entry-put :
    (dname : NameBytes) (len n j i : ℕ) (f : ℕ → DentryDisk) (new : DentryDisk)
    → find_entry dname len n j f ≡ none
    → first_free n j f ≡ some i
    → entry_matches dname len new ≡ true
    → find_entry dname len n j (update f i new) ≡ some new
unfolding find_entry first_free
find_entry-put dname len zero j i f new no_match free matches = absurd (ground arith)
find_entry-put dname len (suc n) j i f new no_match free matches =
    elim (Bool-cases (entry_matches dname len (f j))) [
      | inl is ↦ absurd (ground (arith, (rw is at no_match)))
      | inr other ↦ elim (Bool-cases (file_type (f j).i_mode == 0)) [
        | inl free_here ↦
            let at : j ≡ i = some_inj (rw free_here at free) in rw (at, ==_refl i, matches) refl
        | inr used ↦
            let later = first_free-le n (j + 1) i f (rw used at free) in
            rw (ne→==_false j i (λ e. absurd (omega (arith, e, later))), other)
              (find_entry-put dname len n (j + 1) i f new (rw other at no_match) (rw used at free)
                matches)
      ]
    ]
  where
    some_inj : some j ≡ some i → j ≡ i
    some_inj e = ap (λ (o : Option ℕ). elim o [ none ↦ 0 | some k ↦ k ]) e
