-- ===== src/Dir/Cwd.antt =====
-- sys_getcwd of fs/dir.c, and the way back from what it gives.
use mathlib.Core.Path.{ap₂}
use fizzos.Base.{
  ℕ, ◌+◌, ◌-◌, ◌<◌, ◌≤◌, ◌≡◌, refl, sym, ap, ◌∙◌, Bool, false, List, [], ◌∷◌, ◌++◌, append_assoc,
  Option, none, some, ok, fault, Returns, leb, ltb, length, length-append, arith, Bool-cases, inl,
  inr, le→leb, subst, le→ltb_false, eq-cases, ◌⊎◌,
}
use fizzos.Dir.{Text, slash, max_path_len, prepend, climb, get_path, sys_getcwd, parse_path}
use fizzos.Dir.Walk.{AreNames, path_text, walk, Reaches, Searched, parse_path-walk}

lt-or-le : (a b : ℕ) → (a < b) ⊎ (b ≤ a)
lt-or-le a b = elim (Bool-cases (ltb a b)) [
  | inl e ↦ inl (ground arith)
  | inr e ↦ inr (ground arith)
]

-- The path from the root to an entry, by the names from it up to the root.
abbrev pub text_up : List Text → Text
text_up [] = []
text_up (n ∷ up) = text_up up ++ (slash ∷ n)

abbrev pub cwd_text : List Text → Text
cwd_text [] = slash ∷ []
cwd_text (n ∷ up) = text_up (n ∷ up)

prepend-fits :
    (t text : Text) (n : ℕ)
    → length t ≤ n
    → prepend t (record { text = text; buflen = n })
      ≡ ok (record { text = t ++ text; buflen = n - length t })
unfolding prepend
prepend-fits t text n h = rw (le→leb (length t) n h) refl

prepend-full :
    (t text : Text) (n : ℕ) → n < length t → prepend t (record { text = text; buflen = n }) ≡ fault
unfolding prepend
prepend-full t text n h = rw (over (length t) h) refl
  where
    over : (m : ℕ) → n < m → leb m n ≡ false
    over m h = ground arith

length-text_up :
    (n : Text) (up : List Text) → length (text_up (n ∷ up)) ≡ length (text_up up) + 1 + length n
length-text_up n up = omega (arith, length-append (text_up up) (slash ∷ n))

climb-fits :
    (names : List Text) (text : Text) (n : ℕ)
    → length (text_up names) ≤ n
    → climb names (record { text = text; buflen = n })
      ≡ ok (record { text = text_up names ++ text; buflen = n - length (text_up names) })
unfolding climb
climb-fits [] text n h = ap (λ (k : ℕ). ok (record { text = text; buflen = k })) (omega arith)
climb-fits (fname ∷ up) text n h =
    rw
      (
        prepend-fits fname text n (omega (arith, length-text_up fname up)),
        prepend-fits (slash ∷ []) (fname ++ text) (n - length fname)
            (omega (arith, length-text_up fname up)),
        climb-fits up (slash ∷ (fname ++ text)) (n - length fname - 1)
            (omega (arith, length-text_up fname up)),
      )
      (ap₂ (λ (t : Text) (k : ℕ). ok (record { text = t; buflen = k }))
        (sym (append_assoc (text_up up) (slash ∷ fname) text))
        (omega (arith, length-text_up fname up)))

climb-full :
    (names : List Text) (text : Text) (n : ℕ)
    → n < length (text_up names)
    → climb names (record { text = text; buflen = n }) ≡ fault
unfolding climb
climb-full [] text n h = absurd (omega arith)
climb-full (fname ∷ up) text n h = elim (lt-or-le n (length fname)) [
  | inl short ↦ rw (prepend-full fname text n short) refl
  | inr fits ↦ elim (eq-cases (n - length fname) 0) [
    | inl e ↦
        rw
          (
            prepend-fits fname text n fits,
            e,
            prepend-full (slash ∷ []) (fname ++ text) 0 (omega arith),
          )
          refl
    | inr ne ↦
        rw
          (
            prepend-fits fname text n fits,
            prepend-fits (slash ∷ []) (fname ++ text) (n - length fname) (omega arith),
            climb-full up (slash ∷ (fname ++ text)) (n - length fname - 1)
                (omega (arith, length-text_up fname up)),
          )
          refl
  ]
]

get_path-fits :
    (cwd : List Text) (text : Text) (n : ℕ)
    → length (cwd_text cwd) ≤ n
    → get_path cwd (record { text = text; buflen = n })
      ≡ ok (record { text = cwd_text cwd ++ text; buflen = n - length (cwd_text cwd) })
unfolding get_path
get_path-fits [] text n h = prepend-fits (slash ∷ []) text n h
get_path-fits (fname ∷ up) text n h = climb-fits (fname ∷ up) text n h

get_path-full :
    (cwd : List Text) (text : Text) (n : ℕ)
    → n < length (cwd_text cwd)
    → get_path cwd (record { text = text; buflen = n }) ≡ fault
unfolding get_path
get_path-full [] text n h = prepend-full (slash ∷ []) text n h
get_path-full (fname ∷ up) text n h = climb-full (fname ∷ up) text n h

-- sys_getcwd copies the path and a 0, in a buffer that has room for them; a path of more than 127 bytes
-- is written in front of the kernel's buffer.
pub sys_getcwd-cwd_text :
    (cwd : List Text) (size : ℕ)
    → (length (cwd_text cwd) ≤ max_path_len
        → length (cwd_text cwd) < size
        → sys_getcwd cwd size ≡ ok (cwd_text cwd ++ (0 ∷ [])))
      × (max_path_len < length (cwd_text cwd) → sys_getcwd cwd size ≡ fault)
unfolding sys_getcwd
sys_getcwd-cwd_text cwd size = (
  λ fits room.
      rw
        (
          get_path-fits cwd (0 ∷ []) max_path_len fits,
          le→ltb_false size (max_path_len + 1 - (max_path_len - length (cwd_text cwd)))
              (omega arith),
        )
        refl,
  λ long. rw (get_path-full cwd (0 ∷ []) max_path_len long) refl,
)

-- The names from the root down, by those from an entry up.
abbrev pub root_first : List Text → Text → List Text → Text × List Text
root_first [] n down = (n, down)
root_first (m ∷ up) n down = root_first up m (n ∷ down)

root_first-text_up :
    (up : List Text) (n : Text) (down : List Text)
    → text_up up ++ (slash ∷ path_text false n down)
      ≡ slash ∷ path_text false (root_first up n down).0 (root_first up n down).1
root_first-text_up [] n down = refl
root_first-text_up (m ∷ up) n down =
    append_assoc (text_up up) (slash ∷ m) (slash ∷ path_text false n down)
    ∙ root_first-text_up up m (n ∷ down)

root_first-AreNames :
    (up : List Text) (n : Text) (down : List Text)
    → AreNames up
    → AreNames (n ∷ down)
    → AreNames ((root_first up n down).0 ∷ (root_first up n down).1)
root_first-AreNames [] n down h names = names
root_first-AreNames (m ∷ up) n down h names =
    root_first-AreNames up m (n ∷ down) (h.2) (h.0, h.1, names)

module _ {D : Type 0} (search : D → Text → Option D) (root : D) where
  -- An entry that the search leads to, along its names up to the root.
  abbrev pub IsAt : List Text → D → Type 0
  IsAt [] d = d ≡ root
  IsAt (n ∷ up) d = (p : D) × IsAt up p × (search p n ≡ some d)

  walk-IsAt :
      (up : List Text) (n : Text) (down : List Text) (p : D)
      → IsAt up p
      → walk search (root_first up n down).1 (search root (root_first up n down).0)
        ≡ walk search down (search p n)
  walk-IsAt [] n down p h = ap (λ (d : D). walk search down (search d n)) (sym h)
  walk-IsAt (m ∷ up) n down p (q, at, child) =
      walk-IsAt up m (n ∷ down) q at ∙ ap (walk search (n ∷ down)) child

  -- What sys_getcwd gives for an entry other than the root whose path fits, read by parse_path without
  -- its 0, leads back to the entry.
  pub parse_path-sys_getcwd :
      (cwd : D) (is_dir : D → Bool) (n : Text) (up : List Text) (d : D) (size : ℕ)
      → IsAt (n ∷ up) d
      → AreNames (n ∷ up)
      → length (text_up (n ∷ up)) ≤ max_path_len
      → length (text_up (n ∷ up)) < size
      → (text : Text) × (sys_getcwd (n ∷ up) size ≡ ok (text ++ (0 ∷ [])))
        × Returns
            (Searched (Reaches search (some d) none))
            (parse_path search root cwd is_dir none text)
  parse_path-sys_getcwd cwd is_dir n up d size (p, at, child) names fits room = (
    text_up (n ∷ up),
    (sys_getcwd-cwd_text (n ∷ up) size).0 fits room,
    rw (root_first-text_up up n []) (
        subst
          (λ (r : Option D). Returns (Searched (Reaches search r none)) (
            parse_path search root cwd is_dir none
              (slash ∷ path_text false (root_first up n []).0 (root_first up n []).1)))
          (walk-IsAt up n [] p at ∙ child)
          (parse_path-walk search root cwd is_dir false (root_first up n []).0
            (root_first up n []).1 (root_first-AreNames up n [] names.2 (names.0, names.1, tt))).0),
  )
