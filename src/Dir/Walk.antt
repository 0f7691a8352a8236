-- ===== src/Dir/Walk.antt =====
-- parse_path of fs/dir.c walks from entry to entry along the names of a path.
use fizzos.Base.{
  ℕ, zero, suc, ◌+◌, ◌<◌, ◌≡◌, ◌≢◌, refl, Bool, true, false, List, [], ◌∷◌, ◌++◌, Option, none,
  some, ok, ◌>>=◌, Returns, Returns-bind, length, length-append, arith, ne→==_false,
}
use fizzos.Dir.{Text, slash, split_slash, SearchRes, parse_loop, parse_path}

-- A name that the search is called with for a part of a path: not empty, and without a slash.
abbrev pub NoSlash : Text → Type 0
NoSlash [] = Unit
NoSlash (c ∷ rest) = (c ≢ slash) × NoSlash rest

abbrev pub AreNames : List Text → Type 0
AreNames [] = Unit
AreNames (n ∷ ns) = (0 < length n) × NoSlash n × AreNames ns

-- The names with a slash between them, and one at the end if `trailing`.
abbrev pub path_text : Bool → Text → List Text → Text
path_text true n [] = n ++ (slash ∷ [])
path_text false n [] = n
path_text trailing n (m ∷ ms) = n ++ (slash ∷ path_text trailing m ms)

-- What is left of the path at the end.
abbrev pub left_over : Bool → Option Text
left_over true = some []
left_over false = none

split_slash-append :
    (n rest : Text) → NoSlash n → split_slash (n ++ (slash ∷ rest)) ≡ (n, some rest)
unfolding split_slash
split_slash-append [] rest h = refl
split_slash-append (c ∷ n) rest h = rw (split_slash-append n rest h.1, ne→==_false c slash h.0) refl

split_slash-NoSlash : (n : Text) → NoSlash n → split_slash n ≡ (n, none)
unfolding split_slash
split_slash-NoSlash [] h = refl
split_slash-NoSlash (c ∷ n) h = rw (split_slash-NoSlash n h.1, ne→==_false c slash h.0) refl

pub length-path_text :
    (trailing : Bool) (n : Text) (ms : List Text)
    → AreNames (n ∷ ms)
    → length ms < length (path_text trailing n ms)
length-path_text true n [] names = omega (arith, length-append n (slash ∷ []))
length-path_text false n [] names = names.0
length-path_text true n (m ∷ ms) names =
    omega
      (arith, length-append n (slash ∷ path_text true m ms), length-path_text true m ms (names.2))
length-path_text false n (m ∷ ms) names =
    omega
      (arith, length-append n (slash ∷ path_text false m ms), length-path_text false m ms (names.2))

first-path_text :
    (trailing : Bool) (c : ℕ) (n : Text) (ms : List Text)
    → path_text trailing (c ∷ n) ms ≡ c ∷ path_text trailing n ms
first-path_text true c n [] = refl
first-path_text false c n [] = refl
first-path_text true c n (m ∷ ms) = refl
first-path_text false c n (m ∷ ms) = refl

-- The search was made, and its result has the property.
abbrev pub Searched : {D : Type 0} → (SearchRes D → Type 0) → Option (SearchRes D) → Type 0
Searched P none = ⊥
Searched P (some res) = P res

module _ {D : Type 0} (search : D → Text → Option D) where
  -- The entry at the end of a list of names, if none of them is missing.
  abbrev pub walk : List Text → Option D → Option D
  walk [] r = r
  walk (n ∷ ns) none = none
  walk (n ∷ ns) (some d) = walk ns (search d n)

  -- The result of a search along names: none of them is missing and the path ends there, or no child.
  abbrev pub Reaches : Option D → Option Text → SearchRes D → Type 0
  Reaches none end res = res.child ≡ none
  Reaches (some d) end res = (res.child ≡ some d) × (res.nextdir ≡ end)

  parse_missing :
      (fuel : ℕ) (parent : D) (cur : Text) (next : Option Text)
      → 0 < fuel
      → Returns (λ res. res.child ≡ none) (parse_loop search fuel parent none cur next)
  unfolding parse_loop
  parse_missing zero parent cur next h = absurd (omega arith)
  parse_missing (suc fuel) parent cur next h = refl

  -- What a round leaves to the next one, for the names behind.
  abbrev pub rest_of : Bool → List Text → Option Text
  rest_of trailing [] = left_over trailing
  rest_of trailing (m ∷ ms) = some (path_text trailing m ms)

  next_name :
      (trailing : Bool) (n : Text) (ms : List Text)
      → NoSlash n
      → split_slash (path_text trailing n ms) ≡ (n, rest_of trailing ms)
  next_name true n [] h = split_slash-append n [] h
  next_name false n [] h = split_slash-NoSlash n h
  next_name true n (m ∷ ms) h = split_slash-append n (path_text true m ms) h
  next_name false n (m ∷ ms) h = split_slash-append n (path_text false m ms) h

  -- A path is not empty, so that a round splits it.
  pub parse_round :
      (fuel : ℕ) (parent d : D) (cur : Text) (trailing : Bool) (n : Text) (ms : List Text)
      → 0 < length n
      → NoSlash n
      → parse_loop search (suc fuel) parent (some d) cur (some (path_text trailing n ms))
        ≡ parse_loop search fuel d (search d n) n (rest_of trailing ms)
  unfolding parse_loop
  parse_round fuel parent d cur trailing [] ms pos h = absurd (omega arith)
  parse_round fuel parent d cur true (c ∷ n) [] pos h = rw (next_name true (c ∷ n) [] h) refl
  parse_round fuel parent d cur false (c ∷ n) [] pos h = rw (next_name false (c ∷ n) [] h) refl
  parse_round fuel parent d cur true (c ∷ n) (m ∷ ms) pos h =
      rw (next_name true (c ∷ n) (m ∷ ms) h) refl
  parse_round fuel parent d cur false (c ∷ n) (m ∷ ms) pos h =
      rw (next_name false (c ∷ n) (m ∷ ms) h) refl

  -- The end of the path.
  parse_stop :
      (fuel : ℕ) (d : D) (n : Text) (trailing : Bool) (r : Option D)
      → 0 < fuel
      → Returns (Reaches r (left_over trailing)) (parse_loop search fuel d r n (left_over trailing))
  unfolding parse_loop
  parse_stop zero d n trailing r h = absurd (omega arith)
  parse_stop (suc fuel) d n trailing none h = refl
  parse_stop (suc fuel) d n true (some e) h = (refl, refl)
  parse_stop (suc fuel) d n false (some e) h = (refl, refl)

  pub parse_names :
      (trailing : Bool) (n : Text) (ms : List Text) (fuel : ℕ) (parent d : D) (cur : Text)
      → AreNames (n ∷ ms)
      → length ms + 1 < fuel
      → Returns
          (Reaches (walk ms (search d n)) (left_over trailing))
          (parse_loop search fuel parent (some d) cur (some (path_text trailing n ms)))
  parse_names trailing n ms zero parent d cur names enough = absurd (omega arith)
  parse_names trailing n [] (suc zero) parent d cur names enough = absurd (omega arith)
  parse_names trailing n [] (suc (suc fuel)) parent d cur (pos, no_slash, names) enough =
      rw (parse_round (suc fuel) parent d cur trailing n [] pos no_slash)
        (parse_stop (suc fuel) d n trailing (search d n) (omega arith))
  parse_names trailing n (m ∷ ms) (suc fuel) parent d cur (pos, no_slash, names) enough =
      rw (parse_round fuel parent d cur trailing n (m ∷ ms) pos no_slash)
        (go_on (search d n) (λ e. parse_names trailing m ms fuel d e n names (omega arith)))
    where
      go_on :
          (r : Option D)
          → ((e : D)
              → Returns
                  (Reaches (walk ms (search e m)) (left_over trailing))
                  (parse_loop search fuel d (some e) n (some (path_text trailing m ms))))
          → Returns
              (Reaches (walk (m ∷ ms) r) (left_over trailing))
              (parse_loop search fuel d r n (some (path_text trailing m ms)))
      go_on none rest = parse_missing fuel d n (some (path_text trailing m ms)) (omega arith)
      go_on (some e) rest = rest e

  from_start :
      (trailing : Bool) (n : Text) (ms : List Text) (d : D)
      → AreNames (n ∷ ms)
      → Returns (Searched (Reaches (walk ms (search d n)) (left_over trailing))) (
          parse_loop search
            (length (path_text trailing n ms) + 1)
            d
            (some d)
            (path_text trailing n ms)
            (some (path_text trailing n ms))
          >>= λ res. ok (some res))
  from_start trailing n ms d names =
      Returns-bind (Reaches (walk ms (search d n)) (left_over trailing))
        (Searched (Reaches (walk ms (search d n)) (left_over trailing)))
        (parse_loop search (length (path_text trailing n ms) + 1) d (some d)
          (path_text trailing n ms) (some (path_text trailing n ms)))
        (λ res. ok (some res))
        (parse_names trailing n ms (length (path_text trailing n ms) + 1) d d
          (path_text trailing n ms) names (omega (arith, length-path_text trailing n ms names)))
        (λ res reaches. reaches)

  relative_path :
      (root cwd : D) (is_dir : D → Bool) (trailing : Bool) (n : Text) (ms : List Text)
      → AreNames (n ∷ ms)
      → Returns
          (Searched (Reaches (walk ms (search cwd n)) (left_over trailing)))
          (parse_path search root cwd is_dir none (path_text trailing n ms))
  unfolding parse_path
  relative_path root cwd is_dir trailing [] ms names = absurd (omega (arith, names.0))
  relative_path root cwd is_dir trailing (c ∷ n) ms names =
      let from_cwd = from_start trailing (c ∷ n) ms cwd names in
      rw (first-path_text trailing c n ms, ne→==_false c slash (names.1.0))
        (rw (first-path_text trailing c n ms) at from_cwd)

  -- parse_path of names with one slash between them, with or without one at the end, walks from the
  -- root, if there is one in front, or else from the current directory: it ends with the last entry and,
  -- as what is left, with the empty text behind the last slash or NULL; where an entry is missing, it
  -- ends without one.
  pub parse_path-walk :
      (root cwd : D) (is_dir : D → Bool) (trailing : Bool) (n : Text) (ms : List Text)
      → AreNames (n ∷ ms)
      → Returns
          (Searched (Reaches (walk ms (search root n)) (left_over trailing)))
          (parse_path search root cwd is_dir none (slash ∷ path_text trailing n ms))
        × Returns
            (Searched (Reaches (walk ms (search cwd n)) (left_over trailing)))
            (parse_path search root cwd is_dir none (path_text trailing n ms))
  unfolding parse_path
  parse_path-walk root cwd is_dir trailing n ms names =
      (from_start trailing n ms root names, relative_path root cwd is_dir trailing n ms names)
