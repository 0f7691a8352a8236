-- ===== src/Dir/Open.antt =====
-- filp_openat of fs/file.c on absolute paths.
use fizzos.Base.{
  ℕ, zero, suc, ◌+◌, ◌<◌, ◌≡◌, refl, Bool, true, false, not, ◌&&◌, List, [], ◌∷◌, Option, none,
  some, Outcome, ok, panic, Returns, Returns-ok, Returns-bind, if◌then◌else◌, length, arith,
}
use fizzos.Dir.{
  Text, slash, SearchRes, Opening, creates, enoent, found, parse_loop, parse_path, open_case,
  filp_openat,
}
use fizzos.Dir.Walk.{AreNames, path_text, left_over, Searched, parse_round, length-path_text}

module _ {D : Type 0} (search : D → Text → Option D) where
  -- What opening has to do with the last name of a path, in the directory that the names before lead to.
  abbrev pub at_last : Bool → Bool → D → Text → Option D → Outcome (Opening D)
  at_last trailing creat d n (some e) = if trailing then panic else ok (found e)
  at_last trailing creat d n none = if creat && not trailing then ok (creates d n) else ok enoent

  -- What it has to do with the names from a directory on.
  abbrev pub opening : Bool → Bool → D → Text → List Text → Outcome (Opening D)
  opening trailing creat d n [] = at_last trailing creat d n (search d n)
  opening trailing creat d n (m ∷ ms) = elim (search d n) [
    | none ↦ ok enoent
    | some e ↦ opening trailing creat e m ms
  ]

  -- The result of a search, opened.
  abbrev OpensAs : Bool → Outcome (Opening D) → SearchRes D → Type 0
  OpensAs creat o res = open_case search creat res.child res ≡ o

  last_round :
      (trailing creat : Bool) (fuel : ℕ) (d : D) (n : Text) (r : Option D)
      → 0 < fuel
      → Returns
          (OpensAs creat (at_last trailing creat d n r))
          (parse_loop search fuel d r n (left_over trailing))
  unfolding parse_loop open_case
  last_round trailing creat zero d n r h = absurd (omega arith)
  last_round true creat (suc fuel) d n (some e) h = refl
  last_round false creat (suc fuel) d n (some e) h = refl
  last_round true true (suc fuel) d n none h = refl
  last_round true false (suc fuel) d n none h = refl
  last_round false true (suc fuel) d n none h = refl
  last_round false false (suc fuel) d n none h = refl

  no_directory :
      (creat : Bool) (fuel : ℕ) (d : D) (cur next : Text)
      → 0 < fuel
      → Returns (OpensAs creat (ok enoent)) (parse_loop search fuel d none cur (some next))
  unfolding parse_loop open_case
  no_directory creat zero d cur next h = absurd (omega arith)
  no_directory creat (suc fuel) d cur next h = refl

  parse_opening :
      (trailing creat : Bool) (n : Text) (ms : List Text) (fuel : ℕ) (parent d : D) (cur : Text)
      → AreNames (n ∷ ms)
      → length ms + 1 < fuel
      → Returns
          (OpensAs creat (opening trailing creat d n ms))
          (parse_loop search fuel parent (some d) cur (some (path_text trailing n ms)))
  parse_opening trailing creat n ms zero parent d cur names enough = absurd (omega arith)
  parse_opening trailing creat n [] (suc zero) parent d cur names enough = absurd (omega arith)
  parse_opening trailing creat n [] (suc (suc fuel)) parent d cur (pos, no_slash, names) enough =
      rw (parse_round search (suc fuel) parent d cur trailing n [] pos no_slash)
        (last_round trailing creat (suc fuel) d n (search d n) (omega arith))
  parse_opening trailing creat n (m ∷ ms) (suc zero) parent d cur names enough =
      absurd (omega arith)
  parse_opening trailing creat n (m ∷ ms) (suc (suc fuel)) parent d cur (pos, no_slash, names)
        enough =
      rw (parse_round search (suc fuel) parent d cur trailing n (m ∷ ms) pos no_slash) (
        go_on (search d n)
          (λ e. parse_opening trailing creat m ms (suc fuel) d e n names (omega arith)))
    where
      go_on :
          (r : Option D)
          → ((e : D)
              → Returns
                  (OpensAs creat (opening trailing creat e m ms))
                  (parse_loop search (suc fuel) d (some e) n (some (path_text trailing m ms))))
          → Returns
              (OpensAs creat (elim r [ none ↦ ok enoent | some e ↦ opening trailing creat e m ms ]))
              (parse_loop search (suc fuel) d r n (some (path_text trailing m ms)))
      go_on none rest = no_directory creat (suc fuel) d n (path_text trailing m ms) (omega arith)
      go_on (some e) rest = rest e

  -- Nothing is left behind the slash, which is not NULL.
  open_root :
      (root cwd : D) (is_dir : D → Bool) (creat : Bool)
      → filp_openat search root cwd is_dir none (slash ∷ []) creat ≡ panic
  unfolding filp_openat parse_path parse_loop open_case
  open_root root cwd is_dir creat = refl

  from_root :
      (trailing creat : Bool) (n : Text) (ms : List Text) (root cwd : D) (is_dir : D → Bool)
      → AreNames (n ∷ ms)
      → Returns
          (Searched (OpensAs creat (opening trailing creat root n ms)))
          (parse_path search root cwd is_dir none (slash ∷ path_text trailing n ms))
  unfolding parse_path
  from_root trailing creat n ms root cwd is_dir names =
      Returns-bind (OpensAs creat (opening trailing creat root n ms))
        (Searched (OpensAs creat (opening trailing creat root n ms)))
        (parse_loop search (length (path_text trailing n ms) + 1) root (some root)
          (path_text trailing n ms) (some (path_text trailing n ms)))
        (λ res. ok (some res))
        (parse_opening trailing creat n ms (length (path_text trailing n ms) + 1) root root
          (path_text trailing n ms) names (omega (arith, length-path_text trailing n ms names)))
        (λ res opens. opens)

  -- filp_openat of an absolute path, of names with one slash between them: where a directory on the way
  -- is missing there is no entry; where only the last name is missing, a file is to be created under it
  -- in the directory before, if O_CREAT is given and no slash ends the path, and else there is no entry;
  -- an entry at the end is opened, but the kernel stops where a slash ends the path, as it does for the
  -- path of the root.
  pub filp_openat-opening :
      (root cwd : D) (is_dir : D → Bool) (trailing creat : Bool) (n : Text) (ms : List Text)
      → AreNames (n ∷ ms)
      → (filp_openat search root cwd is_dir none (slash ∷ path_text trailing n ms) creat
          ≡ opening trailing creat root n ms)
        × (filp_openat search root cwd is_dir none (slash ∷ []) creat ≡ panic)
  unfolding filp_openat
  filp_openat-opening root cwd is_dir trailing creat n ms names = (
    at_end (
        Returns-ok (Searched (OpensAs creat (opening trailing creat root n ms)))
          (parse_path search root cwd is_dir none (slash ∷ path_text trailing n ms))
          (from_root trailing creat n ms root cwd is_dir names)),
    open_root root cwd is_dir creat,
  )
    where
      at_end :
          (r : Option (SearchRes D)) × (parse_path search root cwd is_dir none
                (slash ∷ path_text trailing n ms)
              ≡ ok r)
            × Searched (OpensAs creat (opening trailing creat root n ms)) r
          → filp_openat search root cwd is_dir none (slash ∷ path_text trailing n ms) creat
            ≡ opening trailing creat root n ms
      at_end (none, run, opens) = absurd opens
      at_end (some res, run, opens) = rw run opens
