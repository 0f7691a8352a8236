-- ===== src/Dir.antt =====
-- fs/dir.c and filp_openat of fs/file.c: from a path to a directory entry and back. A text is the list of
-- its bytes without the 0 at its end. What search_dentry finds is a parameter, on entries of any type.
pub mod Walk
pub mod Cwd
pub mod Open
mod Tests
use fizzos.Base.{
  ℕ, zero, suc, ◌+◌, ◌-◌, Bool, true, false, not, ◌&&◌, List, [], ◌∷◌, ◌++◌, Option, none, some,
  Outcome, ok, panic, fault, out_of_fuel, ◌>>=◌, ◌>>◌, ◌==◌, leb, ltb, if◌then◌else◌, length, take,
}

abbrev pub Text : Type 0
Text = List ℕ

abbrev pub slash : ℕ
slash = 47

abbrev pub max_path_len : ℕ
max_path_len = 127

-- strchr of a slash, and the 0 that is put there: the text in front of it, and what is behind it.
pub split_slash : Text → Text × Option Text
split_slash [] = ([], none)
split_slash (c ∷ rest) =
    let (name, next) = split_slash rest in if c == slash then ([], some rest) else (c ∷ name, next)

-- `nextdir` is none for NULL; `curdir_len` is the length of `curdir`.
pub record SearchRes (D : Type 0) : Type 0 where
  pub parent : D
  pub child : Option D
  pub curdir : Text
  pub nextdir : Option Text

-- What filp_openat does behind the search: a new file in a directory, ENOENT, or an entry.
pub data Opening (D : Type 0) : Type 0 where
  creates : D → Text → Opening D
  enoent : Opening D
  found : D → Opening D

module _ {D : Type 0} (search : D → Text → Option D) where
  -- The loop of parse_path, which goes on while there is text left and an entry was found.
  pub parse_loop : ℕ → D → Option D → Text → Option Text → Outcome (SearchRes D)
  unfolding split_slash
  parse_loop zero parent child cur next = out_of_fuel
  parse_loop (suc fuel) parent none cur next =
      ok (record { parent = parent; child = none; curdir = cur; nextdir = next })
  parse_loop (suc fuel) parent (some d) cur none =
      ok (record { parent = parent; child = some d; curdir = cur; nextdir = none })
  parse_loop (suc fuel) parent (some d) cur (some []) =
      ok (record { parent = parent; child = some d; curdir = cur; nextdir = some [] })
  parse_loop (suc fuel) parent (some d) cur (some (c ∷ rest)) =
      let (name, next) = split_slash (c ∷ rest) in parse_loop fuel d (search d name) name next

  -- `dir` is the entry of `dirfd`, none for AT_FDCWD; the result is none for -ENOTDIR. A round takes a
  -- byte of the path at least.
  pub parse_path : D → D → (D → Bool) → Option D → Text → Outcome (Option (SearchRes D))
  unfolding parse_loop
  parse_path root cwd is_dir dir path = elim path [
    | [] ↦ from_text (start dir) []
    | c ∷ (rest → more) ↦
        if c == slash then from_text (some root) rest else from_text (start dir) (c ∷ rest)
  ]
    where
      start : Option D → Option D
      start none = some cwd
      start (some d) = if is_dir d then some d else none

      from_text : Option D → Text → Outcome (Option (SearchRes D))
      from_text none text = ok none
      from_text (some d) text =
          parse_loop (length text + 1) d (some d) text (some text) >>= λ res. ok (some res)

  -- filp_openat up to the file table. It does not look at what parse_path returns; after an error, the
  -- result of the search is what the stack held.
  pub open_case : Bool → Option D → SearchRes D → Outcome (Opening D)
  open_case creat none res = ok (elim res.nextdir [
    | none ↦ if creat then creates res.parent res.curdir else enoent
    | some t ↦ enoent
  ])
  open_case creat (some d) res = elim res.nextdir [ none ↦ ok (found d) | some t ↦ panic ]

  pub filp_openat : D → D → (D → Bool) → Option D → Text → Bool → Outcome (Opening D)
  unfolding parse_path open_case
  filp_openat root cwd is_dir dir path creat = parse_path root cwd is_dir dir path >>= with_result
    where
      with_result : Option (SearchRes D) → Outcome (Opening D)
      with_result none = fault
      with_result (some res) = open_case creat res.child res

-- A buffer that is filled from its end: what is written, and how many bytes are left in front.
pub record Back : Type 0 where
  pub text : Text
  pub buflen : ℕ

-- A write in front of the buffer is out of its bounds.
pub prepend : Text → Back → Outcome Back
prepend str b =
    if leb (length str) b.buflen
    then ok (record { text = str ++ b.text; buflen = b.buflen - length str })
    else fault

-- The names from an entry up to the root, which has none here.
pub climb : List Text → Back → Outcome Back
unfolding prepend
climb [] b = ok b
climb (fname ∷ up) b = do b ← prepend fname b; b ← prepend (slash ∷ []) b; climb up b

pub get_path : List Text → Back → Outcome Back
unfolding climb
get_path [] b = prepend (slash ∷ []) b
get_path (fname ∷ up) b = climb (fname ∷ up) b

-- sys_getcwd: what is copied to the caller, whose buffer has `size` bytes.
pub sys_getcwd : List Text → ℕ → Outcome Text
unfolding get_path
sys_getcwd cwd size = do
  b ← prepend (0 ∷ []) (record { text = []; buflen = max_path_len + 1 })
  b ← get_path cwd b
  let len = max_path_len + 1 - b.buflen
  ok (
      if ltb size len
      then (if size == 0 then [] else take (size - 1) b.text ++ (0 ∷ []))
      else b.text)
