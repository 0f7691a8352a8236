-- ===== src/Dir/Tests.antt =====
-- Runs of the paths.
use fizzos.Base.{
  List, ℕ, zero, suc, ◌≡◌, refl, Bool, true, false, [], ◌∷◌, ◌++◌, Option, none, some, ok, panic,
  Returns, arith, ◌==◌, if◌then◌else◌,
}
use fizzos.Dir.{Text, slash, parse_path, filp_openat, sys_getcwd}
use fizzos.Dir.Walk.{AreNames, path_text, left_over, walk, Reaches, Searched, parse_path-walk}
use fizzos.Dir.Open.{opening, filp_openat-opening}
use fizzos.Dir.Cwd.{parse_path-sys_getcwd}

-- A root 0 with a directory `a`, 1, in which a directory `b`, 2, is.
abbrev a_b : ℕ → Text → Option ℕ
a_b zero [] = none
a_b zero (c ∷ rest) = if c == 97 then some 1 else none
a_b (suc d) [] = none
a_b (suc d) (c ∷ rest) = if c == 98 then some 2 else none

abbrev all_dirs : ℕ → Bool
all_dirs d = true

abbrev a : Text
a = 97 ∷ []

abbrev b : Text
b = 98 ∷ []

abbrev from_leaf : List Text
from_leaf = b ∷ a ∷ []

abbrev from_root : List Text
from_root = a ∷ b ∷ []

from_leaf-AreNames : AreNames from_leaf
from_leaf-AreNames = (omega arith, (omega arith, tt), (omega arith, (omega arith, tt), tt))

from_root-AreNames : AreNames from_root
from_root-AreNames = (omega arith, (omega arith, tt), (omega arith, (omega arith, tt), tt))

parse_path-walk_example :
    Returns
      (Searched (Reaches a_b (walk a_b (b ∷ []) (a_b 0 a)) (left_over true)))
      (parse_path a_b 0 0 all_dirs none (slash ∷ path_text true a (b ∷ [])))
    × Returns
        (Searched (Reaches a_b (walk a_b (b ∷ []) (a_b 0 a)) (left_over true)))
        (parse_path a_b 0 0 all_dirs none (path_text true a (b ∷ [])))
parse_path-walk_example = parse_path-walk a_b 0 0 all_dirs true a (b ∷ []) from_root-AreNames

filp_openat-opening_example :
    (filp_openat a_b 0 0 all_dirs none (slash ∷ path_text false a (a ∷ [])) true
      ≡ opening a_b false true 0 a (a ∷ []))
    × (filp_openat a_b 0 0 all_dirs none (slash ∷ []) true ≡ panic)
filp_openat-opening_example =
    filp_openat-opening a_b 0 0 all_dirs false true a (a ∷ [])
      (omega arith, (omega arith, tt), (omega arith, (omega arith, tt), tt))

parse_path-sys_getcwd_example :
    (text : Text) × (sys_getcwd (b ∷ a ∷ []) 100 ≡ ok (text ++ (0 ∷ [])))
    × Returns (Searched (Reaches a_b (some 2) none)) (parse_path a_b 0 1 all_dirs none text)
parse_path-sys_getcwd_example =
    parse_path-sys_getcwd a_b 0 1 all_dirs b (a ∷ []) 2 100 (1, (0, refl, refl), refl)
      from_leaf-AreNames (omega arith) (omega arith)
