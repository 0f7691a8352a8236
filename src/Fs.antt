-- ===== src/Fs.antt =====
-- fs/fs.c: opening and closing files by their numbers, with the file table of fs/file.c. A directory
-- entry in memory is named by a number; what the search for a path gives, and the entry that a new file
-- gets, are arguments.
pub mod Close
mod Tests
use fizzos.Base.{
  ℕ, zero, suc, ◌+◌, ◌-◌, ◌%◌, ◌^◌, Bool, true, false, not, ◌&&◌, Option, none, some, Outcome, ok,
  panic, fault, ◌>>=◌, ◌>>◌, assert, ◌==◌, ltb, leb, if◌then◌else◌, update,
}
use fizzos.Dir.{Text, Opening, creates, enoent, found}
use fizzos.File.{alloc_fd, free_fd}

abbrev pub max_file_count : ℕ
max_file_count = 64

abbrev pub p_max_file_count : ℕ
p_max_file_count = 32

-- The file table, by index, and the numbers of the running process. A number stands for an entry of the
-- table, or for NULL. `d_count` are the users of the directory entries.
pub record Files : Type 0 where
  pub count : ℕ → ℕ
  pub pos : ℕ → ℕ
  pub f_dentry : ℕ → Option ℕ
  pub open_fds : ℕ → Bool
  pub fd_array : ℕ → Option ℕ
  pub d_count : ℕ → ℕ

-- The search from `i` on, in `n` rounds.
pub free_file_from : ℕ → ℕ → (ℕ → ℕ) → Option ℕ
free_file_from zero i count = none
free_file_from (suc n) i count =
    let rest = free_file_from n (i + 1) count in if count i == 0 then some i else rest

pub get_free_file_of_table : (ℕ → ℕ) → Option ℕ
unfolding free_file_from
get_free_file_of_table count = free_file_from max_file_count 0 count

-- The result of sys_openat: the number, -1 without a free one, or -ENOENT.
pub data OpenResult : Type 0 where
  opened : ℕ → OpenResult
  no_fd : OpenResult
  no_entry : OpenResult

-- An entry of the table is taken for a directory entry; NULL is written through.
pub use_file : ℕ → Files → Option ℕ → Outcome (ℕ × Files)
use_file d fs none = fault
use_file d fs (some i) = ok (
  i,
  record fs {
    count = update fs.count i ((fs.count i + 1) % 2 ^ 32);
    pos = update fs.pos i 0;
    f_dentry = update fs.f_dentry i (some d);
  },
)

pub take_file : ℕ → Files → Outcome (ℕ × Files)
unfolding get_free_file_of_table use_file
take_file d fs = use_file d fs (get_free_file_of_table fs.count)

pub install_fd : ℕ → Option ℕ → Files → Files
install_fd fd f fs = record fs { fd_array = update fs.fd_array fd f }

-- The end of filp_openat, and what sys_openat does with the file; a file that could not be made is
-- NULL, and is installed. `made` is the entry of a new file.
pub with_opening : ℕ → Option ℕ → Opening ℕ → Files → Outcome (OpenResult × Files)
unfolding take_file install_fd
with_opening fd made enoent fs = do
  open_fds ← free_fd fd fs.open_fds
  ok (no_entry, record fs { open_fds = open_fds })
with_opening fd made (found d) fs = do
  (i, fs) ← take_file d fs
  ok (opened fd, install_fd fd (some i) fs)
with_opening fd none (creates parent name) fs = ok (opened fd, install_fd fd none fs)
with_opening fd (some d) (creates parent name) fs = do
  (i, fs) ← take_file d fs
  ok (opened fd, install_fd fd (some i) fs)

-- sys_openat behind alloc_fd; `opening` is what the search of filp_openat gives.
pub open_at_fd :
    Option ℕ → Outcome (Opening ℕ) → Files → Option ℕ × (ℕ → Bool) → Outcome (OpenResult × Files)
unfolding with_opening
open_at_fd made opening fs (none, open_fds) = ok (no_fd, record fs { open_fds = open_fds })
open_at_fd made opening fs (some fd, open_fds) =
    opening >>= λ o. with_opening fd made o (record fs { open_fds = open_fds })

pub sys_openat : Option ℕ → Outcome (Opening ℕ) → Files → Outcome (OpenResult × Files)
unfolding open_at_fd
sys_openat made opening fs = open_at_fd made opening fs (alloc_fd fs.open_fds)

abbrev pub root_dir : ℕ
root_dir = 0

-- dentry_close of fs/dir.c, which keeps an entry without users; NULL is read through.
pub dentry_close : Option ℕ → Files → Outcome Files
dentry_close none fs = fault
dentry_close (some d) fs =
    if d == root_dir
    then ok fs
    else assert (ltb 0 (fs.d_count d) && ltb (fs.d_count d) (2 ^ 31))
      >> ok (record fs { d_count = update fs.d_count d (fs.d_count d - 1) })

-- file_close of NULL reads through it. The last user of a file closes its directory entry.
pub file_close : Option ℕ → Files → Outcome Files
unfolding dentry_close
file_close none fs = fault
file_close (some i) fs =
    assert (ltb 0 (fs.count i) && ltb (fs.count i) (2 ^ 31))
    >> (let fs' : Files = record fs { count = update fs.count i (fs.count i - 1) } in
        let closed = dentry_close (fs.f_dentry i) fs' in if fs.count i == 1 then closed else ok fs')

-- false for -EBADF. A number from 32 on passes the test of its size, and is then shifted by.
pub sys_close : ℕ → Files → Outcome (Bool × Files)
unfolding file_close
sys_close fd fs =
    if leb max_file_count fd
    then ok (false, fs)
    else if leb p_max_file_count fd
    then fault
    else if not (fs.open_fds fd)
    then ok (false, fs)
    else (do
      fs ← file_close (fs.fd_array fd) fs
      open_fds ← free_fd fd fs.open_fds
      ok (true, record fs { open_fds = open_fds }))
