-- ===== src/Fs/Close.antt =====
-- Opening a file and closing it again.
use fizzos.Base.{
  subst, ◌-◌, not, ◌&&◌, ◌==◌, if◌then◌else◌, Outcome, panic, lt→ltb, ℕ, zero, suc, ◌+◌, ◌%◌, ◌^◌,
  ◌<◌, ◌≤◌, ◌≡◌, ◌≢◌, ◌⊎◌, refl, sym, ap, ◌∙◌, Bool, true, false, Option, none, some, ok, Returns,
  Returns-ok, ◌>>=◌, leb, update, arith, eq-cases, inl, inr, ==_refl, ne→==_false,
}
use fizzos.Dir.{Opening, creates, enoent, found}
use fizzos.File.{alloc_fd, free_fd}
use fizzos.File.Fds.{Allocated, alloc_fd-Allocated, free_fd_set}
use fizzos.Fs.{
  max_file_count, p_max_file_count, Files, free_file_from, get_free_file_of_table, OpenResult,
  opened, no_fd, no_entry, use_file, take_file, install_fd, with_opening, open_at_fd, sys_openat,
  dentry_close, file_close, sys_close, root_dir,
}

-- The first free entry that the search finds, if there is one.
found_free :
    (n i k : ℕ) (count : ℕ → ℕ)
    → i ≤ k
    → k < i + n
    → count k ≡ 0
    → (r : ℕ) × (free_file_from n i count ≡ some r) × (count r ≡ 0)
unfolding free_file_from
found_free zero i k count le lt free = absurd (omega arith)
found_free (suc n) i k count le lt free = elim (eq-cases (count i) 0) [
  | inl e ↦ (i, rw e refl, e)
  | inr ne ↦
      let (r, run, at) =
        found_free n (i + 1) k count (further (eq-cases i k) ne) (omega arith) free in
      (r, rw (ne→==_false (count i) 0 ne) run, at)
]
  where
    further : (i ≡ k) ⊎ (i ≢ k) → count i ≢ 0 → i + 1 ≤ k
    further (inl e) ne = absurd (ne (ap count e ∙ free))
    further (inr apart) ne = omega arith

-- The numbers and the users of the files are the same.
abbrev pub SameFiles : Files → Files → Type 0
SameFiles before after =
    ((k : ℕ) → after.open_fds k ≡ before.open_fds k) × ((k : ℕ) → after.count k ≡ before.count k)

abbrev pub SameEntries : Files → Files → Type 0
SameEntries before after = (k : ℕ) → after.d_count k ≡ before.d_count k

-- The users of the entries when one user of `d` is gone; the root's are not counted.
abbrev pub without_user : ℕ → (ℕ → ℕ) → ℕ → ℕ
without_user d users k = if (k == d) && not (d == root_dir) then users k - 1 else users k

-- What closing a file that was opened on an entry gives, for the state before it was opened: if the
-- entry has a user, or is the root, all is as before but for this user; if it has none, the kernel stops.
pub record Closes (before : Files) (d : ℕ) (result : Outcome (Bool × Files)) : Type 0 where
  pub used :
      (d ≢ root_dir → (0 < before.d_count d) × (before.d_count d < 2 ^ 31))
      → Returns
          (λ (closed : Bool × Files).
            (closed.0 ≡ true)
            × SameFiles before closed.1
            × ((k : ℕ) → closed.1.d_count k ≡ without_user d before.d_count k))
          result
  pub unused : d ≢ root_dir → before.d_count d ≡ 0 → result ≡ panic

-- The entry that a file is opened on.
abbrev pub entry_of : ℕ → Opening ℕ → ℕ
entry_of made (found d) = d
entry_of made enoent = made
entry_of made (creates parent name) = made

-- A file that was opened, on an entry, and what closing it does; otherwise all is as before at once.
abbrev pub IsOpened : Files → ℕ → OpenResult × Files → Type 0
IsOpened before d (opened fd, after) =
    (before.open_fds fd ≡ false) × Closes before d (sys_close fd after)
IsOpened before d (no_fd, after) =
    ((k : ℕ) → k < p_max_file_count → before.open_fds k ≡ true)
    × SameFiles before after
    × SameEntries before after
IsOpened before d (no_entry, after) = SameFiles before after × SameEntries before after

take_found :
    (d : ℕ) (fs : Files) (r : ℕ)
    → free_file_from max_file_count 0 fs.count ≡ some r
    → take_file d fs
      ≡ ok (
        r,
        record fs {
          count = update fs.count r ((fs.count r + 1) % 2 ^ 32);
          pos = update fs.pos r 0;
          f_dentry = update fs.f_dentry r (some d);
        },
      )
unfolding take_file get_free_file_of_table use_file
take_found d fs r run = ap (use_file d fs) run

-- The state behind sys_openat with the entry `r` of the table.
abbrev installed : Files → (ℕ → Bool) → ℕ → ℕ → ℕ → Files
installed fs open_fds d fd r = record {
  count = update fs.count r ((fs.count r + 1) % 2 ^ 32);
  pos = update fs.pos r 0;
  f_dentry = update fs.f_dentry r (some d);
  open_fds = open_fds;
  fd_array = update fs.fd_array fd (some r);
  d_count = fs.d_count;
}

module _ (fs : Files) (open_fds : ℕ → Bool) (d fd r : ℕ) (unused : fs.count r ≡ 0)
    (small : fd < p_max_file_count)
    (back : Returns (λ again. (k : ℕ) → again k ≡ fs.open_fds k) (free_fd fd open_fds)) where
  abbrev after : Files
  after = installed fs open_fds d fd r

  high : (m : ℕ) → fd < m → leb m fd ≡ false
  high m h = ground arith

  one_user : after.count r ≡ 1
  one_user = rw (==_refl r, unused) refl

  -- What is left of closing: the entry, and the number.
  close_run : sys_close fd after ≡ (do
    fs' ← dentry_close (some d) (record after { count = update after.count r 0 })
    open_fds ← free_fd fd fs'.open_fds
    ok (true, record fs' { open_fds = open_fds }))
  unfolding sys_close file_close
  close_run =
      rw
        (
          high max_file_count (omega arith),
          high p_max_file_count small,
          free_fd_set fd open_fds (λ again. (k : ℕ) → again k ≡ fs.open_fds k) back,
          ==_refl fd,
          ==_refl r,
          unused,
        )
        refl

  restored : (k : ℕ) → update after.count r 0 k ≡ fs.count k
  restored k = elim (eq-cases k r) [
    | inl e ↦ rw (e, ==_refl r) (sym unused)
    | inr ne ↦ rw (ne→==_false k r ne) refl
  ]

  -- The rest of closing, where dentry_close leaves these users.
  rest_of_close : (ℕ → ℕ) → Outcome (Bool × Files)
  rest_of_close users = do
    open_fds ← free_fd fd open_fds
    ok (true, record after { count = update after.count r 0; d_count = users; open_fds = open_fds })

  -- The number is given back behind dentry_close.
  given_back :
      (users : ℕ → ℕ)
      → ((k : ℕ) → users k ≡ without_user d fs.d_count k)
      → Returns
          (λ (closed : Bool × Files).
            (closed.0 ≡ true)
            × SameFiles fs closed.1
            × ((k : ℕ) → closed.1.d_count k ≡ without_user d fs.d_count k))
          (rest_of_close users)
  unfolding rest_of_close
  given_back users h =
      let (again, run, same) =
        Returns-ok (λ again. (k : ℕ) → again k ≡ fs.open_fds k) (free_fd fd open_fds) back in
      rw run (refl, (same, restored), h)

  close_root : d == root_dir ≡ true → sys_close fd after ≡ rest_of_close fs.d_count
  unfolding dentry_close rest_of_close
  close_root e = close_run ∙ rw e refl

  close_counted :
      d ≢ root_dir
      → 0 < fs.d_count d
      → fs.d_count d < 2 ^ 31
      → sys_close fd after ≡ rest_of_close (update fs.d_count d (fs.d_count d - 1))
  unfolding dentry_close rest_of_close
  close_counted ne used few =
      close_run
      ∙ rw
          (
            ne→==_false d root_dir ne,
            lt→ltb 0 (fs.d_count d) used,
            lt→ltb (fs.d_count d) (2 ^ 31) few,
          )
          refl

  abbrev Closed : Bool × Files → Type 0
  Closed closed =
      (closed.0 ≡ true)
      × SameFiles fs closed.1
      × ((k : ℕ) → closed.1.d_count k ≡ without_user d fs.d_count k)

  after-Closes : Closes fs d (sys_close fd after)
  unfolding dentry_close
  after-Closes = record {
    used = λ user. elim (eq-cases d root_dir) [
      | inl e ↦
          subst (Returns Closed) (sym (close_root (ap (λ (n : ℕ). n == root_dir) e)))
            (given_back fs.d_count (λ k. rw e (whole k)))
      | inr ne ↦
          subst (Returns Closed) (sym (close_counted ne (user ne).0 (user ne).1))
            (given_back (update fs.d_count d (fs.d_count d - 1)) (one_less ne))
    ];
    unused = λ ne zero_users. close_run ∙ rw (ne→==_false d root_dir ne, zero_users) refl;
  }
    where
      whole : (k : ℕ) → fs.d_count k ≡ without_user 0 fs.d_count k
      whole k = ground arith

      one_less :
          d ≢ root_dir
          → (k : ℕ) → update fs.d_count d (fs.d_count d - 1) k ≡ without_user d fs.d_count k
      one_less ne k = elim (eq-cases k d) [
        | inl e ↦ rw (e, ==_refl d, ne→==_false d root_dir ne) refl
        | inr other ↦ rw (ne→==_false k d other) refl
      ]

-- A file of the table is installed.
install_found :
    (fs : Files) (open_fds : ℕ → Bool) (d : ℕ) (fd k : ℕ)
    → k < max_file_count
    → fs.count k ≡ 0
    → Allocated fs.open_fds (some fd, open_fds)
    → Returns (IsOpened fs d) (
        take_file d (record fs { open_fds = open_fds }) >>= λ (r : ℕ × Files).
        ok (opened fd, install_fd fd (some r.0) r.1))
unfolding install_fd
install_found fs open_fds d fd k lt free alloc =
    let (r, run, unused) =
      found_free max_file_count 0 k fs.count (omega arith) (omega arith) free in
    rw (take_found d (record fs { open_fds = open_fds }) r run)
      (alloc.0, after-Closes fs open_fds d fd r unused alloc.1 alloc.3)

open_at_fd-IsOpened :
    (fs : Files) (made : ℕ) (o : Opening ℕ) (k : ℕ) (a : Option ℕ × (ℕ → Bool))
    → k < max_file_count
    → fs.count k ≡ 0
    → Allocated fs.open_fds a
    → Returns (IsOpened fs (entry_of made o)) (open_at_fd (some made) (ok o) fs a)
unfolding open_at_fd with_opening
open_at_fd-IsOpened fs made o k (none, open_fds) lt free (used, same) =
    (used, (λ k. ap (λ (f : ℕ → Bool). f k) same, λ k. refl), λ k. refl)
open_at_fd-IsOpened fs made (creates parent name) k (some fd, open_fds) lt free alloc =
    install_found fs open_fds made fd k lt free alloc
open_at_fd-IsOpened fs made (found d) k (some fd, open_fds) lt free alloc =
    install_found fs open_fds d fd k lt free alloc
open_at_fd-IsOpened fs made enoent k (some fd, open_fds) lt free (was_free, small, first, back) =
    let (again, run, same) =
      Returns-ok (λ again. (k : ℕ) → again k ≡ fs.open_fds k) (free_fd fd open_fds) back in
    rw run ((same, λ k. refl), λ k. refl)

pub sys_close-sys_openat :
    (fs : Files) (made : ℕ) (o : Opening ℕ) (k : ℕ)
    → k < max_file_count
    → fs.count k ≡ 0
    → Returns (IsOpened fs (entry_of made o)) (sys_openat (some made) (ok o) fs)
unfolding sys_openat
sys_close-sys_openat fs made o k lt free =
    open_at_fd-IsOpened fs made o k (alloc_fd fs.open_fds) lt free (alloc_fd-Allocated fs.open_fds)
