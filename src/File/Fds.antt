-- ===== src/File/Fds.antt =====
-- The file numbers of a process.
use fizzos.Base.{
  assert, ◌>>◌, ok, ℕ, zero, suc, ◌+◌, ◌<◌, ◌≤◌, ◌≡◌, refl, sym, ap, ◌∙◌, Bool, true, false, Option,
  none, some, arith, update, inl, inr, Bool-cases, eq-cases, Returns, ==_refl, ne→==_false,
}
use fizzos.File.{search_fd, alloc_fd, free_fd}

-- The number found is free, in bounds, and the first free one.
abbrev FirstFree : ℕ → ℕ → (ℕ → Bool) → Option ℕ → Type 0
FirstFree n fd open_fds none = (k : ℕ) → fd ≤ k → k < fd + n → open_fds k ≡ true
FirstFree n fd open_fds (some r) =
    (open_fds r ≡ false) × (fd ≤ r) × (r < fd + n) × ((k : ℕ) → fd ≤ k → k < r → open_fds k ≡ true)

search_fd-FirstFree :
    (n fd : ℕ) (open_fds : ℕ → Bool) → FirstFree n fd open_fds (search_fd n fd open_fds)
unfolding search_fd
search_fd-FirstFree zero fd open_fds = λ k le lt. absurd (omega arith)
search_fd-FirstFree (suc n) fd open_fds = elim (Bool-cases (open_fds fd)) [
  | inl used ↦
      rw used
        (further (search_fd n (fd + 1) open_fds) used (search_fd-FirstFree n (fd + 1) open_fds))
  | inr free ↦ rw free (free, omega arith, omega arith, λ k le lt. absurd (omega arith))
]
  where
    at_or_behind :
        (m : ℕ)
        → open_fds fd ≡ true
        → ((k : ℕ) → fd + 1 ≤ k → k < m → open_fds k ≡ true)
        → (k : ℕ) → fd ≤ k
        → k < m
        → open_fds k ≡ true
    at_or_behind m used rest k le lt = elim (eq-cases k fd) [
      | inl e ↦ ap open_fds e ∙ used
      | inr ne ↦ rest k (omega arith) lt
    ]

    further :
        (r : Option ℕ)
        → open_fds fd ≡ true
        → FirstFree n (fd + 1) open_fds r
        → FirstFree (suc n) fd open_fds r
    further none used h = λ k le lt. at_or_behind (fd + 1 + n) used h k le (omega arith)
    further (some r) used (free, le, lt, first) =
        (free, omega arith, omega arith, λ k le' lt'. at_or_behind r used first k le' lt')

-- What alloc_fd says of the numbers before and after.
abbrev pub Allocated : (ℕ → Bool) → Option ℕ × (ℕ → Bool) → Type 0
Allocated before (none, after) = ((k : ℕ) → k < 32 → before k ≡ true) × (after ≡ before)
Allocated before (some fd, after) =
    (before fd ≡ false)
    × (fd < 32)
    × ((k : ℕ) → k < fd → before k ≡ true)
    × Returns (λ again. (k : ℕ) → again k ≡ before k) (free_fd fd after)

-- alloc_fd gives the first free number below 32 and marks it, so that free_fd of it gives the numbers
-- that there were before; it fails, changing nothing, just where all 32 are in use.
pub alloc_fd-Allocated : (open_fds : ℕ → Bool) → Allocated open_fds (alloc_fd open_fds)
unfolding alloc_fd free_fd
alloc_fd-Allocated open_fds = after (search_fd 32 0 open_fds) (search_fd-FirstFree 32 0 open_fds)
  where
    back :
        (fd : ℕ)
        → open_fds fd ≡ false
        → (k : ℕ) → update (update open_fds fd true) fd false k ≡ open_fds k
    back fd free k = elim (eq-cases k fd) [
      | inl e ↦ rw (e, ==_refl fd) (sym free)
      | inr ne ↦ rw (ne→==_false k fd ne) refl
    ]

    after :
        (r : Option ℕ)
        → FirstFree 32 0 open_fds r
        → Allocated open_fds (elim r as (λ _. Option ℕ × (ℕ → Bool)) [
          | none ↦ (none, open_fds)
          | some fd ↦ (some fd, update open_fds fd true)
        ])
    after none used = (λ k lt. used k (omega arith) (omega arith), refl)
    after (some fd) (free, le, lt, first) =
        (free, omega arith, λ k below. first k (omega arith) below, rw (==_refl fd) (back fd free))

-- Only a number in use is given back.
pub free_fd_set :
    (fd : ℕ) (open_fds : ℕ → Bool) (P : (ℕ → Bool) → Type 0)
    → Returns P (free_fd fd open_fds)
    → open_fds fd ≡ true
unfolding free_fd
free_fd_set fd open_fds P h = pick (open_fds fd) h
  where
    pick : (b : Bool) → Returns P (assert b >> ok (update open_fds fd false)) → b ≡ true
    pick true h = refl
    pick false h = absurd h
