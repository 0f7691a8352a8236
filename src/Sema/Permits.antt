-- ===== src/Sema/Permits.antt =====
-- What a semaphore promises, in every state that threads can bring about.
use fizzos.Base.{
  ℕ, ◌+◌, ◌^◌, ◌≡◌, ◌<◌, ◌≤◌, refl, true, false, List, [], ◌∷◌, Outcome, ok, Returns-mono, fault,
  Returns, length, arith, ◌⊎◌, inl, inr, Bool-cases, subst, length-append,
}
use fizzos.Sema.{
  Semaphore, atomic_inc, atomic_inc_and_setg, atomic_dec_and_setge, sema_init, sema_wait,
  post_count, post_wake, sema_trywait, State, counted, Step, to_wait, to_trywait, to_post, to_wake,
  Reachable, fresh, next,
}

-- A count of 0 or more is what is left of the permits; one below 0 is how many sleepers nobody is about
-- to wake.
abbrev pub Balanced : (val c waiting posting passed posts : ℕ) → Type 0
Balanced val c waiting posting passed posts =
    ((c < 2 ^ 31) × (waiting ≡ posting) × (passed + c + posting ≡ val + posts))
    ⊎ ((2 ^ 31 ≤ c)
        × (c < 2 ^ 32)
        × (waiting + c ≡ posting + 2 ^ 32)
        × (passed + posting ≡ val + posts))

abbrev pub IsBalanced : ℕ → State → Type 0
IsBalanced val s = Balanced val s.sem.count (length s.sem.wait_list) s.posting s.passed s.posts

dec_true :
    (val c w p k n : ℕ)
    → Balanced val c w p k n
    → w + 1 < 2 ^ 31
    → (atomic_dec_and_setge c).1 ≡ true
    → Balanced val (atomic_dec_and_setge c).0 w p (k + 1) n
unfolding atomic_dec_and_setge
dec_true val c w p k n inv small e = ground arith

dec_false :
    (val c w p k n : ℕ)
    → Balanced val c w p k n
    → w + 1 < 2 ^ 31
    → (atomic_dec_and_setge c).1 ≡ false
    → Balanced val (atomic_dec_and_setge c).0 (w + 1) p k n
unfolding atomic_dec_and_setge
dec_false val c w p k n inv small e = ground arith

undo_dec :
    (val c w p k n : ℕ) → Balanced val c w p k n → atomic_inc ((atomic_dec_and_setge c).0) ≡ c
unfolding atomic_dec_and_setge atomic_inc
undo_dec val c w p k n inv = ground arith

inc_true :
    (val c w p k n : ℕ)
    → Balanced val c w p k n
    → val + n + 1 < 2 ^ 31
    → (atomic_inc_and_setg c).1 ≡ true
    → Balanced val (atomic_inc_and_setg c).0 w p k (n + 1)
unfolding atomic_inc_and_setg atomic_inc
inc_true val c w p k n inv small e = ground arith

inc_false :
    (val c w p k n : ℕ)
    → Balanced val c w p k n
    → val + n + 1 < 2 ^ 31
    → (atomic_inc_and_setg c).1 ≡ false
    → Balanced val (atomic_inc_and_setg c).0 w (p + 1) k (n + 1)
unfolding atomic_inc_and_setg atomic_inc
inc_false val c w p k n inv small e = ground arith

wait_step :
    (val t : ℕ) (s : State)
    → IsBalanced val s
    → length s.sem.wait_list + 1 < 2 ^ 31
    → IsBalanced val
        (record s { sem = (sema_wait t s.sem).1; passed = counted (sema_wait t s.sem).0 s.passed })
unfolding sema_wait
wait_step val t s inv small = elim (Bool-cases (atomic_dec_and_setge s.sem.count).1) [
  | inl e ↦
      rw e
        (dec_true val s.sem.count (length s.sem.wait_list) s.posting s.passed s.posts inv small e)
  | inr e ↦
      rw (e, length-append s.sem.wait_list (t ∷ []))
        (dec_false val s.sem.count (length s.sem.wait_list) s.posting s.passed s.posts inv small e)
]

trywait_step :
    (val : ℕ) (s : State)
    → IsBalanced val s
    → length s.sem.wait_list + 1 < 2 ^ 31
    → IsBalanced val (record s {
      sem = (sema_trywait s.sem).1;
      passed = counted (sema_trywait s.sem).0 s.passed;
    })
unfolding sema_trywait
trywait_step val s inv small = elim (Bool-cases (atomic_dec_and_setge s.sem.count).1) [
  | inl e ↦
      rw e
        (dec_true val s.sem.count (length s.sem.wait_list) s.posting s.passed s.posts inv small e)
  | inr e ↦
      rw (e, undo_dec val s.sem.count (length s.sem.wait_list) s.posting s.passed s.posts inv) inv
]

post_step :
    (val : ℕ) (s : State)
    → IsBalanced val s
    → val + s.posts + 1 < 2 ^ 31
    → IsBalanced val (record {
      sem = (post_count s.sem).1;
      posting = counted (post_count s.sem).0 s.posting;
      passed = s.passed;
      posts = s.posts + 1;
    })
unfolding post_count
post_step val s inv small = elim (Bool-cases (atomic_inc_and_setg s.sem.count).1) [
  | inl e ↦
      rw e
        (inc_true val s.sem.count (length s.sem.wait_list) s.posting s.passed s.posts inv small e)
  | inr e ↦
      rw e
        (inc_false val s.sem.count (length s.sem.wait_list) s.posting s.passed s.posts inv small e)
]

-- Where a thread is about to wake another, one sleeps.
wake_pops :
    (sem : Semaphore)
    → 0 < length sem.wait_list
    → Returns
        (λ r. (r.1.count ≡ sem.count) × (length r.1.wait_list + 1 ≡ length sem.wait_list))
        (post_wake sem)
unfolding post_wake
wake_pops sem some_wait = pops sem.wait_list some_wait
  where
    pops :
        (xs : List ℕ)
        → 0 < length xs
        → Returns
            (λ (r : ℕ × Semaphore).
              (r.1.count ≡ sem.count) × (length r.1.wait_list + 1 ≡ length xs))
            (elim xs as (λ _. Outcome (ℕ × Semaphore)) [
              | [] ↦ fault
              | w ∷ (rest → more) ↦ ok (w, record sem { wait_list = rest })
            ])
    pops [] h = absurd (omega arith)
    pops (w ∷ rest) h = (refl, omega arith)

some_sleep :
    (val : ℕ) (s : State) (p : ℕ)
    → IsBalanced val s
    → s.posting ≡ p + 1
    → 0 < length s.sem.wait_list
some_sleep val s p inv e = ground arith

IsBalanced-Step : (val : ℕ) {s s' : State} → IsBalanced val s → Step val s s' → IsBalanced val s'
IsBalanced-Step val {s} inv (to_wait t small) = wait_step val t s inv small
IsBalanced-Step val {s} inv (to_trywait small) = trywait_step val s inv small
IsBalanced-Step val {s} inv (to_post small) = post_step val s inv small
IsBalanced-Step val {s} inv (to_wake p w posting run) = woken _ (
    subst
      (Returns
        (λ r. (r.1.count ≡ s.sem.count) × (length r.1.wait_list + 1 ≡ length s.sem.wait_list)))
      run (wake_pops s.sem (some_sleep val s p inv posting)))
  where
    woken :
        (sem : Semaphore)
        → (sem.count ≡ s.sem.count) × (length sem.wait_list + 1 ≡ length s.sem.wait_list)
        → Balanced val sem.count (length sem.wait_list) p (s.passed + 1) s.posts
    woken sem (same, fewer) = ground arith

pub Reachable-IsBalanced : (val : ℕ) (s : State) → Reachable val s → IsBalanced val s
unfolding sema_init
Reachable-IsBalanced val _ (fresh small) = inl (small, refl, omega arith)
Reachable-IsBalanced val _ (next from step) =
    IsBalanced-Step val (Reachable-IsBalanced val _ from) step

-- In every state that threads can reach, the permits given so far are those that let a thread pass,
-- those on their way to a sleeper, and those left; while a thread sleeps whom nobody is about to wake,
-- none are left.
pub permits_conserved :
    (val : ℕ) (s : State)
    → Reachable val s
    → (left : ℕ) × (s.passed + s.posting + left ≡ val + s.posts)
      × (s.posting < length s.sem.wait_list → left ≡ 0)
permits_conserved val s from = elim (Reachable-IsBalanced val s from) [
  | inl some_left ↦ (s.sem.count, omega arith, λ more. absurd (omega arith))
  | inr none_left ↦ (0, omega arith, λ more. refl)
]

-- In every state that threads can reach where one is about to wake another, there is a sleeper in the
-- list to wake: sema_post never goes on with NULL.
pub post_wake-ok :
    (val : ℕ) (s : State)
    → Reachable val s
    → 0 < s.posting
    → Returns (λ r. length r.1.wait_list + 1 ≡ length s.sem.wait_list) (post_wake s.sem)
post_wake-ok val s from posting =
    Returns-mono
      (λ r. (r.1.count ≡ s.sem.count) × (length r.1.wait_list + 1 ≡ length s.sem.wait_list))
      (λ r. length r.1.wait_list + 1 ≡ length s.sem.wait_list) (post_wake s.sem)
      (wake_pops s.sem (waiters (Reachable-IsBalanced val s from))) (λ r h. h.1)
  where
    waiters : IsBalanced val s → 0 < length s.sem.wait_list
    waiters inv = ground arith
