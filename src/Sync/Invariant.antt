-- ===== src/Sync/Invariant.antt =====
-- Mutual exclusion of the mutexes of kernel/sync.c in every state that threads can bring about.
use mathlib.Core.Bool.{false≢true}
use fizzos.Base.{
  ℕ, ◌+◌, ◌-◌, ◌%◌, ◌^◌, ◌==◌, ◌≡◌, ◌≢◌, refl, sym, ap, ◌∙◌, Bool, true, false, none, some, List,
  [], ◌∷◌, ◌++◌, Outcome, ok, panic, fault, blocked, out_of_fuel, Returns, subst, update, arith,
  inl, inr, ◌⊎◌, eq-cases, Bool-cases,
}
use fizzos.Sync.{
  MutexLock, mutex_lock_init, Pc, running, trying, waiting, entered, holding, leaving, waking,
  State, is_holder, can_call, acquire_enter, acquire_round, acquire_own, release_enter,
  release_unlock, release_wake, woken, after_pop, behind_front, Step, to_acquire, to_round, to_own,
  to_release, to_unlock, to_wake, Reachable, fresh, next,
}

-- Where a thread has the mutex locked.
abbrev pub has_lock : Pc → Bool
has_lock running = false
has_lock trying = false
has_lock waiting = false
has_lock entered = true
has_lock holding = true
has_lock leaving = true
has_lock (waking w) = false

pub record IsSafe (s : State) : Type 0 where
  pub exclusive : (t u : ℕ) → has_lock (s.pc t) ≡ true → has_lock (s.pc u) ≡ true → t ≡ u
  pub locked : (t : ℕ) → has_lock (s.pc t) ≡ true → s.mutex.is_lock ≡ true
  pub held : (t : ℕ) → is_holder t s.mutex.holder ≡ true → s.pc t ≡ holding

update_cases :
    (f : ℕ → Pc) (t : ℕ) (p : Pc) (u : ℕ)
    → ((u ≡ t) × (update f t p u ≡ p)) ⊎ ((u ≢ t) × (update f t p u ≡ f u))
update_cases f t p u = elim (eq-cases u t) [
  | inl e ↦ inl (e, ground arith)
  | inr ne ↦ inr (ne, ground arith)
]

-- A thread that does not take the lock, and a mutex that stays as locked as it was.
stay :
    (s : State) (mutex' : MutexLock) (t : ℕ) (p : Pc)
    → IsSafe s
    → (has_lock p ≡ true → has_lock (s.pc t) ≡ true)
    → ((u : ℕ) → has_lock (update s.pc t p u) ≡ true → mutex'.is_lock ≡ true)
    → ((u : ℕ) → is_holder u mutex'.holder ≡ true → update s.pc t p u ≡ holding)
    → IsSafe (record { mutex = mutex'; pc = update s.pc t p })
stay s mutex' t p safe had lock held = record {
  exclusive = λ a b ha hb. safe.exclusive a b (before a ha) (before b hb);
  locked = lock;
  held = held;
}
  where
    before : (u : ℕ) → has_lock (update s.pc t p u) ≡ true → has_lock (s.pc u) ≡ true
    before u h = elim (update_cases s.pc t p u) [
      | inl same ↦ rw same.0 (had (sym (ap has_lock same.1) ∙ h))
      | inr other ↦ sym (ap has_lock other.1) ∙ h
    ]

-- Nobody that holds the mutex stands where the lock is not held.
not_holder :
    (s : State) (t : ℕ) → IsSafe s → has_lock (s.pc t) ≡ false → is_holder t s.mutex.holder ≡ false
not_holder s t safe out = elim (Bool-cases (is_holder t s.mutex.holder)) [
  | inl h ↦ absurd (ground (arith, ap has_lock (safe.held t h)))
  | inr apart ↦ apart
]

-- The holder stays where it is while another thread moves.
held_after :
    (s : State) (t : ℕ) (p : Pc)
    → IsSafe s
    → is_holder t s.mutex.holder ≡ false
    → (u : ℕ) → is_holder u s.mutex.holder ≡ true
    → update s.pc t p u ≡ holding
held_after s t p safe apart u h = elim (update_cases s.pc t p u) [
  | inl same ↦ absurd (ground (arith, ap (λ a. is_holder a s.mutex.holder) same.0))
  | inr other ↦ other.1 ∙ safe.held u h
]

-- A thread that moves outside of the lock.
move_out :
    (s : State) (mutex' : MutexLock) (t : ℕ) (p : Pc)
    → IsSafe s
    → has_lock (s.pc t) ≡ false
    → has_lock p ≡ false
    → mutex'.holder ≡ s.mutex.holder
    → (s.mutex.is_lock ≡ true → mutex'.is_lock ≡ true)
    → IsSafe (record { mutex = mutex'; pc = update s.pc t p })
move_out s mutex' t p safe out out' h lock =
    stay s mutex' t p safe (λ e. absurd (ground arith))
      (λ u e. elim (update_cases s.pc t p u) [
        | inl same ↦ absurd (ground (arith, ap has_lock same.1))
        | inr other ↦ lock (safe.locked u (sym (ap has_lock other.1) ∙ e))
      ])
      (λ u e. held_after s t p safe (not_holder s t safe out) u (sym (ap (is_holder u) h) ∙ e))

acquire_enter-IsSafe :
    (s : State) (t : ℕ) → can_call (s.pc t) ≡ true → IsSafe s → IsSafe (acquire_enter t s)
unfolding acquire_enter
acquire_enter-IsSafe s t can safe = elim (Bool-cases (is_holder t s.mutex.holder)) [
  | inl mine ↦
      rw mine (record { exclusive = safe.exclusive; locked = safe.locked; held = safe.held })
  | inr other ↦ rw other (
      stay s s.mutex t trying safe (λ e. absurd (ground arith))
        (λ u e. elim (update_cases s.pc t trying u) [
          | inl same ↦ absurd (ground (arith, ap has_lock same.1))
          | inr apart ↦ safe.locked u (sym (ap has_lock apart.1) ∙ e)
        ])
        (held_after s t trying safe other))
]

acquire_round-IsSafe : (s : State) (t : ℕ) → s.pc t ≡ trying → IsSafe s → IsSafe (acquire_round t s)
unfolding acquire_round
acquire_round-IsSafe s t at safe = elim (Bool-cases s.mutex.is_lock) [
  | inl was ↦ rw was (
      move_out s (record s.mutex { is_lock = true; wait_list = s.mutex.wait_list ++ (t ∷ []) }) t
        waiting safe (ap has_lock at) refl refl (λ e. refl))
  | inr free ↦ rw free (record {
    exclusive = λ a b ha hb. only free a ha ∙ sym (only free b hb);
    locked = λ a ha. refl;
    held = held_after s t entered safe (not_holder s t safe (ap has_lock at));
  })
]
  where
    only : s.mutex.is_lock ≡ false → (a : ℕ) → has_lock (update s.pc t entered a) ≡ true → a ≡ t
    only free a h = elim (update_cases s.pc t entered a) [
      | inl same ↦ same.0
      | inr other ↦ absurd (ground (arith, safe.locked a (sym (ap has_lock other.1) ∙ h)))
    ]

acquire_own-IsSafe : (s : State) (t : ℕ) → s.pc t ≡ entered → IsSafe s → IsSafe (acquire_own t s)
unfolding acquire_own
acquire_own-IsSafe s t at safe =
    stay s (record s.mutex { holder = some t; repeat = 1 }) t holding safe (λ e. ap has_lock at)
      (λ u e. safe.locked t (ap has_lock at))
      (λ u e. elim (update_cases s.pc t holding u) [
        | inl same ↦ same.1
        | inr other ↦ absurd (ground arith)
      ])

release_wake-IsSafe :
    (s : State) (t w : ℕ) → s.pc t ≡ waking w → IsSafe s → IsSafe (release_wake t w s)
unfolding release_wake
release_wake-IsSafe s t w at safe =
    let s1 : State = record s { pc = update s.pc t running } in
    let safe1 = move_out s s.mutex t running safe (ap has_lock at) refl refl (λ e. e) in
    stay s1 s.mutex w (woken (s1.pc w)) safe1 (had (s1.pc w))
      (λ u e. elim (update_cases s1.pc w (woken (s1.pc w)) u) [
        | inl same ↦ safe1.locked w (had (s1.pc w) (sym (ap has_lock same.1) ∙ e))
        | inr other ↦ safe1.locked u (sym (ap has_lock other.1) ∙ e)
      ])
      (λ u e. elim (update_cases s1.pc w (woken (s1.pc w)) u) [
        | inl same ↦ same.1 ∙ ap woken (sym (ap s1.pc same.0) ∙ safe1.held u e)
        | inr other ↦ other.1 ∙ safe1.held u e
      ])
  where
    had : (p : Pc) → has_lock (woken p) ≡ true → has_lock p ≡ true
    had running e = e
    had trying e = e
    had waiting e = e
    had entered e = e
    had holding e = e
    had leaving e = e
    had (waking v) e = e

-- What a call that returns leaves is safe.
abbrev SafeIfOk : Outcome State → Type 0
SafeIfOk (ok s) = IsSafe s
SafeIfOk panic = Unit
SafeIfOk fault = Unit
SafeIfOk blocked = Unit
SafeIfOk out_of_fuel = Unit

release_enter-SafeIfOk : (s : State) (t : ℕ) → IsSafe s → SafeIfOk (release_enter t s)
unfolding release_enter
release_enter-SafeIfOk s t safe = elim (Bool-cases (is_holder t s.mutex.holder)) [
  | inr other ↦ rw other tt
  | inl mine ↦ elim (Bool-cases ((s.mutex.repeat + 2 ^ 32 - 1) % 2 ^ 32 == 0)) [
    | inl last ↦ rw (mine, last) (gone mine)
    | inr more ↦
        rw (mine, more)
          (record { exclusive = safe.exclusive; locked = safe.locked; held = safe.held })
  ]
]
  where
    gone :
        is_holder t s.mutex.holder ≡ true
        → IsSafe (record {
          mutex = record s.mutex { holder = none; repeat = 0 };
          pc = update s.pc t leaving;
        })
    gone mine =
        stay s (record s.mutex { holder = none; repeat = 0 }) t leaving safe
          (λ e. ap has_lock (safe.held t mine))
          (λ u e. safe.locked t (ap has_lock (safe.held t mine))) (λ u e. absurd (ground arith))

release_unlock-IsSafe :
    (s : State) (t : ℕ) → s.pc t ≡ leaving → IsSafe s → Returns IsSafe (release_unlock t s)
unfolding release_unlock
release_unlock-IsSafe s t at safe = rw (safe.locked t (ap has_lock at)) (
    stay s (record s.mutex { is_lock = false; wait_list = behind_front s.mutex.wait_list }) t
      (after_pop s.mutex.wait_list) safe (λ e. ap has_lock at)
      (λ u e. absurd (false≢true (sym (nobody u e))))
      (held_after s t (after_pop s.mutex.wait_list) safe not_mine))
  where
    out : (l : List ℕ) → has_lock (after_pop l) ≡ false
    out [] = refl
    out (w ∷ l) = refl

    nobody :
        (u : ℕ) → has_lock (update s.pc t (after_pop s.mutex.wait_list) u) ≡ true → true ≡ false
    nobody u e = elim (update_cases s.pc t (after_pop s.mutex.wait_list) u) [
      | inl same ↦ sym e ∙ ap has_lock same.1 ∙ out s.mutex.wait_list
      | inr other ↦
          absurd (other.0 (safe.exclusive u t (sym (ap has_lock other.1) ∙ e) (ap has_lock at)))
    ]

    not_mine : is_holder t s.mutex.holder ≡ false
    not_mine = elim (Bool-cases (is_holder t s.mutex.holder)) [
      | inl mine ↦ absurd (ground (arith, ap can_call (sym at ∙ safe.held t mine)))
      | inr apart ↦ apart
    ]

Step-IsSafe : {s s' : State} → Step s s' → IsSafe s → IsSafe s'
Step-IsSafe {s = s} (to_acquire t can) safe = acquire_enter-IsSafe s t can safe
Step-IsSafe {s = s} (to_round t at) safe = acquire_round-IsSafe s t at safe
Step-IsSafe {s = s} (to_own t at) safe = acquire_own-IsSafe s t at safe
Step-IsSafe {s = s} (to_release t can e) safe = subst SafeIfOk e (release_enter-SafeIfOk s t safe)
Step-IsSafe {s = s} (to_unlock t at e) safe =
    subst (Returns IsSafe) e (release_unlock-IsSafe s t at safe)
Step-IsSafe {s = s} (to_wake t w at) safe = release_wake-IsSafe s t w at safe

Reachable-IsSafe : {s : State} → Reachable s → IsSafe s
unfolding mutex_lock_init
Reachable-IsSafe fresh = record {
  exclusive = λ t u h k. absurd (ground arith);
  locked = λ t h. absurd (ground arith);
  held = λ t h. absurd (ground arith);
}
Reachable-IsSafe (next r step) = Step-IsSafe step (Reachable-IsSafe r)

-- In every state that threads bring about from a fresh mutex, in any order of their steps, at most one
-- thread is between the exchange of mutex_acquire that got the mutex and that of mutex_release, and the
-- mutex is locked then.
pub mutual_exclusion :
    (s : State) (t u : ℕ)
    → Reachable s
    → has_lock (s.pc t) ≡ true
    → has_lock (s.pc u) ≡ true
    → (t ≡ u) × (s.mutex.is_lock ≡ true)
mutual_exclusion s t u r ht hu =
    let safe = Reachable-IsSafe r in (safe.exclusive t u ht hu, safe.locked t ht)

-- In every state that threads bring about from a fresh mutex, a thread in mutex_release finds the mutex
-- locked at its exchange: the assertion there holds, and afterwards the mutex is free.
pub release_unlock-ok :
    (s : State) (t : ℕ)
    → Reachable s
    → s.pc t ≡ leaving
    → Returns (λ s'. s'.mutex.is_lock ≡ false) (release_unlock t s)
unfolding release_unlock
release_unlock-ok s t r at = rw ((Reachable-IsSafe r).locked t (ap has_lock at)) refl
