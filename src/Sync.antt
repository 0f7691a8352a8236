-- ===== src/Sync.antt =====
-- kernel/sync.c: mutexes, as steps of threads on one processor. A step is a part of a call that no other
-- thread can observe a half of: a section with interrupts off, or writes to fields that only the holder
-- uses. A thread is named by a number, and where it stands in a call by a `Pc`.
pub mod Invariant
mod Tests
use fizzos.Base.{
  ℕ, zero, suc, ◌+◌, ◌-◌, ◌%◌, ◌^◌, ◌≡◌, Bool, true, false, Option, none, some, List, [], ◌∷◌, ◌++◌,
  Outcome, ok, panic, ◌>>=◌, ◌>>◌, assert, ◌==◌, if◌then◌else◌, update,
}

-- `holder` is none for NULL.
pub record MutexLock : Type 0 where
  pub wait_list : List ℕ
  pub is_lock : Bool
  pub holder : Option ℕ
  pub repeat : ℕ

pub mutex_lock_init : MutexLock
mutex_lock_init = record { wait_list = []; is_lock = false; holder = none; repeat = 0 }

-- `running` is outside of the two calls, and does not hold the mutex; `holding` is outside and holds it.
-- `trying` is before the exchange of mutex_acquire, `waiting` in thread_block, `entered` behind the
-- loop. `leaving` is in mutex_release before the exchange, `waking` before thread_unblock.
pub data Pc : Type 0 where
  running : Pc
  trying : Pc
  waiting : Pc
  entered : Pc
  holding : Pc
  leaving : Pc
  waking : ℕ → Pc

pub record State : Type 0 where
  pub mutex : MutexLock
  pub pc : ℕ → Pc

abbrev pub is_holder : ℕ → Option ℕ → Bool
is_holder t none = false
is_holder t (some h) = h == t

-- mutex_acquire up to its loop: the holder counts one call more.
pub acquire_enter : ℕ → State → State
acquire_enter t s =
    if is_holder t s.mutex.holder
    then record s { mutex = record s.mutex { repeat = (s.mutex.repeat + 1) % 2 ^ 32 } }
    else record s { pc = update s.pc t trying }

-- One round of the loop: the exchange and, if the mutex was locked, going to sleep.
pub acquire_round : ℕ → State → State
acquire_round t s =
    if s.mutex.is_lock
    then record {
      mutex = record s.mutex { is_lock = true; wait_list = s.mutex.wait_list ++ (t ∷ []) };
      pc = update s.pc t waiting;
    }
    else record { mutex = record s.mutex { is_lock = true }; pc = update s.pc t entered }

-- Behind the loop.
pub acquire_own : ℕ → State → State
acquire_own t s = record {
  mutex = record s.mutex { holder = some t; repeat = 1 };
  pc = update s.pc t holding;
}

-- mutex_release up to the exchange. The count is unsigned, so it is never below 0.
pub release_enter : ℕ → State → Outcome State
release_enter t s =
    let repeat = (s.mutex.repeat + 2 ^ 32 - 1) % 2 ^ 32 in
    assert (is_holder t s.mutex.holder)
    >> (if repeat == 0
        then ok (record {
          mutex = record s.mutex { holder = none; repeat = 0 };
          pc = update s.pc t leaving;
        })
        else ok (record s { mutex = record s.mutex { repeat = repeat } }))

-- Where the thread goes with what list_pop_front returned.
abbrev pub after_pop : List ℕ → Pc
after_pop [] = running
after_pop (w ∷ rest) = waking w

abbrev pub behind_front : List ℕ → List ℕ
behind_front [] = []
behind_front (w ∷ rest) = rest

-- The exchange of mutex_release.
pub release_unlock : ℕ → State → Outcome State
release_unlock t s =
    assert s.mutex.is_lock
    >> ok (record {
      mutex = record s.mutex { is_lock = false; wait_list = behind_front s.mutex.wait_list };
      pc = update s.pc t (after_pop s.mutex.wait_list);
    })

-- Only a thread that sleeps moves on when it is unblocked: from thread_block into the loop.
abbrev pub woken : Pc → Pc
woken running = running
woken trying = trying
woken waiting = trying
woken entered = entered
woken holding = holding
woken leaving = leaving
woken (waking w) = waking w

-- thread_unblock, the end of mutex_release.
pub release_wake : ℕ → ℕ → State → State
release_wake t w s = let pc = update s.pc t running in record s { pc = update pc w (woken (pc w)) }

-- Where a thread can call.
abbrev pub can_call : Pc → Bool
can_call running = true
can_call holding = true
can_call trying = false
can_call waiting = false
can_call entered = false
can_call leaving = false
can_call (waking w) = false

-- Any thread takes the next step, at any time.
pub data Step : State → State → Type 0 where
  to_acquire : {s : State} (t : ℕ) → can_call (s.pc t) ≡ true → Step s (acquire_enter t s)
  to_round : {s : State} (t : ℕ) → s.pc t ≡ trying → Step s (acquire_round t s)
  to_own : {s : State} (t : ℕ) → s.pc t ≡ entered → Step s (acquire_own t s)
  to_release :
      {s s' : State} (t : ℕ) → can_call (s.pc t) ≡ true → release_enter t s ≡ ok s' → Step s s'
  to_unlock : {s s' : State} (t : ℕ) → s.pc t ≡ leaving → release_unlock t s ≡ ok s' → Step s s'
  to_wake : {s : State} (t w : ℕ) → s.pc t ≡ waking w → Step s (release_wake t w s)

-- The states that threads can bring about, from a fresh mutex.
pub data Reachable : State → Type 0 where
  fresh : Reachable (record { mutex = mutex_lock_init; pc = λ t. running })
  next : {s s' : State} → Reachable s → Step s s' → Reachable s'
