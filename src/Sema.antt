-- ===== src/Sema.antt =====
-- kernel/sync.c: semaphores, with the counters of include/kernel/atomic.h that they use. A count is an
-- int, kept as the number of 32 bits with its pattern; a conditional set of atomic.h looks at the sign
-- of the exact result, also where it overflows. Threads are named by numbers.
pub mod Permits
mod Tests
use fizzos.Base.{
  ℕ, zero, suc, ◌+◌, ◌-◌, ◌%◌, ◌^◌, ◌≡◌, ◌<◌, Bool, true, false, not, ◌||◌, ◌&&◌, List, [], ◌∷◌,
  ◌++◌, Outcome, ok, panic, fault, ◌>>◌, assert, ◌==◌, leb, if◌then◌else◌, length,
}

-- An int below 0.
abbrev pub is_negative : ℕ → Bool
is_negative n = leb (2 ^ 31) n

pub atomic_inc : ℕ → ℕ
atomic_inc c = (c + 1) % 2 ^ 32

-- The new count, and whether the exact sum is above 0.
pub atomic_inc_and_setg : ℕ → ℕ × Bool
unfolding atomic_inc
atomic_inc_and_setg c =
    let r = atomic_inc c in (r, (not (is_negative r) && not (r == 0)) || (r == 2 ^ 31))

-- The new count, and whether the exact difference is 0 or more.
pub atomic_dec_and_setge : ℕ → ℕ × Bool
atomic_dec_and_setge c =
    let r = (c + 2 ^ 32 - 1) % 2 ^ 32 in (r, not (is_negative r) && not (r == 2 ^ 31 - 1))

pub record Semaphore : Type 0 where
  pub count : ℕ
  pub wait_list : List ℕ

pub sema_init : ℕ → Semaphore
sema_init val = record { count = val; wait_list = [] }

-- sema_wait, with interrupts off: whether the thread goes on at once; if not, it is put in the list and
-- sleeps in thread_block.
pub sema_wait : ℕ → Semaphore → Bool × Semaphore
unfolding atomic_dec_and_setge
sema_wait t s =
    let (r, ge) = atomic_dec_and_setge s.count in
    if ge
    then (true, record s { count = r })
    else (false, record { count = r; wait_list = s.wait_list ++ (t ∷ []) })

-- The counter of sema_post: whether a thread is to be woken.
pub post_count : Semaphore → Bool × Semaphore
unfolding atomic_inc_and_setg
post_count s = let (r, g) = atomic_inc_and_setg s.count in (not g, record s { count = r })

-- The rest of sema_post: the thread that thread_unblock is called with. A list without elements gives
-- NULL, which is no thread.
pub post_wake : Semaphore → Outcome (ℕ × Semaphore)
post_wake s = elim s.wait_list [
  | [] ↦ fault
  | w ∷ (rest → more) ↦ ok (w, record s { wait_list = rest })
]

pub sema_trywait : Semaphore → Bool × Semaphore
unfolding atomic_dec_and_setge atomic_inc
sema_trywait s =
    let (r, ge) = atomic_dec_and_setge s.count in
    if ge then (true, record s { count = r }) else (false, record s { count = atomic_inc r })

pub sema_destory : Semaphore → Outcome (Unit {0})
sema_destory s = assert (length s.wait_list == 0)

-- A semaphore with what its threads have done: `posting` threads are in sema_post behind the counter,
-- `passed` is how many calls of sema_wait and sema_trywait have got through, `posts` how many calls of
-- sema_post were made.
pub record State : Type 0 where
  pub sem : Semaphore
  pub posting : ℕ
  pub passed : ℕ
  pub posts : ℕ

abbrev pub counted : Bool → ℕ → ℕ
counted b n = if b then n + 1 else n

-- Any thread takes the next step. Fewer than 2 ^ 31 threads wait, and fewer than 2 ^ 31 permits are given.
pub data Step (val : ℕ) : State → State → Type 0 where
  to_wait :
      {s : State} (t : ℕ)
      → length s.sem.wait_list + 1 < 2 ^ 31
      → Step val s (record s {
        sem = (sema_wait t s.sem).1;
        passed = counted (sema_wait t s.sem).0 s.passed;
      })
  to_trywait :
      {s : State}
      → length s.sem.wait_list + 1 < 2 ^ 31
      → Step val s (record s {
        sem = (sema_trywait s.sem).1;
        passed = counted (sema_trywait s.sem).0 s.passed;
      })
  to_post :
      {s : State}
      → val + s.posts + 1 < 2 ^ 31
      → Step val s (record {
        sem = (post_count s.sem).1;
        posting = counted (post_count s.sem).0 s.posting;
        passed = s.passed;
        posts = s.posts + 1;
      })
  to_wake :
      {s : State} {sem : Semaphore} (posting w : ℕ)
      → s.posting ≡ posting + 1
      → post_wake s.sem ≡ ok (w, sem)
      → Step val s (record { sem = sem; posting = posting; passed = s.passed + 1; posts = s.posts })

-- The states that threads can bring about, from a semaphore with the value `val`.
pub data Reachable (val : ℕ) : State → Type 0 where
  fresh :
      val < 2 ^ 31
      → Reachable val (record { sem = sema_init val; posting = 0; passed = 0; posts = 0 })
  next : {s s' : State} → Reachable val s → Step val s s' → Reachable val s'
