-- ===== src/Rwlock/Exclusion.antt =====
-- Readers and writers exclude each other in every state that threads can bring about.
use mathlib.Core.Bool.{true≢false}
use fizzos.Base.{
  ℕ, suc, ◌+◌, ◌^◌, ◌≡◌, ◌<◌, refl, sym, Bool, true, false, not, ◌||◌, ◌&&◌, List, Outcome, panic,
  Returns, ◌==◌, length, remove_elem, contains, length-remove_elem, arith, ◌⊎◌, inl, inr,
  Bool-cases, subst, assert, ◌>>◌, IfOk, Returns→IfOk, Returns-mono, ◌≤◌,
}
use fizzos.Rwlock.{
  Rwlock, rwlock_init, is_negative, minus_one, inc32, dec32, Round, sleeps, returns, read_round,
  wake_one, rwlock_read_release, write_round, rwlock_write_release, State, Step, to_read,
  to_wait_read, to_end_read, to_write, to_wait_write, to_end_write, Reachable, fresh, next,
}

-- What the count says: `r` readers and nobody writes, or one writer and nobody reads.
abbrev pub Counted : ℕ → ℕ → ℕ → Type 0
Counted c r w = ((w ≡ 0) × (c ≡ r) × (r < 2 ^ 31)) ⊎ ((w ≡ 1) × (r ≡ 0) × (c ≡ minus_one))

abbrev pub IsCounted : State → Type 0
IsCounted s = Counted s.lock.count (length s.readers) (length s.writers)

wake_one-count : (l : Rwlock) → (wake_one l).1.count ≡ l.count
unfolding wake_one
wake_one-count l = elim (Bool-cases (length l.write_waiter_list == 0)) [
  | inl e ↦ rw e refl
  | inr e ↦ rw e refl
]

-- What a round leaves where it sleeps and where it returns.
abbrev RoundIs : (Rwlock → Type 0) → (Rwlock → Type 0) → Round → Type 0
RoundIs P Q (sleeps l) = P l
RoundIs P Q (returns l) = Q l

read_round-Counted :
    (t : ℕ) (l : Rwlock) (r w : ℕ)
    → Counted l.count r w
    → RoundIs
        (λ l'. l'.count ≡ l.count)
        (λ l'. r + 1 < 2 ^ 31 → Counted l'.count (suc r) w)
        (read_round t l)
unfolding read_round is_negative
read_round-Counted t l r w inv = elim (Bool-cases (is_negative l.count || l.ready_write)) [
  | inl waits ↦ rw waits refl
  | inr free ↦
      rw free
        (λ small. count_more l.count r w inv (left (is_negative l.count) l.ready_write free) small)
]
  where
    left : (a b : Bool) → a || b ≡ false → a ≡ false
    left true b h = absurd (true≢false h)
    left false b h = refl

    count_more :
        (c r w : ℕ)
        → Counted c r w
        → is_negative c ≡ false
        → r + 1 < 2 ^ 31
        → Counted (inc32 c) (suc r) w
    count_more c r w h pos small = ground arith

write_round-Counted :
    (t : ℕ) (l : Rwlock) (r w : ℕ)
    → Counted l.count r w
    → RoundIs (λ l'. l'.count ≡ l.count) (λ l'. Counted l'.count r (suc w)) (write_round t l)
unfolding write_round
write_round-Counted t l r w inv = elim (Bool-cases (l.count == 0)) [
  | inl free ↦ rw free (lower l.count r w inv free)
  | inr waits ↦ rw waits refl
]
  where
    lower : (c r w : ℕ) → Counted c r w → c == 0 ≡ true → Counted (dec32 c) r (suc w)
    lower c r w h free = ground arith

-- A reader's release of a lock that readers hold never fails.
read_release-Counted :
    (l : Rwlock) (r w : ℕ)
    → Counted l.count (suc r) w
    → Returns (λ after. Counted (after.1.count) r w) (rwlock_read_release l)
unfolding rwlock_read_release is_negative
read_release-Counted l r w inv = rw (held l.count r w inv) (elim (Bool-cases (dec32 l.count == 0)) [
  | inl last ↦
      rw (last, wake_one-count (record l { count = dec32 l.count })) (fewer l.count r w inv)
  | inr more ↦ rw more (fewer l.count r w inv)
])
  where
    held : (c r w : ℕ) → Counted c (suc r) w → (not (is_negative c) && not (c == 0)) ≡ true
    held c r w h = ground arith

    fewer : (c r w : ℕ) → Counted c (suc r) w → Counted (dec32 c) r w
    fewer c r w h = ground arith

-- A writer's release of a lock that a writer holds fails just where no writer has waited.
ready_release :
    (l : Rwlock) (r w : ℕ)
    → Counted l.count r (suc w)
    → l.ready_write ≡ true
    → Returns (λ after. Counted (after.1.count) r w) (rwlock_write_release l)
unfolding rwlock_write_release
ready_release l r w inv ready =
    rw (ready, alone l.count r w inv)
      (elim (Bool-cases (length l.write_waiter_list == 0)) [
        | inl none_left ↦ rw none_left (fewer l.count r w inv)
        | inr some_left ↦ rw some_left (fewer l.count r w inv)
      ])
  where
    alone : (c r w : ℕ) → Counted c r (suc w) → (c == minus_one) ≡ true
    alone c r w h = ground arith

    fewer : (c r w : ℕ) → Counted c r (suc w) → Counted (inc32 c) r w
    fewer c r w h = ground arith

-- Nobody has waited to write: the assertion on `ready_write` fails.
unready_release : (l : Rwlock) → l.ready_write ≡ false → rwlock_write_release l ≡ panic
unfolding rwlock_write_release
unready_release l h = rw h (never (l.count == minus_one) _)
  where
    never : (b : Bool) (x : Outcome (List ℕ × Rwlock)) → (assert (b && false) >> x) ≡ panic
    never true x = refl
    never false x = refl

write_release-Counted :
    (l : Rwlock) (r w : ℕ)
    → Counted l.count r (suc w)
    → IfOk (λ after. Counted (after.1.count) r w) (rwlock_write_release l)
write_release-Counted l r w inv = elim (Bool-cases l.ready_write) [
  | inl ready ↦
      Returns→IfOk (λ after. Counted (after.1.count) r w) (rwlock_write_release l)
        (ready_release l r w inv ready)
  | inr unready ↦ rw (unready_release l unready) tt
]

one_held :
    (t : ℕ) (xs : List ℕ) → contains t xs ≡ true → length xs ≡ suc (length (remove_elem t xs))
one_held t xs held = omega (arith, length-remove_elem t xs held)

IsCounted-Step : {s s' : State} → IsCounted s → Step s s' → IsCounted s'
IsCounted-Step {s} inv (to_read t small run) =
    subst
      (RoundIs (λ l. l.count ≡ s.lock.count)
        (λ l.
          length s.readers + 1 < 2 ^ 31
          → Counted l.count (suc (length s.readers)) (length s.writers)))
      run (read_round-Counted t s.lock (length s.readers) (length s.writers) inv) small
IsCounted-Step {s} inv (to_wait_read t run) =
    subst (λ (c : ℕ). Counted c (length s.readers) (length s.writers))
      (sym (
        subst
          (RoundIs (λ l. l.count ≡ s.lock.count)
            (λ l.
              length s.readers + 1 < 2 ^ 31
              → Counted l.count (suc (length s.readers)) (length s.writers)))
          run (read_round-Counted t s.lock (length s.readers) (length s.writers) inv)))
      inv
IsCounted-Step {s} inv (to_end_read t woken held run) =
    let left = remove_elem t s.readers in
    subst (Returns (λ after. Counted (after.1.count) (length left) (length s.writers))) run (
      read_release-Counted s.lock (length left) (length s.writers) (
        subst (λ (r : ℕ). Counted s.lock.count r (length s.writers)) (one_held t s.readers held)
          inv))
IsCounted-Step {s} inv (to_write t run) =
    subst
      (RoundIs (λ l. l.count ≡ s.lock.count)
        (λ l. Counted l.count (length s.readers) (suc (length s.writers))))
      run (write_round-Counted t s.lock (length s.readers) (length s.writers) inv)
IsCounted-Step {s} inv (to_wait_write t run) =
    subst (λ (c : ℕ). Counted c (length s.readers) (length s.writers))
      (sym (
        subst
          (RoundIs (λ l. l.count ≡ s.lock.count)
            (λ l. Counted l.count (length s.readers) (suc (length s.writers))))
          run (write_round-Counted t s.lock (length s.readers) (length s.writers) inv)))
      inv
IsCounted-Step {s} inv (to_end_write t woken held run) =
    let left = remove_elem t s.writers in
    subst (IfOk (λ after. Counted (after.1.count) (length s.readers) (length left))) run (
      write_release-Counted s.lock (length s.readers) (length left) (
        subst (λ (w : ℕ). Counted s.lock.count (length s.readers) w) (one_held t s.writers held)
          inv))

pub Reachable-IsCounted : (s : State) → Reachable s → IsCounted s
unfolding rwlock_init
Reachable-IsCounted _ fresh = inl (refl, refl, omega arith)
Reachable-IsCounted _ (next from step) = IsCounted-Step (Reachable-IsCounted _ from) step

-- In every state that threads can reach, at most one thread writes, and while one writes nobody reads.
pub readers_writers_exclusive :
    (s : State)
    → Reachable s
    → (length s.writers ≤ 1) × (0 < length s.writers → length s.readers ≡ 0)
readers_writers_exclusive s from = ground (arith, Reachable-IsCounted s from)

-- In every state that threads can reach, the release of a thread that reads returns.
pub read_release-ok :
    (s : State) (t : ℕ)
    → Reachable s
    → contains t s.readers ≡ true
    → Returns (λ after. after.1.count + 1 ≡ s.lock.count) (rwlock_read_release s.lock)
read_release-ok s t from held =
    Returns-mono
      (λ after. Counted (after.1.count) (length (remove_elem t s.readers)) (length s.writers))
      (λ after. after.1.count + 1 ≡ s.lock.count) (rwlock_read_release s.lock)
      (read_release-Counted s.lock (length (remove_elem t s.readers)) (length s.writers) inv)
      (λ after h. counts (length (remove_elem t s.readers)) (length s.writers) inv h)
  where
    inv : Counted s.lock.count (suc (length (remove_elem t s.readers))) (length s.writers)
    inv =
        subst (λ (r : ℕ). Counted s.lock.count r (length s.writers)) (one_held t s.readers held)
          (Reachable-IsCounted s from)

    counts : {c c' : ℕ} (r w : ℕ) → Counted c (suc r) w → Counted c' r w → c' + 1 ≡ c
    counts r w before after = ground arith

-- In every state that threads can reach, the release of the thread that writes returns if `ready_write`
-- is set, and stops the kernel if it is not, as after rwlock_write_acquire of a lock that is free.
pub write_release_cases :
    (s : State) (t : ℕ)
    → Reachable s
    → contains t s.writers ≡ true
    → (s.lock.ready_write ≡ true
        → Returns (λ after. after.1.count ≡ 0) (rwlock_write_release s.lock))
      × (s.lock.ready_write ≡ false → rwlock_write_release s.lock ≡ panic)
write_release_cases s t from held = (
  λ ready.
      Returns-mono
        (λ after. Counted (after.1.count) (length s.readers) (length (remove_elem t s.writers)))
        (λ after. after.1.count ≡ 0) (rwlock_write_release s.lock)
        (ready_release s.lock (length s.readers) (length (remove_elem t s.writers)) inv ready)
        (λ after h. counts (length s.readers) (length (remove_elem t s.writers)) inv h),
  unready_release s.lock,
)
  where
    inv : Counted s.lock.count (length s.readers) (suc (length (remove_elem t s.writers)))
    inv =
        subst (λ (w : ℕ). Counted s.lock.count (length s.readers) w) (one_held t s.writers held)
          (Reachable-IsCounted s from)

    counts : {c c' : ℕ} (r w : ℕ) → Counted c r (suc w) → Counted c' r w → c' ≡ 0
    counts r w before after = ground arith

-- A thread that takes a free lock to write, with no writer that has waited, does so without waiting, and
-- its release then stops the kernel.
pub uncontended_write-panic :
    (t : ℕ) (l : Rwlock)
    → l.count ≡ 0
    → l.ready_write ≡ false
    → (l' : Rwlock) × (write_round t l ≡ returns l') × (rwlock_write_release l' ≡ panic)
unfolding write_round
uncontended_write-panic t l free unready = (
  record l { count = dec32 l.count },
  rw (==-true l.count 0 free) refl,
  unready_release (record l { count = dec32 l.count }) unready,
)
  where
    ==-true : (a b : ℕ) → a ≡ b → a == b ≡ true
    ==-true a b e = ground arith
