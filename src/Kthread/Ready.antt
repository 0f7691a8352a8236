-- ===== src/Kthread/Ready.antt =====
-- Who is on the ready list of kernel/kthread.c.
use fizzos.Base.{
  ℕ, ◌+◌, ◌%◌, ◌^◌, ◌≡◌, ◌≢◌, refl, sym, ap, ◌∙◌, Bool, true, false, List, [], ◌∷◌, ◌++◌, Returns,
  IfOk, Returns→IfOk, ◌==◌, arith, Bool-cases, inl, inr, subst, ne→==_false, update, ==_refl,
}
use fizzos.Kthread.Fifo.{schedule_panic, fork_panic}
use fizzos.Dlist.Chain.{has, has-append, Distinct}
use fizzos.Kthread.{
  Task, Kernel, TaskState, running, ready, blocked_state, exit, stack_magic_value, set_state,
  push_ready, put_aside, dispatch, schedule, Event, tick, block, yield_cpu, finish, unblock, create,
  fork, perform, do_fork,
}

-- The threads of the ready list are ready, and each is there once.
pub record IsQueued (k : Kernel) : Type 0 where
  pub distinct : Distinct k.ready_list
  pub waiting : (t : ℕ) → has t k.ready_list ≡ true → (k.task t).state ≡ ready

-- With that, the current thread is running.
pub record IsSound (k : Kernel) : Type 0 where
  pub queued : IsQueued k
  pub current : (k.task k.current).state ≡ running

abbrev is_running : TaskState → Bool
is_running running = true
is_running ready = false
is_running blocked_state = false
is_running exit = false

-- A thread that is not ready is not on the list.
not_queued :
    (k : Kernel) (t : ℕ) → IsQueued k → ((k.task t).state ≡ ready → ⊥) → has t k.ready_list ≡ false
not_queued k t q ne = elim (Bool-cases (has t k.ready_list)) [
  | inl h ↦ absurd (ne (q.waiting t h))
  | inr h ↦ h
]

current_not_queued : (k : Kernel) → IsSound k → has k.current k.ready_list ≡ false
current_not_queued k s =
    not_queued k k.current s.queued
      (λ e. absurd (ground (arith, ap is_running (sym s.current ∙ e))))

Distinct-snoc : (xs : List ℕ) (t : ℕ) → Distinct xs → has t xs ≡ false → Distinct (xs ++ (t ∷ []))
Distinct-snoc [] t d h = (refl, tt)
Distinct-snoc (x ∷ xs) t d h =
    (ground (arith, has-append x xs (t ∷ []), d.0), Distinct-snoc xs t d.1 (ground arith))

-- A new task at the end of the list, in the state of a ready one.
queue_up :
    (k : Kernel) (t : ℕ) (new : Task)
    → IsQueued k
    → has t k.ready_list ≡ false
    → new.state ≡ ready
    → IsQueued (push_ready t (record k { task = update k.task t new }))
queue_up k t new q out e = record {
  distinct = Distinct-snoc k.ready_list t q.distinct out;
  waiting = λ u h. elim (Bool-cases (u == t)) [
    | inl same ↦ rw same e
    | inr apart ↦ rw apart (q.waiting u (ground (arith, has-append u k.ready_list (t ∷ []))))
  ];
}

-- A change of a task that is not on the list.
change_out :
    (k : Kernel) (t : ℕ) (new : Task)
    → IsQueued k
    → has t k.ready_list ≡ false
    → IsQueued (record k { task = update k.task t new })
change_out k t new q out = record {
  distinct = q.distinct;
  waiting = λ u h. elim (Bool-cases (u == t)) [
    | inl same ↦ absurd (ground arith)
    | inr apart ↦ rw apart (q.waiting u h)
  ];
}

dispatch-IsSound :
    (l : List ℕ) (k : Kernel) → k.ready_list ≡ l → IsQueued k → IsSound (dispatch l k)
unfolding dispatch
dispatch-IsSound [] k e q = record {
  queued = record { distinct = tt; waiting = λ u h. absurd (ground arith) };
  current = rw (==_refl k.idle) refl;
}
dispatch-IsSound (t ∷ rest) k e q =
    let d : Distinct (t ∷ rest) = subst (Distinct) e q.distinct in
    record {
      queued = record {
        distinct = d.1;
        waiting = λ u h. elim (Bool-cases (u == t)) [
          | inl same ↦ absurd (ground (arith, d.0))
          | inr apart ↦ rw apart (q.waiting u (ap (has u) e ∙ ground arith))
        ];
      };
      current = rw (==_refl t) refl;
    }

schedule-IsSound :
    (k : Kernel)
    → (k.task k.current).state ≢ running
    → IsQueued k
    → Returns IsSound (schedule false k)
unfolding schedule put_aside
schedule-IsSound k ne q = by_state (k.task k.current).state refl
  where
    by_state :
        (st : TaskState)
        → (k.task k.current).state ≡ st
        → let k' = put_aside st k in IsSound (dispatch k'.ready_list k')
    by_state running e = absurd (ne e)
    by_state ready e = dispatch-IsSound k.ready_list k refl q
    by_state blocked_state e = dispatch-IsSound k.ready_list k refl q
    by_state exit e =
        dispatch-IsSound k.ready_list (record k { freed = k.current ∷ k.freed }) refl
          (record { distinct = q.distinct; waiting = q.waiting })

-- A thread whose time is over goes to the end of the list.
preempt-IsSound :
    (k : Kernel)
    → IsQueued k
    → has k.current k.ready_list ≡ false
    → (k.task k.current).state ≡ running
    → Returns IsSound (schedule false k)
unfolding schedule put_aside
preempt-IsSound k q out e =
    subst (λ st. let k' = put_aside st k in IsSound (dispatch k'.ready_list k')) (sym e)
      (dispatch-IsSound _ _ refl (queue_up k k.current _ q out refl))

ne_running : (st : TaskState) → is_running st ≡ false → st ≢ running
ne_running st h e = ground (arith, ap is_running e)

-- The running thread gives up the processor in another state.
leave-IsSound :
    (k : Kernel) (st : TaskState)
    → IsSound k
    → is_running st ≡ false
    → Returns IsSound (schedule false (set_state k.current st k))
leave-IsSound k st s h =
    schedule-IsSound (set_state k.current st k) (ne_running _ (rw (==_refl k.current) h)) (
      change_out k k.current (record (k.task k.current) { state = st }) s.queued
        (current_not_queued k s))

-- An event that fits the state: only a blocked thread is woken, and only a thread that is not known
-- yet is created or forked.
abbrev pub Fits : Event → Kernel → Type 0
Fits tick k = Unit
Fits block k = Unit
Fits yield_cpu k = Unit
Fits (finish intr_on) k = Unit
Fits (unblock t) k = (k.task t).state ≡ blocked_state
Fits (create t prio) k = (has t k.ready_list ≡ false) × (t ≢ k.current)
Fits (fork intr_on t) k = (has t k.ready_list ≡ false) × (t ≢ k.current)

not_ready : (st : TaskState) → st ≡ blocked_state → st ≡ ready → ⊥
not_ready st e f = absurd (ground (arith, ap is_blocked (sym e ∙ f)))
  where
    is_blocked : TaskState → Bool
    is_blocked running = false
    is_blocked ready = false
    is_blocked blocked_state = true
    is_blocked exit = false

-- A thread that joins the list while another runs.
join-IsSound :
    (k : Kernel) (t : ℕ) (new : Task)
    → IsSound k
    → has t k.ready_list ≡ false
    → t ≢ k.current
    → new.state ≡ ready
    → IsSound (push_ready t (record k { task = update k.task t new }))
join-IsSound k t new s out ne e = record {
  queued = queue_up k t new s.queued out e;
  current = rw (ne→==_false k.current t (λ f. ne (sym f))) s.current;
}

-- A thread that goes to the front of the list.
queue_front :
    (k : Kernel) (t : ℕ) (new : Task)
    → IsQueued k
    → has t k.ready_list ≡ false
    → new.state ≡ ready
    → IsQueued (record k { task = update k.task t new; ready_list = t ∷ k.ready_list })
queue_front k t new q out e = record {
  distinct = (out, q.distinct);
  waiting = λ u h. elim (Bool-cases (u == t)) [
    | inl same ↦ rw same e
    | inr apart ↦ rw apart (q.waiting u (ground arith))
  ];
}

fork-IsSound :
    (k : Kernel) (t : ℕ)
    → IsSound k
    → has t k.ready_list ≡ false
    → t ≢ k.current
    → Returns IsSound (do_fork false t k)
unfolding do_fork
fork-IsSound k t s out ne =
    preempt-IsSound _
      (queue_front k t (record (k.task k.current) { state = ready }) s.queued out refl)
      (rw (apart, current_not_queued k s) refl) (rw apart s.current)
  where
    apart : k.current == t ≡ false
    apart = ne→==_false k.current t (λ e. ne (sym e))

-- The clock changes only counters of the running thread.
count_tick :
    (k : Kernel) (new : Task) (n : ℕ)
    → IsSound k
    → new.state ≡ (k.task k.current).state
    → IsSound (record k { ticks = n; task = update k.task k.current new })
count_tick k new n s e =
    let q = change_out k k.current new s.queued (current_not_queued k s) in
    record {
      queued = record { distinct = q.distinct; waiting = q.waiting };
      current = rw (==_refl k.current) (e ∙ s.current);
    }

tick-IsSound : (k : Kernel) → IsSound k → IfOk IsSound (perform tick k)
unfolding perform
tick-IsSound k s = elim (Bool-cases ((k.task k.current).stack_magic == stack_magic_value)) [
  | inr broken ↦ rw broken tt
  | inl whole ↦ rw whole (elim (Bool-cases ((k.task k.current).ticks == 0)) [
    | inl over ↦ rw over (
        Returns→IfOk IsSound _
          (preempt-IsSound _ counted.queued (current_not_queued _ counted) counted.current))
    | inr left ↦
        rw left (count_tick _ _ ((k.ticks + 1) % 2 ^ 32) counted (rw (==_refl k.current) refl))
  ])
]
  where
    counted : IsSound (record k {
      ticks = (k.ticks + 1) % 2 ^ 32;
      task = update k.task k.current (record (k.task k.current) {
        elapsed_ticks = ((k.task k.current).elapsed_ticks + 1) % 2 ^ 32;
      });
    })
    counted = count_tick k _ ((k.ticks + 1) % 2 ^ 32) s refl

-- Every event, where a thread that is woken sleeps and a new one is neither current nor ready, keeps the
-- ready list a list of different ready threads and the current thread running, unless it stops in an
-- assertion.
pub perform-IsSound : (e : Event) (k : Kernel) → Fits e k → IsSound k → IfOk IsSound (perform e k)
unfolding perform
perform-IsSound tick k f s = tick-IsSound k s
perform-IsSound block k f s = Returns→IfOk IsSound _ (leave-IsSound k blocked_state s refl)
perform-IsSound yield_cpu k f s = Returns→IfOk IsSound _ (
    schedule-IsSound _ (ne_running _ (rw (==_refl k.current) refl))
      (queue_up k k.current _ s.queued (current_not_queued k s) refl))
perform-IsSound (finish true) k f s = rw (schedule_panic (set_state k.current exit k)) tt
perform-IsSound (finish false) k f s = Returns→IfOk IsSound _ (leave-IsSound k exit s refl)
perform-IsSound (unblock t) k f s =
    join-IsSound k t _ s (not_queued k t s.queued (not_ready _ f))
      (λ e.
        absurd (ground (arith, ap is_running (sym f ∙ ap (λ u. (k.task u).state) e ∙ s.current))))
      refl
perform-IsSound (create t prio) k f s = join-IsSound k t _ s f.0 f.1 refl
perform-IsSound (fork true t) k f s = rw (fork_panic t k) tt
perform-IsSound (fork false t) k f s = Returns→IfOk IsSound _ (fork-IsSound k t s f.0 f.1)
