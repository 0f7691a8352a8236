-- ===== src/Kthread/Fifo.antt =====
-- The ready list of kernel/kthread.c is a queue: its threads get the processor in their order.
use fizzos.Base.{
  ℕ, ◌<◌, ◌≡◌, refl, sym, ap, ◌∙◌, Bool, true, false, some, List, [], ◌∷◌, ◌++◌, append_assoc,
  append-nil, Outcome, ok, panic, fault, blocked, out_of_fuel, Returns, Returns-mono, IfOk,
  Returns→IfOk, ◌==◌, length, get_elem?, subst, arith, Bool-cases, inl, inr,
}
use fizzos.Kthread.{
  Kernel, TaskState, running, ready, blocked_state, exit, stack_magic_value, set_state, put_aside,
  dispatch, do_fork, schedule, Event, tick, block, yield_cpu, finish, unblock, create, fork,
  perform, takes_turn, go_on, dispatched,
}

-- More threads behind those of `xs`.
abbrev Extends : List ℕ → List ℕ → Type 0
Extends xs ys = (extra : List ℕ) × (ys ≡ xs ++ extra)

put_aside-Extends : (st : TaskState) (k : Kernel) → Extends k.ready_list (put_aside st k).ready_list
unfolding put_aside
put_aside-Extends running k = (k.current ∷ [], refl)
put_aside-Extends ready k = ([], sym (append-nil k.ready_list))
put_aside-Extends blocked_state k = ([], sym (append-nil k.ready_list))
put_aside-Extends exit k = ([], sym (append-nil k.ready_list))

-- The first thread runs, and the others wait as before, with more behind them.
abbrev Took : List ℕ → Kernel → Type 0
Took [] k = Unit
Took (t ∷ rest) k = (k.current ≡ t) × Extends rest k.ready_list

dispatch-Took : (l : List ℕ) (k : Kernel) → Took l (dispatch l k)
unfolding dispatch
dispatch-Took [] k = tt
dispatch-Took (t ∷ rest) k = (refl, ([], sym (append-nil rest)))

Took-append : (l extra : List ℕ) (k : Kernel) → Took (l ++ extra) k → Took l k
Took-append [] extra k h = tt
Took-append (t ∷ rest) extra k (e, (more, f)) =
    (e, (extra ++ more, f ∙ append_assoc rest extra more))

schedule-Took : (k : Kernel) → Returns (Took k.ready_list) (schedule false k)
unfolding schedule
schedule-Took k =
    let (extra, e) = put_aside-Extends (k.task k.current).state k in
    let k' = put_aside (k.task k.current).state k in
    Took-append k.ready_list extra (dispatch k'.ready_list k')
      (subst (λ l. Took l (dispatch k'.ready_list k')) e (dispatch-Took k'.ready_list k'))

pub schedule_panic : (k : Kernel) → schedule true k ≡ panic
unfolding schedule
schedule_panic k = refl

pub fork_panic : (t : ℕ) (k : Kernel) → do_fork true t k ≡ panic
unfolding do_fork schedule
fork_panic t k = refl

-- What an event does to the ready list `l`, if it takes a turn and if it does not.
abbrev Advanced : Bool → List ℕ → Kernel → Type 0
Advanced true l k = Took l k
Advanced false l k = Extends l k.ready_list

perform-Advanced :
    (e : Event) (k : Kernel) → IfOk (Advanced (takes_turn e k) k.ready_list) (perform e k)
unfolding perform takes_turn
perform-Advanced tick k = elim (Bool-cases ((k.task k.current).stack_magic == stack_magic_value)) [
  | inr broken ↦ rw broken tt
  | inl whole ↦ rw whole (elim (Bool-cases ((k.task k.current).ticks == 0)) [
    | inl over ↦ rw over (Returns→IfOk (Took k.ready_list) _ (schedule-Took _))
    | inr left ↦ rw left ([], sym (append-nil k.ready_list))
  ])
]
perform-Advanced block k = Returns→IfOk (Took k.ready_list) _ (schedule-Took _)
perform-Advanced yield_cpu k = Returns→IfOk (Took k.ready_list) _ (
    Returns-mono (Took (k.ready_list ++ (k.current ∷ []))) (Took k.ready_list) _ (schedule-Took _)
      (λ k' h. Took-append k.ready_list (k.current ∷ []) k' h))
perform-Advanced (finish true) k = rw (schedule_panic (set_state k.current exit k)) tt
perform-Advanced (finish false) k = Returns→IfOk (Took k.ready_list) _ (schedule-Took _)
perform-Advanced (unblock t) k = (t ∷ [], refl)
perform-Advanced (create t prio) k = (t ∷ [], refl)
perform-Advanced (fork true t) k = rw (fork_panic t k) tt
perform-Advanced (fork false t) k =
    Returns→IfOk (λ k'. Extends k.ready_list k'.ready_list) _
      (Returns-mono (Took (t ∷ k.ready_list)) (λ k'. Extends k.ready_list k'.ready_list) _
        (schedule-Took _) (λ k' h. h.1))

-- The threads that come, `rest` of the kernel, have `t` at its place in the ready list.
abbrev InTurn : ℕ → (Kernel → List ℕ) → Kernel → Type 0
InTurn t rest k =
    (pre post : List ℕ)
    → k.ready_list ≡ pre ++ (t ∷ post)
    → length pre < length (rest k)
    → get_elem? (rest k) (length pre) ≡ some t

InTurn-step :
    (switched : Bool) (rest : Kernel → List ℕ) (r : Outcome Kernel) (t : ℕ) (pre post : List ℕ)
    → IfOk (Advanced switched (pre ++ (t ∷ post))) r
    → ((k : Kernel) → InTurn t rest k)
    → length pre < length (go_on switched rest r)
    → get_elem? (go_on switched rest r) (length pre) ≡ some t
InTurn-step true rest (ok k) t [] post (e, more) ih h = ap some e
InTurn-step true rest (ok k) t (x ∷ pre) post (e, (extra, f)) ih h =
    ih k pre (post ++ extra) (f ∙ append_assoc pre (t ∷ post) extra) (omega arith)
InTurn-step false rest (ok k) t pre post (extra, f) ih h =
    ih k pre (post ++ extra) (f ∙ append_assoc pre (t ∷ post) extra) h
InTurn-step switched rest panic t pre post a ih h = absurd (omega arith)
InTurn-step switched rest fault t pre post a ih h = absurd (omega arith)
InTurn-step switched rest blocked t pre post a ih h = absurd (omega arith)
InTurn-step switched rest out_of_fuel t pre post a ih h = absurd (omega arith)

-- However the running threads block, yield, use up their time, exit, create, fork and wake others, the
-- thread with `length pre` others before it in the ready list is given the processor at the switch with
-- that number, if the events switch threads that often, where the switch of do_fork to its child, which
-- runs before all others, is not counted.
pub dispatched_in_turn :
    (events : List Event) (t : ℕ) (pre post : List ℕ) (k : Kernel)
    → k.ready_list ≡ pre ++ (t ∷ post)
    → length pre < length (dispatched events k)
    → get_elem? (dispatched events k) (length pre) ≡ some t
unfolding dispatched
dispatched_in_turn [] t pre post k e h = absurd (omega arith)
dispatched_in_turn (ev ∷ events) t pre post k e h =
    InTurn-step (takes_turn ev k) (λ k'. dispatched events k') (perform ev k) t pre post
      (subst (λ l. IfOk (Advanced (takes_turn ev k) l) (perform ev k)) e (perform-Advanced ev k))
      (λ k' pre' post' e' h'. dispatched_in_turn events t pre' post' k' e' h') h
