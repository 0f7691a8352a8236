-- ===== src/Kthread.antt =====
-- kernel/kthread.c and the clock of device/timer.c: the running thread, the ready list and time slices.
-- A thread is named by a number. A call that takes_turn threads ends here with switch_to; what the thread
-- does when it runs again is a later call. Page tables and stacks are not part of the state.
pub mod Fifo
pub mod Ready
mod Tests
use fizzos.Base.{
  ℕ, zero, suc, ◌+◌, ◌-◌, ◌%◌, ◌^◌, Bool, true, false, not, Option, none, some, List, [], ◌∷◌, ◌++◌,
  Outcome, ok, panic, fault, blocked, out_of_fuel, ◌>>=◌, ◌>>◌, assert, ◌==◌, if◌then◌else◌, update,
}

pub data TaskState : Type 0 where
  running : TaskState
  ready : TaskState
  blocked_state : TaskState
  exit : TaskState

abbrev pub stack_magic_value : ℕ
stack_magic_value = 0x1234_5678

pub record Task : Type 0 where
  pub state : TaskState
  pub prio : ℕ
  pub elapsed_ticks : ℕ
  pub ticks : ℕ
  pub stack_magic : ℕ

-- `freed` are the threads whose pid and page were given back.
pub record Kernel : Type 0 where
  pub current : ℕ
  pub ready_list : List ℕ
  pub task : ℕ → Task
  pub idle : ℕ
  pub ticks : ℕ
  pub freed : List ℕ

abbrev pub set_state : ℕ → TaskState → Kernel → Kernel
set_state t st k = record k { task = update k.task t (record (k.task t) { state = st }) }

abbrev pub push_ready : ℕ → Kernel → Kernel
push_ready t k = record k { ready_list = k.ready_list ++ (t ∷ []) }

-- The thread that leaves the processor, by its state.
pub put_aside : TaskState → Kernel → Kernel
put_aside running k =
    let t = k.task k.current in
    push_ready k.current
      (record k { task = update k.task k.current (record t { ticks = t.prio; state = ready }) })
put_aside ready k = k
put_aside blocked_state k = k
put_aside exit k = record k { freed = k.current ∷ k.freed }

-- The next thread, `idle` if none is ready.
pub dispatch : List ℕ → Kernel → Kernel
dispatch [] k = record (set_state k.idle running k) { current = k.idle; ready_list = [] }
dispatch (t ∷ rest) k = record (set_state t running k) { current = t; ready_list = rest }

-- `intr_on` is the interrupt flag.
pub schedule : Bool → Kernel → Outcome Kernel
schedule intr_on k =
    assert (not intr_on)
    >> (let k' = put_aside (k.task k.current).state k in ok (dispatch k'.ready_list k'))

-- The three calls below turn interrupts off before they schedule.
pub thread_block : Kernel → Outcome Kernel
thread_block k = schedule false (set_state k.current blocked_state k)

pub thread_unblock : ℕ → Kernel → Kernel
thread_unblock t k = push_ready t (set_state t ready k)

pub thread_yield : Kernel → Outcome Kernel
thread_yield k = schedule false (push_ready k.current (set_state k.current ready k))

-- sys_exit of kernel/exit.c, which leaves the interrupt flag as it is.
pub sys_exit : Bool → Kernel → Outcome Kernel
sys_exit intr_on k = schedule intr_on (set_state k.current exit k)

-- init_thread and what kthread_create does with the new thread `t`, whose page the allocator gave.
pub kthread_create : ℕ → ℕ → Kernel → Kernel
kthread_create t prio k = push_ready t (record k {
  task =
      update k.task t
        (record (k.task t) { state = ready; prio = prio; stack_magic = stack_magic_value });
})

-- do_fork of kernel/fork.c with the page `t` for the child: the list of ready threads gets it in front,
-- so that it runs first. The interrupt flag is left as it is.
pub do_fork : Bool → ℕ → Kernel → Outcome Kernel
do_fork intr_on t k = schedule intr_on (record k {
  task = update k.task t (record (k.task k.current) { state = ready });
  ready_list = t ∷ k.ready_list;
})

-- The clock interrupt: interrupts are off in it.
pub intr_timer_handler : Kernel → Outcome Kernel
intr_timer_handler k = do
  let t = k.task k.current
  assert (t.stack_magic == stack_magic_value)
  let t = record t { elapsed_ticks = (t.elapsed_ticks + 1) % 2 ^ 32 }
  let k = record k { ticks = (k.ticks + 1) % 2 ^ 32; task = update k.task k.current t }
  if t.ticks == 0
      then schedule false k
      else ok (record k { task = update k.task k.current (record t { ticks = t.ticks - 1 }) })

-- A call, or an interrupt, on the running thread.
pub data Event : Type 0 where
  tick : Event
  block : Event
  yield_cpu : Event
  finish : Bool → Event
  unblock : ℕ → Event
  create : ℕ → ℕ → Event
  fork : Bool → ℕ → Event

pub perform : Event → Kernel → Outcome Kernel
unfolding intr_timer_handler thread_block thread_yield sys_exit thread_unblock kthread_create
    do_fork
perform tick k = intr_timer_handler k
perform block k = thread_block k
perform yield_cpu k = thread_yield k
perform (finish intr_on) k = sys_exit intr_on k
perform (unblock t) k = ok (thread_unblock t k)
perform (create t prio) k = ok (kthread_create t prio k)
perform (fork intr_on t) k = do_fork intr_on t k

-- Whether an event gives the processor to the thread that is first in the list. do_fork gives it to the
-- new child.
pub takes_turn : Event → Kernel → Bool
takes_turn tick k = (k.task k.current).ticks == 0
takes_turn block k = true
takes_turn yield_cpu k = true
takes_turn (finish intr_on) k = true
takes_turn (unblock t) k = false
takes_turn (create t prio) k = false
takes_turn (fork intr_on t) k = false

abbrev pub go_on : Bool → (Kernel → List ℕ) → Outcome Kernel → List ℕ
go_on switched rest (ok k) = if switched then k.current ∷ rest k else rest k
go_on switched rest panic = []
go_on switched rest fault = []
go_on switched rest blocked = []
go_on switched rest out_of_fuel = []

-- The threads that a sequence of events gives the processor to, in order, but for the children that
-- do_fork lets run at once; it ends where an event fails.
pub dispatched : List Event → Kernel → List ℕ
unfolding perform takes_turn
dispatched [] k = []
dispatched (e ∷ events) k = go_on (takes_turn e k) (λ k'. dispatched events k') (perform e k)
