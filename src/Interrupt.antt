-- ===== src/Interrupt.antt =====
-- kernel/interrupt.c: the interrupt flag of the CPU, which the kernel's critical sections save,
-- clear and restore. True is INTR_ON. (Loading the tables and the 8259A is port output.)
use fizzos.Base.{Bool, true, false, if◌then◌else◌}

-- Each returns the status before the call, and the flag after it.
abbrev pub intr_enable : Bool → Bool × Bool
intr_enable flag = if flag then (true, flag) else (false, true)

abbrev pub intr_disable : Bool → Bool × Bool
intr_disable flag = if flag then (true, false) else (false, flag)

abbrev pub intr_set_status : Bool → Bool → Bool × Bool
intr_set_status status flag = if status then intr_enable flag else intr_disable flag
