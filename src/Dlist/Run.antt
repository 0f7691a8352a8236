-- ===== src/Dlist/Run.antt =====
-- How the parts of an operation of lib/kernel/list.c run inside its critical section.
use fizzos.Base.{◌≡◌, false, Outcome, ok, panic, refl, arith, Bool-cases, inl, inr}
use fizzos.Dlist.{Mem, with_intr_off}

-- A critical section ends with the interrupt flag that it began with.
pub with_intr_off-ok :
    (body : Mem → Outcome Mem) (m m' : Mem)
    → body (record m { intr = false }) ≡ ok m'
    → with_intr_off body m ≡ ok (record m' { intr = m.intr })
with_intr_off-ok body m m' e = elim (Bool-cases m.intr) [
  | inl on ↦ rw (on, e) (ground arith)
  | inr off ↦ rw (off, e) (ground arith)
]

pub with_intr_off-panic :
    (body : Mem → Outcome Mem) (m : Mem)
    → body (record m { intr = false }) ≡ panic
    → with_intr_off body m ≡ panic
with_intr_off-panic body m e = elim (Bool-cases m.intr) [
  | inl on ↦ rw (on, e) refl
  | inr off ↦ rw (off, e) refl
]
