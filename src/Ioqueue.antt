-- ===== src/Ioqueue.antt =====
-- device/ioqueue.c: the character ring that the keyboard fills and readers empty. A call that has to
-- wait for a condition variable is `blocked`, with the queue as it was. The queue's lock is taken at
-- the start of each call and released at its end, so a call is one step.
pub mod Contents
pub mod Char
mod Tests
use fizzos.Base.{
  ℕ, zero, suc, ◌+◌, ◌-◌, ◌%◌, Bool, true, false, not, ◌&&◌, ◌||◌, Option, none, some, List, [],
  ◌∷◌, Outcome, ok, panic, fault, blocked, out_of_fuel, ◌>>=◌, ◌>>◌, assert, ◌==◌, ltb,
  if◌then◌else◌, get_elem?, set, length, replicate,
}

pub record Ioqueue : Type 0 where
  pub buf : List ℕ
  pub buf_size : ℕ
  pub head : ℕ
  pub tail : ℕ

abbrev pub newline : ℕ
newline = 0x0a

-- `(tail + buf_size - head - 1) % buf_size`, the number of characters.
abbrev pub available : Ioqueue → ℕ
available q = (q.tail + q.buf_size - q.head - 1) % q.buf_size

-- `memory` is the memory from the address that kmalloc returned for `buf_size` bytes. One byte more
-- is cleared and used.
pub ioqueue_init : List ℕ → ℕ → Outcome Ioqueue
ioqueue_init memory buf_size =
    if ltb (length memory) (buf_size + 1)
    then fault
    else ok (record {
      buf = replicate (buf_size + 1) 0;
      buf_size = buf_size + 1;
      head = buf_size;
      tail = 0;
    })

abbrev pub read : Ioqueue → ℕ → Outcome ℕ
read q i = elim (get_elem? q.buf i) [ none ↦ fault | some c ↦ ok c ]

pub ioqueue_getchar : Ioqueue → Outcome (ℕ × Ioqueue)
ioqueue_getchar q = if available q == 0 then blocked else (do
  let head = (q.head + 1) % q.buf_size
  c ← read q head
  ok (c, record q { head = head }))

-- A character that finds the queue full is dropped. (Waking a reader of a line or of a character
-- changes nothing in the queue.)
pub ioqueue_putchar : ℕ → Ioqueue → Ioqueue
ioqueue_putchar c q =
    if ltb (available q) (q.buf_size - 1)
    then record q { buf = set q.buf q.tail c; tail = (q.tail + 1) % q.buf_size }
    else q

-- For the backspace key.
pub ioqueue_pop_back_char : Ioqueue → Ioqueue
ioqueue_pop_back_char q =
    if ltb 0 (available q) then record q { tail = (q.tail + q.buf_size - 1) % q.buf_size } else q

-- The search for a newline from index `i` up to `tail`, in at most `n` rounds.
has_line : ℕ → ℕ → Ioqueue → Outcome Bool
has_line zero i q = out_of_fuel
has_line (suc n) i q =
    let rest = has_line n ((i + 1) % q.buf_size) q in
    if i == q.tail then ok false else (do c ← read q i; if c == newline then ok true else rest)

-- The copying loop: the characters written to `dest`, the index that it stops at and their number.
-- `limit` is `count`, none for -1. The character read last is stored too where it is the newline.
copy_line : ℕ → Option ℕ → ℕ → ℕ → Ioqueue → Outcome (List ℕ × ℕ × ℕ)
copy_line zero limit head c q = out_of_fuel
copy_line (suc n) limit head c q =
    let rest = copy_line n limit ((head + 1) % q.buf_size) (c + 1) q in
    let more : Bool = elim limit [ none ↦ true | some count ↦ ltb c count ] in
    if not more then ok ([], head, c) else (do
      ch ← read q head
      if ch == newline then ok (newline ∷ [], head, c) else (do
        assert (ltb 0 ((q.tail + q.buf_size - head - 1) % q.buf_size))
        (dest, head, c) ← rest
        ok (ch ∷ dest, head, c)))

-- The loop that throws away what is left of the line.
skip_line : ℕ → ℕ → Ioqueue → Outcome ℕ
skip_line zero head q = out_of_fuel
skip_line (suc n) head q =
    let rest = skip_line n ((head + 1) % q.buf_size) q in
    do
      ch ← read q head
      if ch == newline
          then ok head
          else assert (ltb 0 ((q.tail + q.buf_size - head - 1) % q.buf_size)) >> rest

-- What is written to `dest`, the result, and the queue. Without a newline in the queue the caller
-- waits. The loops run on `buf_size` rounds each.
pub ioqueue_getline : Option ℕ → Ioqueue → Outcome (List ℕ × ℕ × Ioqueue)
unfolding has_line copy_line skip_line
ioqueue_getline limit q = do
  let start = (q.head + 1) % q.buf_size
  line ← has_line q.buf_size start q
  if not line then blocked else (do
    (dest, head, c) ← copy_line q.buf_size limit start 0 q
    last ← skip_line q.buf_size head q
    ok (dest, c + 1, record q { head = last }))
