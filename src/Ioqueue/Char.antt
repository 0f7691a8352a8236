-- ===== src/Ioqueue/Char.antt =====
-- ioqueue_init, ioqueue_putchar, ioqueue_getchar and ioqueue_pop_back_char of device/ioqueue.c, against
-- the queue of the characters held.
use fizzos.Base.{
  ℕ, zero, suc, ◌+◌, ◌-◌, ◌%◌, ◌<◌, ◌≡◌, ◌≢◌, refl, ap, ◌∙◌, List, [], ◌∷◌, ◌++◌, arith, Outcome,
  ok, blocked, Returns, length, get_or, set, ltb, if◌then◌else◌, length-set, get_or-set_self,
  get_elem?-eq-get_or, length-replicate, replicate, inl, inr, Bool-cases, ltb→lt, lt→ltb,
  le→ltb_false, ◌⊎◌,
}
use mathlib.Core.Path.{ap₂}
use native.Mathlib.Nat.{mod-lt}
use native.Mathlib.Numerals.{add-one}
use fizzos.Ioqueue.{
  Ioqueue, available, ioqueue_init, ioqueue_putchar, ioqueue_getchar, ioqueue_pop_back_char,
}
use fizzos.Ioqueue.Contents.{
  IsValid, window, contents, length-window, window-snoc, window-set, start_lt, start-add-count,
  before_tail, count_put, count_get, count_drop,
}

-- What reading a character from a queue that holds `xs` has to give.
abbrev pub GetResult : List ℕ → Outcome (ℕ × Ioqueue) → Type 0
GetResult [] r = r ≡ blocked
GetResult (x ∷ xs) r = Returns (λ (c, q'). (c ≡ x) × IsValid q' × (contents q' ≡ xs)) r

module _ (q : Ioqueue) (v : IsValid q) where
  open q use {buf, buf_size, head, tail}

  -- The character goes behind those that the queue holds, if there is room for it.
  stored : (c : ℕ) → Ioqueue
  stored c = record q { buf = set buf tail c; tail = (tail + 1) % buf_size }

  stored-contents :
      (c : ℕ) → available q < buf_size - 1 → contents (stored c) ≡ contents q ++ (c ∷ [])
  unfolding stored
  stored-contents c room =
      ap (window (set buf tail c) buf_size s)
        (count_put buf_size head tail v.head_in v.tail_in room ∙ add-one n)
      ∙ window-snoc (set buf tail c) buf_size s n (start_lt buf_size head tail v.head_in v.tail_in)
      ∙ ap₂ (λ l x. l ++ (x ∷ []))
          (window-set buf buf_size tail c s n (start_lt buf_size head tail v.head_in v.tail_in)
            (before_tail buf_size head tail v.head_in v.tail_in))
          (ap (λ i. get_or (set buf tail c) i 0)
              (start-add-count buf_size head tail v.head_in v.tail_in)
            ∙ get_or-set_self buf tail c 0 (omega (arith, v.tail_in, v.storage)))
    where
      s : ℕ
      s = (head + 1) % buf_size

      n : ℕ
      n = available q

  stored-IsValid : (c : ℕ) → IsValid (stored c)
  unfolding stored
  stored-IsValid c = record {
    room = v.room;
    storage = rw (length-set buf tail c) v.storage;
    head_in = v.head_in;
    tail_in = mod-lt (tail + 1) {m = buf_size} (omega (arith, v.room));
  }

  -- ioqueue_putchar on a valid queue appends the character if fewer than `buf_size - 1` are held,
  -- and otherwise drops it; the queue stays valid.
  pub putchar-contents :
      (c : ℕ)
      → IsValid (ioqueue_putchar c q)
        × (contents (ioqueue_putchar c q) ≡ (
            if ltb (length (contents q)) (buf_size - 1)
            then contents q ++ (c ∷ [])
            else contents q))
  unfolding ioqueue_putchar stored
  putchar-contents c =
      rw (length-window buf buf_size ((head + 1) % buf_size) (available q))
        (elim (Bool-cases (ltb (available q) (buf_size - 1))) [
          | inl room ↦ rw room (stored-IsValid c, stored-contents c (ltb→lt _ _ room))
          | inr full ↦ rw full (v, refl)
        ])

  getchar_run :
      available q ≢ 0
      → ioqueue_getchar q
        ≡ ok (get_or buf ((head + 1) % buf_size) 0, record q { head = (head + 1) % buf_size })
  unfolding ioqueue_getchar
  getchar_run ne = ground (
    arith,
    get_elem?-eq-get_or buf ((head + 1) % buf_size) 0
        (omega (arith, start_lt buf_size head tail v.head_in v.tail_in, v.storage)),
  )

  ne_zero : (k : ℕ) → available q ≡ suc k → available q ≢ 0
  ne_zero k e z = omega arith

  got : (k : ℕ) → available q ≡ suc k → GetResult (contents q) (ioqueue_getchar q)
  got k e =
      rw (getchar_run (ne_zero k e), e)
        (
          refl,
          record { room = v.room; storage = v.storage; head_in = s_lt; tail_in = v.tail_in },
          ap (window buf buf_size ((s + 1) % buf_size))
              (omega (arith, count_get buf_size head tail v.head_in v.tail_in (ne_zero k e))),
        )
    where
      s : ℕ
      s = (head + 1) % buf_size

      s_lt : s < buf_size
      s_lt = start_lt buf_size head tail v.head_in v.tail_in

  -- ioqueue_getchar of a valid queue waits if it is empty; otherwise it returns the oldest character
  -- and leaves the others in a valid queue.
  pub getchar-GetResult : GetResult (contents q) (ioqueue_getchar q)
  unfolding ioqueue_getchar
  getchar-GetResult = split (available q) refl
    where
      split : (n : ℕ) → available q ≡ n → GetResult (contents q) (ioqueue_getchar q)
      split zero e = rw e refl
      split (suc k) e = got k e

  -- The queue without its newest character.
  dropped : Ioqueue
  dropped = record q { tail = (tail + buf_size - 1) % buf_size }

  pop_back_run : ioqueue_pop_back_char q ≡ (if ltb 0 (available q) then dropped else q)
  unfolding ioqueue_pop_back_char dropped
  pop_back_run = refl

  dropped-contents :
      (k : ℕ)
      → available q ≡ suc k
      → contents q
        ≡ contents dropped ++ (get_or buf (((head + 1) % buf_size + k) % buf_size) 0 ∷ [])
  unfolding dropped
  dropped-contents k e =
      ap (window buf buf_size s) e
      ∙ window-snoc buf buf_size s k (start_lt buf_size head tail v.head_in v.tail_in)
      ∙ ap (λ n. window buf buf_size s n ++ (get_or buf ((s + k) % buf_size) 0 ∷ []))
          (omega (arith, count_drop buf_size head tail v.head_in v.tail_in (ne_zero k e)))
    where
      s : ℕ
      s = (head + 1) % buf_size

  dropped-IsValid : IsValid dropped
  unfolding dropped
  dropped-IsValid = record {
    room = v.room;
    storage = v.storage;
    head_in = v.head_in;
    tail_in = mod-lt (tail + buf_size - 1) {m = buf_size} (omega (arith, v.room));
  }

  -- ioqueue_pop_back_char of a valid queue leaves a valid queue, which is without the newest
  -- character if there was one, and unchanged if there was none.
  pub pop_back-contents :
      IsValid (ioqueue_pop_back_char q)
      × ((contents q ≡ []) × (ioqueue_pop_back_char q ≡ q)
          ⊎ ((c : ℕ) × (contents q ≡ contents (ioqueue_pop_back_char q) ++ (c ∷ []))))
  pop_back-contents = rw pop_back_run (split (available q) refl)
    where
      split :
          (n : ℕ)
          → available q ≡ n
          → let q' = if ltb 0 (available q) then dropped else q in
            IsValid q'
            × ((contents q ≡ []) × (q' ≡ q) ⊎ ((c : ℕ) × (contents q ≡ contents q' ++ (c ∷ []))))
      split zero e =
          rw (ap (ltb 0) e) (v, inl (ap (window buf buf_size ((head + 1) % buf_size)) e, refl))
      split (suc k) e = rw (ap (ltb 0) e ∙ lt→ltb 0 (suc k) (omega arith)) (
        dropped-IsValid,
        inr (get_or buf (((head + 1) % buf_size + k) % buf_size) 0, dropped-contents k e),
      )

-- ioqueue_init for a positive number of characters gives an empty, valid queue that holds up to that
-- number, if the memory has one byte more than the call of kmalloc asks for.
pub init_contents :
    (memory : List ℕ) (buf_size : ℕ)
    → 0 < buf_size
    → buf_size < length memory
    → Returns
        (λ q. IsValid q × (contents q ≡ []) × (q.buf_size ≡ buf_size + 1))
        (ioqueue_init memory buf_size)
unfolding ioqueue_init
init_contents memory buf_size pos room =
    rw (le→ltb_false (length memory) (buf_size + 1) (omega arith)) (
      record {
        room = omega arith;
        storage = omega (arith, length-replicate (buf_size + 1) (zero));
        head_in = omega arith;
        tail_in = omega arith;
      },
      ap (window (replicate (buf_size + 1) 0) (buf_size + 1) ((buf_size + 1) % (buf_size + 1)))
          none_held,
      refl,
    )
  where
    none_held : (0 + (buf_size + 1) - buf_size - 1) % (buf_size + 1) ≡ 0
    none_held = grind arith
