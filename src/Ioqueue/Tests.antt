-- ===== src/Ioqueue/Tests.antt =====
-- device/ioqueue.c on a small queue, and its theorems at it.
use fizzos.Base.{◌≡◌, refl, [], ◌∷◌, ok, blocked, fault, arith, some, none}
use fizzos.Ioqueue.{Ioqueue, ioqueue_init, ioqueue_putchar, ioqueue_getline}
use fizzos.Ioqueue.Char.{putchar-contents}
use fizzos.Ioqueue.Contents.{IsValid, contents}

-- "ab", newline, "c": the characters go round the end of the buffer.
abbrev typed : Ioqueue
typed = record { buf = 0x0a ∷ 0x63 ∷ 0 ∷ 0 ∷ 0x61 ∷ 0x62 ∷ []; buf_size = 6; head = 3; tail = 2 }

typed-IsValid : IsValid typed
typed-IsValid = omega arith

contents-typed : contents typed ≡ 0x61 ∷ 0x62 ∷ 0x0a ∷ 0x63 ∷ []
contents-typed = refl

putchar-contents_example :
    IsValid (ioqueue_putchar 0x64 typed)
    × (contents (ioqueue_putchar 0x64 typed) ≡ 0x61 ∷ 0x62 ∷ 0x0a ∷ 0x63 ∷ 0x64 ∷ [])
putchar-contents_example = putchar-contents typed typed-IsValid 0x64

-- With just the bytes asked for, the clearing of the buffer runs past its end.
init_overflow : ioqueue_init (7 ∷ 7 ∷ []) 2 ≡ fault
unfolding ioqueue_init
init_overflow = refl

-- A line of two characters and its newline; with room for one, the rest of the line is lost.
reads_line : ioqueue_getline none typed ≡ ok (0x61 ∷ 0x62 ∷ 0x0a ∷ [], 3, record typed { head = 0 })
unfolding ioqueue_getline
reads_line = refl

reads_short : ioqueue_getline (some 1) typed ≡ ok (0x61 ∷ [], 2, record typed { head = 0 })
unfolding ioqueue_getline
reads_short = refl

waits_for_line : ioqueue_getline none (record typed { head = 0 }) ≡ blocked
unfolding ioqueue_getline
waits_for_line = refl
