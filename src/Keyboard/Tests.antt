-- ===== src/Keyboard/Tests.antt =====
-- device/keyboard.c with a small buffer, and its theorems there.
use fizzos.Base.{◌≡◌, arith, true, false, [], ◌∷◌, Returns}
use fizzos.Ioqueue.{Ioqueue}
use fizzos.Ioqueue.Contents.{IsValid, contents}
use fizzos.Keyboard.{Keyboard, keyboard_handler}
use fizzos.Keyboard.Typing.{handler-letter}

abbrev small : Ioqueue
small = record { buf = 0 ∷ 0 ∷ 0 ∷ []; buf_size = 3; head = 2; tail = 0 }

-- Shift is held down.
abbrev held_shift : Keyboard
held_shift = record {
  keyboard_buf = small;
  shift_status = true;
  ctrl_status = false;
  alt_status = false;
  caps_status = false;
}

small-IsValid : IsValid small
small-IsValid = omega arith

handler-letter_example :
    Returns
      (λ kb'. IsValid kb'.keyboard_buf × (contents kb'.keyboard_buf ≡ b'A' ∷ []))
      (keyboard_handler 0x1e held_shift)
handler-letter_example = handler-letter 0 held_shift small-IsValid (omega arith)
