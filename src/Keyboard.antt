-- ===== src/Keyboard.antt =====
-- device/keyboard.c: scan codes to characters, and the state of the modifier keys. The code that
-- `inb` read is an argument. The echo on the screen changes nothing here.
pub mod Typing
mod Tests
use fizzos.Base.{
  ℕ, ◌+◌, ◌-◌, ◌/◌, Bool, true, false, not, ◌&&◌, ◌||◌, List, [], ◌∷◌, Outcome, ok, ◌>>=◌, ◌>>◌,
  assert, ◌==◌, ltb, leb, if◌then◌else◌, get_or,
}
use fizzos.Ioqueue.{Ioqueue, ioqueue_init, ioqueue_putchar, ioqueue_pop_back_char}

-- The column of `keymap` without the shift key.
abbrev pub plain : List ℕ
plain =
    0 ∷ 27 ∷ 49 ∷ 50 ∷ 51 ∷ 52 ∷ 53 ∷ 54 ∷ 55 ∷ 56 ∷ 57 ∷ 48 ∷ 45 ∷ 61 ∷ 8 ∷ 9 ∷ 113 ∷ 119 ∷ 101
    ∷ 114 ∷ 116 ∷ 121 ∷ 117 ∷ 105 ∷ 111 ∷ 112 ∷ 91 ∷ 93 ∷ 10 ∷ 29 ∷ 97 ∷ 115 ∷ 100 ∷ 102 ∷ 103 ∷ 104
    ∷ 106 ∷ 107 ∷ 108 ∷ 59 ∷ 39 ∷ 96 ∷ 42 ∷ 92 ∷ 122 ∷ 120 ∷ 99 ∷ 118 ∷ 98 ∷ 110 ∷ 109 ∷ 44 ∷ 46
    ∷ 47 ∷ 54 ∷ 42 ∷ 56 ∷ 32 ∷ 58 ∷ []

-- The column with it.
abbrev pub shifted : List ℕ
shifted =
    0 ∷ 27 ∷ 33 ∷ 64 ∷ 35 ∷ 36 ∷ 37 ∷ 94 ∷ 38 ∷ 42 ∷ 40 ∷ 41 ∷ 95 ∷ 43 ∷ 8 ∷ 9 ∷ 81 ∷ 87 ∷ 69 ∷ 82
    ∷ 84 ∷ 89 ∷ 85 ∷ 73 ∷ 79 ∷ 80 ∷ 123 ∷ 125 ∷ 10 ∷ 29 ∷ 65 ∷ 83 ∷ 68 ∷ 70 ∷ 71 ∷ 72 ∷ 74 ∷ 75 ∷ 76
    ∷ 58 ∷ 34 ∷ 126 ∷ 42 ∷ 124 ∷ 90 ∷ 88 ∷ 67 ∷ 86 ∷ 66 ∷ 78 ∷ 77 ∷ 60 ∷ 62 ∷ 63 ∷ 54 ∷ 42 ∷ 56 ∷ 32
    ∷ 58 ∷ []

pub record Keyboard : Type 0 where
  pub keyboard_buf : Ioqueue
  pub shift_status : Bool
  pub ctrl_status : Bool
  pub alt_status : Bool
  pub caps_status : Bool

-- A code with its highest bit set: a key is let go.
pub on_break : ℕ → Keyboard → Keyboard
on_break code kb =
    if (code == 0xaa) || (code == 0xb6)
    then record kb { shift_status = false }
    else if code == 0x9d
    then record kb { ctrl_status = false }
    else if code == 0xb8
    then record kb { alt_status = false }
    else kb

-- Caps lock swaps the case of a letter.
abbrev pub swap_case : ℕ → ℕ
swap_case c = if leb 65 c && leb c 90 then c + 32 else if leb 97 c && leb c 122 then c - 32 else c

-- The character of a key.
abbrev pub typed_char : ℕ → Keyboard → ℕ
typed_char code kb =
    let c = if kb.shift_status then get_or shifted code 0 else get_or plain code 0 in
    if kb.caps_status then swap_case c else c

abbrev pub backspace : ℕ
backspace = 8

-- A key without a case of its own.
pub on_char : ℕ → Keyboard → Outcome Keyboard
on_char code kb =
    let c = typed_char code kb in
    assert (leb code 0x3a)
    >> ok (record kb {
      keyboard_buf =
          if c == backspace
          then ioqueue_pop_back_char kb.keyboard_buf
          else ioqueue_putchar c kb.keyboard_buf;
    })

pub on_make : ℕ → Keyboard → Outcome Keyboard
unfolding on_char
on_make code kb =
    if (code == 0x2a) || (code == 0x36)
    then ok (record kb { shift_status = true })
    else if code == 0x1d
    then ok (record kb { ctrl_status = true })
    else if code == 0x38
    then ok (record kb { alt_status = true })
    else if code == 0x3a
    then ok (record kb { caps_status = not kb.caps_status })
    else on_char code kb

pub keyboard_handler : ℕ → Keyboard → Outcome Keyboard
keyboard_handler code kb =
    if code == 0xe0 then ok kb else if leb 128 code then ok (on_break code kb) else on_make code kb

-- `memory` is what kmalloc gives for the buffer.
pub keyboard_init : List ℕ → Outcome Keyboard
keyboard_init memory = do
  q ← ioqueue_init memory 100
  ok (record {
    keyboard_buf = q;
    shift_status = false;
    ctrl_status = false;
    alt_status = false;
    caps_status = false;
  })
