-- ===== src/Keyboard/Typing.antt =====
-- What keyboard_handler of device/keyboard.c does to the characters that wait to be read.
use fizzos.Base.{
  zero, suc, ◌+◌, ◌∙◌, ap, List, not, ◌&&◌, leb, get_or, eq-cases, ==_iff, ℕ, ◌-◌, ◌<◌, ◌≤◌, ◌≡◌,
  ◌≢◌, refl, ◌⊎◌, inl, inr, arith, Bool, true, false, ◌||◌, [], ◌∷◌, ◌++◌, Outcome, ok, panic,
  Returns, Returns-mono, subst, sym, ◌==◌, ltb, if◌then◌else◌, length, Bool-cases, ne→==_false,
}
use fizzos.Ioqueue.{ioqueue_putchar, ioqueue_pop_back_char}
use fizzos.Ioqueue.Char.{putchar-contents, pop_back-contents}
use fizzos.Ioqueue.Contents.{IsValid, contents}
use fizzos.Keyboard.{Keyboard, on_break, on_char, on_make, keyboard_handler, typed_char, backspace}

-- The codes of the modifier keys.
abbrev pub is_modifier : ℕ → Bool
is_modifier code =
    (code == 0x2a) || (code == 0x36) || (code == 0x1d) || (code == 0x38) || (code == 0x3a)

handler_char :
    (code : ℕ) (kb : Keyboard)
    → code < 128
    → is_modifier code ≡ false
    → keyboard_handler code kb ≡ on_char code kb
unfolding keyboard_handler on_make
handler_char code kb h plain = ground arith

char_run :
    (code : ℕ) (kb : Keyboard)
    → code ≤ 0x3a
    → on_char code kb
      ≡ ok (record kb {
        keyboard_buf =
            if typed_char code kb == backspace
            then ioqueue_pop_back_char kb.keyboard_buf
            else ioqueue_putchar (typed_char code kb) kb.keyboard_buf;
      })
unfolding on_char
char_run code kb h = ground arith

-- The key of a character puts it behind those in the queue, if there is room.
handler-typed :
    (code : ℕ) (kb : Keyboard)
    → IsValid kb.keyboard_buf
    → code ≤ 0x3a
    → is_modifier code ≡ false
    → typed_char code kb ≢ backspace
    → Returns
        (λ kb'.
          IsValid kb'.keyboard_buf
          × (contents kb'.keyboard_buf ≡ (
              if ltb (length (contents kb.keyboard_buf)) (kb.keyboard_buf.buf_size - 1)
              then contents kb.keyboard_buf ++ (typed_char code kb ∷ [])
              else contents kb.keyboard_buf)))
        (keyboard_handler code kb)
handler-typed code kb v h m ne =
    rw
      (
        handler_char code kb (omega arith) m,
        char_run code kb h,
        ne→==_false (typed_char code kb) backspace ne,
      )
      (putchar-contents kb.keyboard_buf v (typed_char code kb))

-- The keys of the letters from a to z on the keyboard of a PC.
abbrev pub letter_keys : List ℕ
letter_keys =
    0x1e ∷ 0x30 ∷ 0x2e ∷ 0x20 ∷ 0x12 ∷ 0x21 ∷ 0x22 ∷ 0x23 ∷ 0x17 ∷ 0x24 ∷ 0x25 ∷ 0x26 ∷ 0x32 ∷ 0x31
    ∷ 0x18 ∷ 0x19 ∷ 0x10 ∷ 0x13 ∷ 0x1f ∷ 0x14 ∷ 0x16 ∷ 0x2f ∷ 0x11 ∷ 0x2d ∷ 0x15 ∷ 0x2c ∷ []

-- The letter with a number, which is a capital where one of the shift key and caps lock is on.
abbrev pub letter : Bool → Bool → ℕ → ℕ
letter true true k = 97 + k
letter false false k = 97 + k
letter true false k = 65 + k
letter false true k = 65 + k

all_below : ℕ → (ℕ → Bool) → Bool
all_below zero f = true
all_below (suc n) f = f n && all_below n f

all_below-true : (n k : ℕ) (f : ℕ → Bool) → all_below n f ≡ true → k < n → f k ≡ true
unfolding all_below
all_below-true zero k f h lt = absurd (omega arith)
all_below-true (suc n) k f h lt = elim (eq-cases k n) [
  | inl e ↦ ap f e ∙ (ground (arith, h))
  | inr ne ↦ all_below-true n k f (ground (arith, h)) (omega arith)
]

-- The key of a letter is a key of a character, in each state of the shift key and caps lock.
abbrev is_letter_key : Bool → Bool → Keyboard → ℕ → Bool
is_letter_key shift caps kb k =
    (typed_char (get_or letter_keys k 0) (record kb { shift_status = shift; caps_status = caps })
      == letter shift caps k)
    && not (letter shift caps k == backspace)
    && leb (get_or letter_keys k 0) 0x3a
    && not (is_modifier (get_or letter_keys k 0))

letter_keys-letter :
    (shift caps : Bool) (kb : Keyboard) → all_below 26 (is_letter_key shift caps kb) ≡ true
unfolding all_below
letter_keys-letter true true kb = refl
letter_keys-letter true false kb = refl
letter_keys-letter false true kb = refl
letter_keys-letter false false kb = refl

-- The key of a letter puts the letter, a capital where either the shift key or caps lock is on but not
-- both, behind those in the valid queue if there is room for it, and leaves the queue valid.
pub handler-letter :
    (k : ℕ) (kb : Keyboard)
    → IsValid kb.keyboard_buf
    → k < 26
    → Returns
        (λ kb'.
          IsValid kb'.keyboard_buf
          × (contents kb'.keyboard_buf ≡ (
              if ltb (length (contents kb.keyboard_buf)) (kb.keyboard_buf.buf_size - 1)
              then contents kb.keyboard_buf ++ (letter kb.shift_status kb.caps_status k ∷ [])
              else contents kb.keyboard_buf)))
        (keyboard_handler (get_or letter_keys k 0) kb)
handler-letter k kb v lt = rw⁻¹ is (
    handler-typed (get_or letter_keys k 0) kb v (ground (arith, key)) (ground (arith, key))
      (rw is (ground (arith, key))))
  where
    key : is_letter_key kb.shift_status kb.caps_status kb k ≡ true
    key =
        all_below-true 26 k (is_letter_key kb.shift_status kb.caps_status kb)
          (letter_keys-letter kb.shift_status kb.caps_status kb) lt

    is : typed_char (get_or letter_keys k 0) kb ≡ letter kb.shift_status kb.caps_status k
    is =
        (==_iff (typed_char (get_or letter_keys k 0) kb)
            (letter kb.shift_status kb.caps_status k)).0
          (ground (arith, key))

-- The keys above the key map, as F1, stop the kernel in a failed assertion.
pub handler-panic :
    (code : ℕ) (kb : Keyboard) → 0x3a < code → code < 128 → keyboard_handler code kb ≡ panic
unfolding on_char
handler-panic code kb lo hi = rw (handler_char code kb hi (ground arith)) (ground arith)

-- A key that is let go, and a modifier key, leave the queue alone.
handler_let_go :
    (code : ℕ) (kb : Keyboard)
    → 128 ≤ code
    → Returns (λ kb'. kb'.keyboard_buf ≡ kb.keyboard_buf) (keyboard_handler code kb)
unfolding keyboard_handler on_break
handler_let_go code kb h = ground arith

modifier_cases :
    (code : ℕ)
    → is_modifier code ≡ true
    → (code ≡ 0x2a) ⊎ (code ≡ 0x36) ⊎ (code ≡ 0x1d) ⊎ (code ≡ 0x38) ⊎ (code ≡ 0x3a)
modifier_cases code m = ground arith

handler_modifier :
    (code : ℕ) (kb : Keyboard)
    → is_modifier code ≡ true
    → Returns (λ kb'. kb'.keyboard_buf ≡ kb.keyboard_buf) (keyboard_handler code kb)
unfolding keyboard_handler on_make
handler_modifier code kb m = elim (modifier_cases code m) [
  | inl e ↦ rw e refl
  | inr (inl e) ↦ rw e refl
  | inr (inr (inl e)) ↦ rw e refl
  | inr (inr (inr (inl e))) ↦ rw e refl
  | inr (inr (inr (inr e))) ↦ rw e refl
]

same_queue :
    (kb : Keyboard) (r : Outcome Keyboard)
    → IsValid kb.keyboard_buf
    → Returns (λ kb'. kb'.keyboard_buf ≡ kb.keyboard_buf) r
    → Returns (λ kb'. IsValid kb'.keyboard_buf) r
same_queue kb r v same =
    Returns-mono (λ kb'. kb'.keyboard_buf ≡ kb.keyboard_buf) (λ kb'. IsValid kb'.keyboard_buf) r
      same (λ kb' e. subst IsValid (sym e) v)

-- Every other code is handled, and leaves a valid queue valid.
pub handler-IsValid :
    (code : ℕ) (kb : Keyboard)
    → IsValid kb.keyboard_buf
    → (code ≤ 0x3a) ⊎ (128 ≤ code)
    → Returns (λ kb'. IsValid kb'.keyboard_buf) (keyboard_handler code kb)
handler-IsValid code kb v range = elim range [
  | inr let_go ↦ same_queue kb (keyboard_handler code kb) v (handler_let_go code kb let_go)
  | inl h ↦ elim (Bool-cases (is_modifier code)) [
    | inl m ↦ same_queue kb (keyboard_handler code kb) v (handler_modifier code kb m)
    | inr m ↦
        rw (handler_char code kb (omega arith) m, char_run code kb h)
          (queue_valid (typed_char code kb))
  ]
]
  where
    queue_valid :
        (c : ℕ)
        → IsValid (
            if c == backspace
            then ioqueue_pop_back_char kb.keyboard_buf
            else ioqueue_putchar c kb.keyboard_buf)
    queue_valid c = elim (Bool-cases (c == backspace)) [
      | inl e ↦ rw e (pop_back-contents kb.keyboard_buf v).0
      | inr e ↦ rw e (putchar-contents kb.keyboard_buf v c).0
    ]
