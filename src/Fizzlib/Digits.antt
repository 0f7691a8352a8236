-- ===== src/Fizzlib/Digits.antt =====
-- The text that uitoa of lib/fizzlib.c writes, and the number that it stands for.
use native.Mathlib.Nat.{div-add-mod', mod-lt, div-lt_iff_lt-mul, pow-suc, zero-add, mul-le-mul_left}
use fizzos.Base.{
  ℕ, zero, suc, ◌+◌, ◌-◌, ◌*◌, ◌/◌, ◌%◌, ◌^◌, ◌<◌, ◌≤◌, ◌≡◌, ◌≢◌, refl, sym, ap, ◌∙◌, List, [], ◌∷◌,
  ◌++◌, arith, ok, Returns, ◌>>=◌, ◌==◌, leb, if◌then◌else◌, length, set, drop, take, length-append,
  length-set, append_assoc, drop-set, take-length-append, drop-length-append, ne→==_false, lt→ltb,
  Bool-cases, inl, inr, ==_iff,
}
use fizzos.Fizzlib.{put, digit_char, count_digits, write_digits, uitoa}

-- The digits of a number, the most significant first; none for 0. `k` bounds how many.
digits : ℕ → ℕ → ℕ → List ℕ
digits zero radix v = []
digits (suc k) radix zero = []
digits (suc k) radix (suc v) = digits k radix (suc v / radix) ++ (digit_char (suc v % radix) ∷ [])

-- The value of a digit character.
abbrev digit_value : ℕ → ℕ
digit_value c = if leb b'a' c then c + 10 - b'a' else c - b'0'

-- Reading a text of digits, from the left.
pub read_from : ℕ → ℕ → List ℕ → ℕ
read_from radix acc [] = acc
read_from radix acc (c ∷ cs) = read_from radix (acc * radix + digit_value c) cs

read_from-append :
    (radix acc : ℕ) (xs ys : List ℕ)
    → read_from radix acc (xs ++ ys) ≡ read_from radix (read_from radix acc xs) ys
unfolding read_from
read_from-append radix acc [] ys = refl
read_from-append radix acc (x ∷ xs) ys = read_from-append radix (acc * radix + digit_value x) xs ys

digit_value-digit_char : (d : ℕ) → d < 36 → digit_value (digit_char d) ≡ d
digit_value-digit_char d h = ground arith

-- One digit less leaves a number with one bit less at least.
div_lt : (k radix v : ℕ) → 2 ≤ radix → v < 2 ^ suc k → v / radix < 2 ^ k
div_lt k radix v lo h =
    (div-lt_iff_lt-mul {k = radix} (omega arith)).1
      (grind (arith, pow-suc 2 k, mul-le-mul_left {m = 2} {n = radix} (2 ^ k) lo))

read_from-digits :
    (k radix v : ℕ) → 2 ≤ radix → radix ≤ 36 → v < 2 ^ k → read_from radix 0 (digits k radix v) ≡ v
unfolding read_from digits
read_from-digits zero radix v lo hi h = omega arith
read_from-digits (suc k) radix zero lo hi h = refl
read_from-digits (suc k) radix (suc v) lo hi h =
    rw
      (
        read_from-append radix 0 (digits k radix (suc v / radix)) (digit_char (suc v % radix) ∷ []),
        read_from-digits k radix (suc v / radix) lo hi (div_lt k radix (suc v) lo h),
        digit_value-digit_char (suc v % radix)
            (omega (arith, mod-lt (suc v) {m = radix} (omega arith))),
      )
      (div-add-mod' (suc v) radix)

length-digits-le : (k radix v : ℕ) → length (digits k radix v) ≤ k
unfolding digits
length-digits-le zero radix v = omega arith
length-digits-le (suc k) radix zero = omega arith
length-digits-le (suc k) radix (suc v) = omega (
  arith,
  length-append (digits k radix (suc v / radix)) (digit_char (suc v % radix) ∷ []),
  length-digits-le k radix (suc v / radix),
)

count_stop : (k radix idx : ℕ) → count_digits (suc k) radix 0 idx ≡ ok idx
unfolding count_digits
count_stop k radix idx = refl

count_step :
    (k radix v idx : ℕ)
    → v ≢ 0
    → radix ≢ 0
    → count_digits (suc k) radix v idx ≡ count_digits k radix (v / radix) (idx + 1)
unfolding count_digits
count_step k radix v idx ne pos = rw (ne→==_false v 0 ne, ne→==_false radix 0 pos) refl

count_digits-length :
    (k radix v idx : ℕ)
    → 2 ≤ radix
    → v < 2 ^ k
    → count_digits (suc k) radix v idx ≡ ok (idx + length (digits k radix v))
unfolding digits
count_digits-length zero radix zero idx lo h = count_stop 0 radix idx ∙ ap ok (omega arith)
count_digits-length zero radix (suc v) idx lo h = absurd (omega arith)
count_digits-length (suc k) radix zero idx lo h = count_stop (suc k) radix idx ∙ ap ok (omega arith)
count_digits-length (suc k) radix (suc v) idx lo h =
    count_step (suc k) radix (suc v) idx (omega arith) (omega arith)
    ∙ count_digits-length k radix (suc v / radix) (idx + 1) lo (div_lt k radix (suc v) lo h)
    ∙ ap ok (
        omega
          (arith, length-append (digits k radix (suc v / radix)) (digit_char (suc v % radix) ∷ [])))

write_digits-append :
    (k radix v : ℕ) (dest : List ℕ)
    → 2 ≤ radix
    → v < 2 ^ k
    → length (digits k radix v) ≤ length dest
    → write_digits (suc k) radix v (length (digits k radix v)) dest
      ≡ ok (digits k radix v ++ drop (length (digits k radix v)) dest)
unfolding write_digits digits
write_digits-append zero radix zero dest lo h room = refl
write_digits-append zero radix (suc v) dest lo h room = absurd (omega arith)
write_digits-append (suc k) radix zero dest lo h room = refl
write_digits-append (suc k) radix (suc v) dest lo h room =
    let ds = digits k radix (suc v / radix) in
    let c = digit_char (suc v % radix) in
    let long : length (ds ++ (c ∷ [])) ≡ suc (length ds) =
      omega (arith, length-append ds (c ∷ [])) in
    let less : suc (length ds) - 1 ≡ length ds = omega arith in
    rw
      (
        long,
        less,
        ne→==_false (suc v) 0 (omega arith),
        ne→==_false (suc (length ds)) 0 (omega arith),
        lt→ltb (length ds) (length dest) (omega (arith, long)),
        write_digits-append k radix (suc v / radix) (set dest (length ds) c) lo
            (div_lt k radix (suc v) lo h) (omega (arith, long, length-set dest (length ds) c)),
        drop-set (length ds) dest c (omega (arith, long)),
      )
      (ap ok (sym (append_assoc ds (c ∷ []) (drop (suc (length ds)) dest))))

-- The text of a number.
text : ℕ → ℕ → List ℕ
text radix v = if v == 0 then b'0' ∷ [] else digits 32 radix v

uitoa-text :
    (v radix : ℕ) (dest : List ℕ)
    → 2 ≤ radix
    → v < 2 ^ 32
    → 32 ≤ length dest
    → uitoa v dest radix
      ≡ ok (length (text radix v), text radix v ++ drop (length (text radix v)) dest)
unfolding uitoa text
uitoa-text v radix dest lo h room = elim (Bool-cases (v == 0)) [
  | inl e ↦ rw e (zero_text dest room)
  | inr ne ↦
      rw
        (
          ne,
          count_digits-length 32 radix v 0 lo h,
          zero-add,
          write_digits-append 32 radix v dest lo h (omega (arith, length-digits-le 32 radix v)),
        )
        refl
]
  where
    zero_text :
        (dest : List ℕ)
        → 32 ≤ length dest
        → ◌>>=◌ {B = ℕ × List ℕ} (put dest 0 b'0') (λ dest. ok (1, dest))
          ≡ ok (1, b'0' ∷ drop 1 dest)
    zero_text [] room = absurd (omega arith)
    zero_text (d ∷ dest) room = rw (lt→ltb 0 (suc (length dest)) (omega arith)) refl

-- uitoa of a 32-bit value in a radix from 2 to 36, into a buffer of 32 bytes or more, returns at
-- most 32 digits, leaves what is behind them, and reading the digits gives the value.
pub uitoa_round_trip :
    (v radix : ℕ) (dest : List ℕ)
    → 2 ≤ radix
    → radix ≤ 36
    → v < 2 ^ 32
    → 32 ≤ length dest
    → Returns
        (λ (count, dest').
          (read_from radix 0 (take count dest') ≡ v)
          × (count ≤ 32)
          × (drop count dest' ≡ drop count dest))
        (uitoa v dest radix)
unfolding text read_from
uitoa_round_trip v radix dest lo hi h room = rw (uitoa-text v radix dest lo h room) (
  ap (read_from radix 0) (take-length-append t (drop (length t) dest)) ∙ read_text,
  short,
  drop-length-append t (drop (length t) dest),
)
  where
    t : List ℕ
    t = text radix v

    read_text : read_from radix 0 (text radix v) ≡ v
    read_text = elim (Bool-cases (v == 0)) [
      | inl e ↦ rw (text, e) (omega (arith, (==_iff v 0).0 e))
      | inr ne ↦ rw (text, ne) (read_from-digits 32 radix v lo hi h)
    ]

    short : length (text radix v) ≤ 32
    short = elim (Bool-cases (v == 0)) [
      | inl e ↦ rw (text, e) (omega arith)
      | inr ne ↦ rw (text, ne) (length-digits-le 32 radix v)
    ]
