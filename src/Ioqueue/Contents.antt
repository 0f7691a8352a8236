-- ===== src/Ioqueue/Contents.antt =====
-- The characters that a queue of device/ioqueue.c holds, and its representation invariant.
use fizzos.Base.{
  ℕ, zero, suc, ◌+◌, ◌-◌, ◌%◌, ◌<◌, ◌≤◌, ◌≡◌, ◌≢◌, refl, ap, List, [], ◌∷◌, ◌++◌, arith, length,
  get_or, ltb, if◌then◌else◌, set, sym, ◌∙◌, get_or-set_ne,
}
use mathlib.Core.Path.{ap₂}
use native.Mathlib.Nat.{mod-eq_of_lt, mod-eq-sub-mod, mod-lt, mod-add-mod, add-zero}
use native.Mathlib.Decide.{dec_lt}
use fizzos.Ioqueue.{Ioqueue, available}

pub record IsValid (q : Ioqueue) : Type 0 where
  pub room : 1 < q.buf_size
  pub storage : q.buf_size ≤ length q.buf
  pub head_in : q.head < q.buf_size
  pub tail_in : q.tail < q.buf_size

-- The `n` characters from index `i` on, going round at `size`.
abbrev pub window : List ℕ → ℕ → ℕ → ℕ → List ℕ
window buf size i zero = []
window buf size i (suc n) = get_or buf i 0 ∷ window buf size ((i + 1) % size) n

-- The oldest character stands behind `head`.
abbrev pub contents : Ioqueue → List ℕ
contents q = window q.buf q.buf_size ((q.head + 1) % q.buf_size) (available q)

pub length-window : (buf : List ℕ) (size i n : ℕ) → length (window buf size i n) ≡ n
length-window buf size i zero = refl
length-window buf size i (suc n) = ap suc (length-window buf size ((i + 1) % size) n)

-- A number below twice the size, round the ring.
pub mod_wrap : (x size : ℕ) → x < size + size → x % size ≡ (if ltb x size then x else x - size)
mod_wrap x size h = elim (dec_lt x size) [
  | yes p ↦ ground (arith, mod-eq_of_lt {n = x} {m = size} p)
  | no p ↦ ground (
    arith,
    mod-eq-sub-mod {n = x} {m = size} (omega arith),
    mod-eq_of_lt {n = x - size} {m = size} (omega arith),
  )
]

module _ (size head tail : ℕ) (h : head < size) (t : tail < size) where
  abbrev start : ℕ
  start = (head + 1) % size

  abbrev count : ℕ
  count = (tail + size - head - 1) % size

  start_wrap : start ≡ (if ltb (head + 1) size then head + 1 else head + 1 - size)
  start_wrap = mod_wrap (head + 1) size (omega arith)

  count_wrap : count ≡ (
      if ltb (tail + size - head - 1) size
      then tail + size - head - 1
      else tail + size - head - 1 - size)
  count_wrap = mod_wrap (tail + size - head - 1) size (omega arith)

  pub start_lt : start < size
  start_lt = ground (arith, start_wrap)

  pub count_lt : count < size
  count_lt = ground (arith, count_wrap)

  -- The place behind the last character is the tail.
  pub start-add-count : (start + count) % size ≡ tail
  start-add-count = ground (
    arith,
    start_wrap,
    count_wrap,
    mod_wrap (start + count) size (omega (arith, start_lt, count_lt)),
  )

  -- No other character stands at the tail.
  pub before_tail : (k : ℕ) → k < count → (start + k) % size ≢ tail
  before_tail k lt e =
      ground (
        arith,
        start_wrap,
        count_wrap,
        mod_wrap (start + k) size (omega (arith, start_lt, count_lt)),
      )

  -- One character more.
  pub count_put : count < size - 1 → ((tail + 1) % size + size - head - 1) % size ≡ count + 1
  count_put room = ground (
    arith,
    count_wrap,
    mod_wrap (tail + 1) size (omega arith),
    mod_wrap ((tail + 1) % size + size - head - 1) size
        (omega (arith, mod-lt (tail + 1) {m = size} (omega arith))),
  )

  -- One character less at the front.
  pub count_get : count ≢ 0 → (tail + size - start - 1) % size + 1 ≡ count
  count_get some_left = ground (
    arith,
    start_wrap,
    count_wrap,
    mod_wrap (tail + size - start - 1) size (omega (arith, start_lt)),
  )

  -- One character less at the back.
  pub count_drop : count ≢ 0 → ((tail + size - 1) % size + size - head - 1) % size + 1 ≡ count
  count_drop some_left = ground (
    arith,
    count_wrap,
    mod_wrap (tail + size - 1) size (omega arith),
    mod_wrap ((tail + size - 1) % size + size - head - 1) size
        (omega (arith, mod-lt (tail + size - 1) {m = size} (omega arith))),
  )

module _ (buf : List ℕ) (size : ℕ) where
  pub window-snoc :
      (i n : ℕ)
      → i < size
      → window buf size i (suc n) ≡ window buf size i n ++ (get_or buf ((i + n) % size) 0 ∷ [])
  window-snoc i zero h = rw (add-zero, mod-eq_of_lt h) refl
  window-snoc i (suc n) h =
      ap (λ l. get_or buf i 0 ∷ l)
        (window-snoc ((i + 1) % size) n (mod-lt (i + 1) (omega arith))
          ∙ ap (λ k. window buf size ((i + 1) % size) n ++ (get_or buf k 0 ∷ [])) (shift i n))
    where
      shift : (i n : ℕ) → ((i + 1) % size + n) % size ≡ (i + suc n) % size
      shift i n = rw mod-add-mod (ap (λ k. k % size) (omega arith))

  pub window-set :
      (t v i n : ℕ)
      → i < size
      → ((k : ℕ) → k < n → (i + k) % size ≢ t)
      → window (set buf t v) size i n ≡ window buf size i n
  window-set t v i zero h apart = refl
  window-set t v i (suc n) h apart =
      ap₂ ◌∷◌ (get_or-set_ne buf t i v 0 (λ e. apart 0 (omega arith) (first ∙ sym e))) (
        window-set t v ((i + 1) % size) n (mod-lt (i + 1) (omega arith))
          (λ k lt e. apart (suc k) (omega arith) (sym (shift k) ∙ e)))
    where
      first : (i + 0) % size ≡ i
      first = rw (add-zero, mod-eq_of_lt h) refl

      shift : (k : ℕ) → ((i + 1) % size + k) % size ≡ (i + suc k) % size
      shift k = rw mod-add-mod (ap (λ m. m % size) (omega arith))
