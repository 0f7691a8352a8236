-- ===== src/Bitmap/Word.antt =====
-- The words that lib/kernel/bitmap.c reads have the bits of its bytes, and the byte operations act on
-- one bit.
use Prim.Native.Nat.{bit_or, bit_and}
use native.Mathlib.Nat.{pow-suc, div-div-eq-div-mul, add-suc}
use fizzos.Base.{
  ℕ, zero, suc, ◌+◌, ◌-◌, ◌*◌, ◌/◌, ◌%◌, ◌^◌, ◌<◌, ◌≡◌, refl, sym, ap, Bool, true, false, not, ◌&&◌,
  ◌||◌, arith, ◌==◌, ltb, if◌then◌else◌, eq-cases, inl, inr,
}
use fizzos.Bitmap.{test_bit}

-- A test that a table of its first values passes.
passes : (ℕ → Bool) → ℕ → Bool
passes test zero = true
passes test (suc top) = if passes test top then test top else false

passes_at : (test : ℕ → Bool) (i top : ℕ) → i < top → passes test top ≡ true → test i ≡ true
unfolding passes
passes_at test i (suc top) inside p = elim (eq-cases i top) [
  | inl e ↦ ground arith
  | inr ne ↦ ground (arith, passes_at test i top)
]
passes_at test i zero inside p = absurd (omega arith)

abbrev same : Bool → Bool → Bool
same true b = b
same false b = not b

same_eq : (a b : Bool) → same a b ≡ true → a ≡ b
same_eq true true h = refl
same_eq true false h = ground arith
same_eq false true h = ground arith
same_eq false false h = refl

set_entry : ℕ → ℕ → ℕ → Bool
set_entry b k j = same (test_bit (bit_or b (2 ^ k)) j) ((j == k) || test_bit b j)

set_table : passes (λ b. passes (λ k. passes (set_entry b k) 8) 8) 256 ≡ true
unfolding passes set_entry
set_table = refl

pub test_bit-or :
    (b k j : ℕ)
    → b < 256
    → k < 8
    → j < 8
    → test_bit (bit_or b (2 ^ k)) j ≡ ((j == k) || test_bit b j)
unfolding set_entry
test_bit-or b k j hb hk hj = same_eq _ _ (
    passes_at (set_entry b k) j 8 hj (
      passes_at (λ k. passes (set_entry b k) 8) k 8 hk
        (passes_at (λ b. passes (λ k. passes (set_entry b k) 8) 8) b 256 hb set_table)))

reset_entry : ℕ → ℕ → ℕ → Bool
reset_entry b k j = same (test_bit (bit_and b (255 - 2 ^ k)) j) (not (j == k) && test_bit b j)

reset_table : passes (λ b. passes (λ k. passes (reset_entry b k) 8) 8) 256 ≡ true
unfolding passes reset_entry
reset_table = refl

pub test_bit-and :
    (b k j : ℕ)
    → b < 256
    → k < 8
    → j < 8
    → test_bit (bit_and b (255 - 2 ^ k)) j ≡ (not (j == k) && test_bit b j)
unfolding reset_entry
test_bit-and b k j hb hk hj = same_eq _ _ (
    passes_at (reset_entry b k) j 8 hj (
      passes_at (λ k. passes (reset_entry b k) 8) k 8 hk
        (passes_at (λ b. passes (λ k. passes (reset_entry b k) 8) 8) b 256 hb reset_table)))

-- The operations keep a byte a byte.
byte_entry : ℕ → ℕ → Bool
byte_entry b k = ltb (bit_or b (2 ^ k)) 256 && ltb (bit_and b (255 - 2 ^ k)) 256

byte_table : passes (λ b. passes (byte_entry b) 8) 256 ≡ true
unfolding passes byte_entry
byte_table = refl

pub byte_ops_lt :
    (b k : ℕ) → b < 256 → k < 8 → (bit_or b (2 ^ k) < 256) × (bit_and b (255 - 2 ^ k) < 256)
unfolding byte_entry
byte_ops_lt b k hb hk = ground (
  arith,
  passes_at (byte_entry b) k 8 hk (passes_at (λ b. passes (byte_entry b) 8) b 256 hb byte_table),
)

pub ones_bit : (i : ℕ) → i < 32 → test_bit 0xffff_ffff i ≡ true
unfolding passes
ones_bit i h = passes_at (test_bit 0xffff_ffff) i 32 h refl

pow_eight : (r : ℕ) → 2 ^ (8 + r) ≡ 256 * 2 ^ r
pow_eight zero = omega arith
pow_eight (suc r) =
    omega (arith, ap (λ (k : ℕ). 2 ^ k) (add-suc 8 r), pow-suc 2 (8 + r), pow-suc 2 r, pow_eight r)

-- A shift by eight more places.
shift_eight : (w r : ℕ) → w / 2 ^ (8 + r) ≡ w / 256 / 2 ^ r
shift_eight w r = rw (pow_eight r) (sym (div-div-eq-div-mul w 256 (2 ^ r)))

-- Bits above the eighth do not show in the low ones.
low_bit : (b r i : ℕ) → i < 8 → ((b + 256 * r) / 2 ^ i) % 2 ≡ (b / 2 ^ i) % 2
low_bit b r zero h = omega arith
low_bit b r (suc zero) h = omega arith
low_bit b r (suc (suc zero)) h = omega arith
low_bit b r (suc (suc (suc zero))) h = omega arith
low_bit b r (suc (suc (suc (suc zero)))) h = omega arith
low_bit b r (suc (suc (suc (suc (suc zero))))) h = omega arith
low_bit b r (suc (suc (suc (suc (suc (suc zero)))))) h = omega arith
low_bit b r (suc (suc (suc (suc (suc (suc (suc zero))))))) h = omega arith
low_bit b r (suc (suc (suc (suc (suc (suc (suc (suc i)))))))) h = absurd (omega arith)

-- Bit `8 * q + r` of a word of four bytes is bit `r` of byte `q`.
module _ (b0 b1 b2 b3 : ℕ) (h0 : b0 < 256) (h1 : b1 < 256) (h2 : b2 < 256) where
  abbrev joined : ℕ
  joined = b0 + 256 * b1 + 65536 * b2 + 16777216 * b3

  pub joined_first : (i : ℕ) → i < 8 → (joined / 2 ^ i) % 2 ≡ (b0 / 2 ^ i) % 2
  joined_first i h =
      let e : joined ≡ b0 + 256 * (b1 + 256 * b2 + 65536 * b3) = omega arith in
      rw e (low_bit b0 (b1 + 256 * b2 + 65536 * b3) i h)

  pub joined_second : (i : ℕ) → i < 8 → (joined / 2 ^ (8 + i)) % 2 ≡ (b1 / 2 ^ i) % 2
  joined_second i h =
      let e : joined / 256 ≡ b1 + 256 * (b2 + 256 * b3) = omega arith in
      rw (shift_eight joined i, e) (low_bit b1 (b2 + 256 * b3) i h)

  pub joined_third : (i : ℕ) → i < 8 → (joined / 2 ^ (8 + (8 + i))) % 2 ≡ (b2 / 2 ^ i) % 2
  joined_third i h =
      let e : joined / 256 / 256 ≡ b2 + 256 * b3 = omega arith in
      rw (shift_eight joined (8 + i), shift_eight (joined / 256) i, e) (low_bit b2 b3 i h)

  pub joined_fourth : (i : ℕ) → i < 8 → (joined / 2 ^ (8 + (8 + (8 + i)))) % 2 ≡ (b3 / 2 ^ i) % 2
  joined_fourth i h =
      let e : joined / 256 / 256 / 256 ≡ b3 + 256 * 0 = omega arith in
      rw
        (
          shift_eight joined (8 + (8 + i)),
          shift_eight (joined / 256) (8 + i),
          shift_eight (joined / 256 / 256) i,
          e,
        )
        (low_bit b3 0 i h)
