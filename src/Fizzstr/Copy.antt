-- ===== src/Fizzstr/Copy.antt =====
-- memcpy and memset of lib/fizzstr.c.
use fizzos.Base.{
  ℕ, zero, suc, ◌+◌, ◌-◌, ◌%◌, ◌^◌, ◌<◌, ◌≤◌, ◌≡◌, refl, ◌⊎◌, inl, inr, arith, Bool, ◌&&◌, ltb, leb,
  if◌then◌else◌, update, true, false, ◌∙◌, ap, fun_ext, Bool-cases,
}
use native.Mathlib.Nat.{mod-eq_of_lt, add-zero, zero-add}
use fizzos.Fizzstr.{Bytes, copy_down, copy_up, memcpy, fill_up, memset}

-- The memory `m` with the `n` bytes from `dest` on taken from `f`.
abbrev pub replaced : ℕ → ℕ → (ℕ → ℕ) → Bytes → Bytes
replaced dest n f m a = if leb dest a && ltb a (dest + n) then f (a - dest) else m a

copy_down-replaced :
    (n dest src : ℕ) (m : Bytes) (a : ℕ)
    → src ≤ dest
    → copy_down n dest src m a ≡ replaced dest n (λ i. m (src + i)) m a
unfolding copy_down
copy_down-replaced zero dest src m a h = ground arith
copy_down-replaced (suc n) dest src m a h =
    copy_down-replaced n dest src (update m (dest + n) (m (src + n))) a h ∙ ground arith

copy_up-replaced :
    (k i dest src : ℕ) (m : Bytes) (a : ℕ)
    → (dest < src) ⊎ (src + (i + k) ≤ dest)
    → copy_up k i dest src m a ≡ replaced (dest + i) k (λ j. m (src + (i + j))) m a
unfolding copy_up
copy_up-replaced zero i dest src m a h = ground arith
copy_up-replaced (suc k) i dest src m a h =
    copy_up-replaced k (i + 1) dest src (update m (dest + i) (m (src + i))) a (side h)
    ∙ ground arith
  where
    side : (dest < src) ⊎ (src + (i + suc k) ≤ dest) → (dest < src) ⊎ (src + (i + 1 + k) ≤ dest)
    side (inl l) = inl l
    side (inr r) = inr (omega arith)

-- memcpy of memory that does not go round the end of the address space copies the bytes as they were
-- before, where source and destination overlap too, and changes no other byte.
pub memcpy-replaced :
    (dest src n : ℕ) (m : Bytes) (a : ℕ)
    → src + n < 2 ^ 32
    → memcpy dest src n m a ≡ replaced dest n (λ i. m (src + i)) m a
unfolding memcpy
memcpy-replaced dest src n m a h =
    rw (mod-eq_of_lt h) (elim (Bool-cases (leb src dest && ltb dest (src + n))) [
      | inl inside ↦ rw inside (copy_down-replaced n dest src m a (ground arith))
      | inr apart ↦ rw apart (upwards (outside (leb src dest) (ltb dest (src + n)) refl refl apart))
    ])
  where
    outside :
        (p q : Bool)
        → leb src dest ≡ p
        → ltb dest (src + n) ≡ q
        → (p && q) ≡ false
        → (dest < src) ⊎ (src + (0 + n) ≤ dest)
    outside false q ep eq e = inl (ground arith)
    outside true false ep eq e = inr (ground arith)
    outside true true ep eq e = absurd (ground arith)

    upwards :
        (dest < src) ⊎ (src + (0 + n) ≤ dest)
        → copy_up n 0 dest src m a ≡ replaced dest n (λ i. m (src + i)) m a
    upwards side =
        copy_up-replaced n 0 dest src m a side
        ∙ rw (add-zero dest) (
            ap (λ (f : ℕ → ℕ). replaced dest n f m a)
              (fun_ext (λ i. ap (λ k. m (src + k)) (zero-add i))))

fill_up-replaced :
    (k i s c : ℕ) (m : Bytes) (a : ℕ) → fill_up k i s c m a ≡ replaced (s + i) k (λ j. c % 256) m a
unfolding fill_up
fill_up-replaced zero i s c m a = ground arith
fill_up-replaced (suc k) i s c m a =
    fill_up-replaced k (i + 1) s c (update m (s + i) (c % 256)) a ∙ ground arith

-- memset sets the `n` bytes from its address on to its value, as a byte, and changes no other.
pub memset-replaced :
    (s c n : ℕ) (m : Bytes) (a : ℕ) → memset s c n m a ≡ replaced s n (λ j. c % 256) m a
unfolding memset
memset-replaced s c n m a =
    fill_up-replaced n 0 s c m a ∙ ap (λ k. replaced k n (λ j. c % 256) m a) (add-zero s)
