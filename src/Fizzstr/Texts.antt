-- ===== src/Fizzstr/Texts.antt =====
-- strlen, strcpy and strncmp of lib/fizzstr.c on strings in memory.
use fizzos.Base.{
  ℕ, zero, suc, ◌+◌, ◌-◌, ◌<◌, ◌≤◌, ◌≡◌, ◌≢◌, refl, ◌⊎◌, inl, inr, arith, update, ◌∙◌, sym, ap,
  Returns, Returns-mono, ne→==_false, ==_refl, eq-cases, subst,
}
use native.Mathlib.Nat.{add-zero}
use fizzos.Fizzstr.{Bytes, strlen_from, strlen, strcpy, strncmp, byte_difference}
use fizzos.Fizzstr.Copy.{replaced}

-- A string of `len` bytes at `s`.
pub record IsText (m : Bytes) (s len : ℕ) : Type 0 where
  pub inside : (j : ℕ) → j < len → m (s + j) ≢ 0
  pub ending : m (s + len) ≡ 0

strlen_from-text :
    (k len s i : ℕ) (m : Bytes)
    → ((j : ℕ) → j < len → m (s + j) ≢ 0)
    → m (s + len) ≡ 0
    → i ≤ len
    → len < i + k
    → strlen_from k i s m ≡ len
unfolding strlen_from
strlen_from-text zero len s i m inside ending lo hi = absurd (omega arith)
strlen_from-text (suc k) len s i m inside ending lo hi = elim (eq-cases i len) [
  | inl e ↦ rw (e, ending) refl
  | inr ne ↦
      rw (ne→==_false (m (s + i)) 0 (inside i (omega arith)))
        (strlen_from-text k len s (i + 1) m inside ending (omega arith) (omega arith))
]

-- strlen of a string of fewer than 100 bytes is the number of its bytes.
pub strlen-text : (len s : ℕ) (m : Bytes) → IsText m s len → len < 100 → strlen s m ≡ len
unfolding strlen
strlen-text len s m t h =
    strlen_from-text 100 len s 0 m t.inside t.ending (omega arith) (omega arith)

-- strncmp of strings whose first `n` bytes are the same, none of them 0, gives the difference of the
-- bytes behind those.
pub strncmp_behind :
    (s1 s2 n : ℕ) (m : Bytes)
    → ((j : ℕ) → j < n → (m (s1 + j) ≢ 0) × (m (s1 + j) ≡ m (s2 + j)))
    → strncmp s1 s2 n m ≡ byte_difference (m (s1 + n)) (m (s2 + n))
unfolding strncmp
strncmp_behind s1 s2 zero m h = rw (add-zero s1, add-zero s2) refl
strncmp_behind s1 s2 (suc n) m h =
    rw (sym second, ne→==_false (m s1) 0 first, ==_refl (m s1), e1, e2)
      (strncmp_behind (s1 + 1) (s2 + 1) n m
        (λ j lt. rw (shift s1 j, shift s2 j) (h (suc j) (omega arith))))
  where
    shift : (s j : ℕ) → s + 1 + j ≡ s + suc j
    shift s j = omega arith

    e1 : s1 + suc n ≡ s1 + 1 + n
    e1 = omega arith

    e2 : s2 + suc n ≡ s2 + 1 + n
    e2 = omega arith

    first : m s1 ≢ 0
    first = subst (λ a. m a ≢ 0) (add-zero s1) (h 0 (omega arith)).0

    second : m s1 ≡ m s2
    second = ap m (sym (add-zero s1)) ∙ (h 0 (omega arith)).1 ∙ ap m (add-zero s2)

-- strcpy of a string, with a round for each byte and one more, to a place that does not overlap it
-- copies its bytes with the terminating 0, and changes no other byte.
pub strcpy-replaced :
    (k dest src len : ℕ) (m : Bytes)
    → IsText m src len
    → len < k
    → (dest + len < src) ⊎ (src + len < dest)
    → Returns
        (λ m'. (a : ℕ) → m' a ≡ replaced dest (len + 1) (λ i. m (src + i)) m a)
        (strcpy k dest src m)
unfolding strcpy
strcpy-replaced zero dest src len m t h apart = absurd (omega arith)
strcpy-replaced (suc k) dest src zero m t h apart =
    rw (sym (ap m (add-zero src)) ∙ t.ending) (λ a. ground (arith, t.ending))
strcpy-replaced (suc k) dest src (suc len) m t h apart =
    rw (ne→==_false (m src) 0 (subst (λ a. m a ≢ 0) (add-zero src) (t.inside 0 (omega arith)))) (
      Returns-mono
        (λ m'. (a : ℕ) → m' a ≡ replaced (dest + 1) (len + 1) (λ i. m1 (src + 1 + i)) m1 a)
        (λ m'. (a : ℕ) → m' a ≡ replaced dest (suc len + 1) (λ i. m (src + i)) m a)
        (strcpy k (dest + 1) (src + 1) m1)
        (strcpy-replaced k (dest + 1) (src + 1) len m1 rest (omega arith) (later apart))
        (λ m' e a. e a ∙ both a))
  where
    m1 : Bytes
    m1 = update m dest (m src)

    later :
        (dest + suc len < src) ⊎ (src + suc len < dest)
        → (dest + 1 + len < src + 1) ⊎ (src + 1 + len < dest + 1)
    later (inl l) = inl (omega arith)
    later (inr r) = inr (omega arith)

    kept : (j : ℕ) → j ≤ len → m1 (src + 1 + j) ≡ m (src + suc j)
    kept j le = rw shift (away apart)
      where
        shift : src + 1 + j ≡ src + suc j
        shift = omega arith

        away : (dest + suc len < src) ⊎ (src + suc len < dest) → m1 (src + suc j) ≡ m (src + suc j)
        away (inl l) = ground arith
        away (inr r) = ground arith

    rest : IsText m1 (src + 1) len
    rest = record {
      inside = λ j lt e. t.inside (suc j) (omega arith) (sym (kept j (omega arith)) ∙ e);
      ending = kept len (omega arith) ∙ t.ending;
    }

    both :
        (a : ℕ)
        → replaced (dest + 1) (len + 1) (λ i. m1 (src + 1 + i)) m1 a
          ≡ replaced dest (suc len + 1) (λ i. m (src + i)) m a
    both a = ground (arith, kept (a - (dest + 1)))
