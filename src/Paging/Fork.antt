-- ===== src/Paging/Fork.antt =====
-- copy_mm: both processes see what the one saw, and what is left is sound.
use mathlib.Core.Path.{ap₂}
use fizzos.Base.{
  Bool-cases, ltb, ltb→lt, ◌||◌, ==_iff, ℕ, zero, suc, ◌+◌, ◌%◌, ◌^◌, ◌<◌, ◌≤◌, ◌≡◌, ◌≢◌, refl, sym,
  ap, ◌∙◌, Bool, true, false, Option, none, some, List, [], ◌∷◌, ◌++◌, arith, ◌==◌, if◌then◌else◌,
  get_or, set, length, length-set, length-append, get_or-set_self, get_or-set_ne, get_or-snoc_lt,
  get_or-snoc_last, get_or_beyond, eq-cases, ==_refl, ne→==_false, inl, inr, subst, total,
  total-one, total-append, total-set, le-total, two-le-total, update, map,
}
use fizzos.Paging.{Pte, Space, Machine, space_of, entry, copy_entries, copy_mm}
use fizzos.Paging.View.{byte_at, view, entry_inside}
use fizzos.Paging.Count.{slot_hits, hits, maps, IsSound, slot_self}

abbrev read_only : Option Pte → Option Pte
read_only none = none
read_only (some e) = some (record e { writable = false })

copy_entries-space : (s : Space) (count : ℕ → ℕ) → (copy_entries s count).0 ≡ map read_only s
unfolding copy_entries
copy_entries-space [] count = refl
copy_entries-space (none ∷ s) count = ap (λ (r : Space). none ∷ r) (copy_entries-space s count)
copy_entries-space (some e ∷ s) count =
    ap (λ (r : Space). some (record e { writable = false }) ∷ r)
      (copy_entries-space s (update count e.frame ((count e.frame + 1) % 2 ^ 32)))

copy_entries-count :
    (s : Space) (count : ℕ → ℕ) (f : ℕ)
    → count f + hits f s < 2 ^ 32
    → (copy_entries s count).1 f ≡ count f + hits f s
unfolding copy_entries total
copy_entries-count [] count f h = omega arith
copy_entries-count (none ∷ s) count f h = omega (arith, copy_entries-count s count f (omega arith))
copy_entries-count (some e ∷ s) count f h =
    let counted = update count e.frame ((count e.frame + 1) % 2 ^ 32) in
    let one_more = counts_one e count f (omega arith) in
    omega (arith, one_more, copy_entries-count s counted f (omega (arith, one_more)))
  where
    counts_one :
        (e : Pte) (count : ℕ → ℕ) (f : ℕ)
        → count f + slot_hits f (some e) < 2 ^ 32
        → update count e.frame ((count e.frame + 1) % 2 ^ 32) f ≡ count f + slot_hits f (some e)
    counts_one e count f h = elim (eq-cases f e.frame) [
      | inl same ↦
          subst
            (λ (k : ℕ).
              count k + slot_hits k (some e) < 2 ^ 32
              → update count e.frame ((count e.frame + 1) % 2 ^ 32) k
                ≡ count k + slot_hits k (some e))
            (sym same) (λ lt. rw (==_refl e.frame) (omega (arith, rw (==_refl e.frame) at lt))) h
      | inr other ↦
          rw (ne→==_false f e.frame other, ne→==_false e.frame f (λ back. other (sym back)))
            (omega arith)
    ]

hits-read_only : (f : ℕ) (s : Space) → hits f (map read_only s) ≡ hits f s
unfolding total
hits-read_only f [] = refl
hits-read_only f (none ∷ s) = omega (arith, hits-read_only f s)
hits-read_only f (some e ∷ s) = omega (arith, hits-read_only f s)

get_or-read_only :
    (s : Space) (v : ℕ) → get_or (map read_only s) v none ≡ read_only (get_or s v none)
get_or-read_only [] v = refl
get_or-read_only (o ∷ s) zero = refl
get_or-read_only (o ∷ s) (suc v) = get_or-read_only s v

-- No page of the caller is counted too high to count it once more.
abbrev pub HasRoom : ℕ → Machine → Type 0
HasRoom p m = (f : ℕ) → m.count f + hits f (space_of p m) < 2 ^ 32

module _ (p : ℕ) (m : Machine) (hp : p < length m.spaces) where
  abbrev copied : Space
  copied = map read_only (space_of p m)

  copy_mm-spaces : (copy_mm p m).spaces ≡ set m.spaces p copied ++ (copied ∷ [])
  unfolding copy_mm
  copy_mm-spaces =
      ap (λ (s : Space). set m.spaces p s ++ (s ∷ [])) (copy_entries-space (space_of p m) m.count)

  -- Whose memory a process has behind the call: the new one has that of the one that called.
  abbrev origin : ℕ → ℕ
  origin q = if q == length m.spaces then p else q

  old_process :
      (q : ℕ)
      → q ≢ length m.spaces
      → get_or (set m.spaces p copied ++ (copied ∷ [])) q []
        ≡ (if q == p then copied else space_of q m)
  old_process q ne = elim (Bool-cases (ltb q (length m.spaces))) [
    | inl inside ↦
        get_or-snoc_lt (set m.spaces p copied) copied [] q
          (omega (arith, ltb→lt q (length m.spaces) inside, length-set m.spaces p copied))
        ∙ elim (eq-cases q p) [
          | inl same ↦ rw (same, ==_refl p) (get_or-set_self m.spaces p copied [] hp)
          | inr other ↦
              rw (ne→==_false q p other) (get_or-set_ne m.spaces p q copied [] (λ e. other (sym e)))
        ]
    | inr beyond ↦
        let far = not_lt beyond in
        get_or_beyond (set m.spaces p copied ++ (copied ∷ [])) [] q (
          omega (
            arith,
            length-append (set m.spaces p copied) (copied ∷ []),
            length-set m.spaces p copied,
          ))
        ∙ rw (ne→==_false q p (omega arith)) (sym (get_or_beyond m.spaces [] q (omega arith)))
  ]
    where
      not_lt : ltb q (length m.spaces) ≡ false → length m.spaces < q
      not_lt h = ground arith

  -- The tables of each process.
  copy_mm-space :
      (q : ℕ)
      → space_of q (copy_mm p m)
        ≡ (if q == length m.spaces then copied else (if q == p then copied else space_of q m))
  copy_mm-space q =
      ap (λ (ss : List Space). get_or ss q []) copy_mm-spaces
      ∙ elim (eq-cases q (length m.spaces)) [
        | inl last ↦
            rw (last, ==_refl (length m.spaces))
              (ap (λ (k : ℕ). get_or (set m.spaces p copied ++ (copied ∷ [])) k [])
                  (sym (length-set m.spaces p copied))
                ∙ get_or-snoc_last (set m.spaces p copied) copied [])
        | inr before ↦ rw (ne→==_false q (length m.spaces) before) (old_process q before)
      ]

  copy_mm-entry :
      (q w : ℕ)
      → entry q w (copy_mm p m)
        ≡ (if (q == length m.spaces) || (q == p) then read_only (entry p w m) else entry q w m)
  copy_mm-entry q w =
      ap (λ (s : Space). get_or s w none) (copy_mm-space q) ∙ pick (q == length m.spaces) (q == p)
    where
      pick :
          (b c : Bool)
          → get_or (if b then copied else (if c then copied else space_of q m)) w none
            ≡ (if b || c then read_only (entry p w m) else entry q w m)
      pick true c = get_or-read_only (space_of p m) w
      pick false true = get_or-read_only (space_of p m) w
      pick false false = refl

  copy_mm-mem : (copy_mm p m).mem ≡ m.mem
  unfolding copy_mm
  copy_mm-mem = refl

  byte-read_only :
      (off : ℕ) (o : Option Pte) → byte_at m.mem off (read_only o) ≡ byte_at m.mem off o
  byte-read_only off none = refl
  byte-read_only off (some e) = refl

  -- Behind the call each process sees what it saw, and the new one what the caller saw.
  copy_mm-view : (q w off : ℕ) → view (copy_mm p m) q w off ≡ view m (origin q) w off
  copy_mm-view q w off =
      ap₂ (λ (mem : ℕ → ℕ → ℕ) (o : Option Pte). byte_at mem off o) copy_mm-mem (copy_mm-entry q w)
      ∙ pick (q == length m.spaces) (q == p) refl
    where
      pick :
          (b c : Bool)
          → q == p ≡ c
          → byte_at m.mem off (if b || c then read_only (entry p w m) else entry q w m)
            ≡ view m (if b then p else q) w off
      pick true c at_p = byte-read_only off (entry p w m)
      pick false true at_p =
          byte-read_only off (entry p w m)
          ∙ ap (λ (k : ℕ). view m k w off) (sym ((==_iff q p).0 at_p))
      pick false false at_p = refl

  copy_mm-maps : (f : ℕ) → maps f (copy_mm p m) ≡ maps f m + hits f (space_of p m)
  copy_mm-maps f =
      ap (total (hits f)) copy_mm-spaces
      ∙ omega (
        arith,
        total-append (hits f) (set m.spaces p copied) (copied ∷ []),
        total-set (hits f) m.spaces p copied [] hp,
        hits-read_only f (space_of p m),
        total-one (hits f) copied,
      )

  copy_mm-count : HasRoom p m → (f : ℕ) → (copy_mm p m).count f ≡ m.count f + hits f (space_of p m)
  unfolding copy_mm
  copy_mm-count room f = copy_entries-count (space_of p m) m.count f (room f)

  hits-le-maps : (f : ℕ) → hits f (space_of p m) ≤ maps f m
  hits-le-maps f = le-total (hits f) m.spaces p [] hp

  -- The pages of the caller are counted once more, and nobody may write to them.
  copy_mm-IsSound : HasRoom p m → IsSound m → IsSound (copy_mm p m)
  copy_mm-IsSound room s = record {
    counted = λ f pos. omega (
      arith,
      copy_mm-count room f,
      copy_mm-maps f,
      s.counted f (omega (arith, hits-le-maps f, copy_mm-maps f)),
    );
    exclusive = λ q w e at_q ready.
        let (ne, before) = private q w e (sym (copy_mm-entry q w) ∙ at_q) ready in
        omega (
          arith,
          copy_mm-maps e.frame,
          s.exclusive q w e before ready,
          not_shared q w e ne before (s.exclusive q w e before ready),
        );
  }
    where
      private :
          (q w : ℕ) (e : Pte)
          → (if (q == length m.spaces) || (q == p) then read_only (entry p w m) else entry q w m)
            ≡ some e
          → e.writable ≡ true
          → (q ≢ p) × (entry q w m ≡ some e)
      private q w e h ready = pick (q == length m.spaces) (q == p) refl (entry p w m) h
        where
          shut : (x : Pte) → some (record x { writable = false }) ≡ some e → e.writable ≡ false
          shut x h = ground arith

          pick :
              (b c : Bool)
              → q == p ≡ c
              → (o : Option Pte) → (if b || c then read_only o else entry q w m) ≡ some e
              → (q ≢ p) × (entry q w m ≡ some e)
          pick true c at_p none h = absurd (ground arith)
          pick true c at_p (some x) h = absurd (ground (arith, shut x h))
          pick false true at_p none h = absurd (ground arith)
          pick false true at_p (some x) h = absurd (ground (arith, shut x h))
          pick false false at_p o h = ((λ same. absurd (ground arith)), h)

      not_shared :
          (q w : ℕ) (e : Pte)
          → q ≢ p
          → entry q w m ≡ some e
          → maps e.frame m ≡ 1
          → hits e.frame (space_of p m) ≡ 0
      not_shared q w e ne at_q one =
          let (hq, hw) = entry_inside m q w e at_q in
          omega (
            arith,
            two-le-total (hits e.frame) m.spaces q p [] hq hp ne,
            le-total (slot_hits e.frame) (space_of q m) w none hw,
            ap (slot_hits e.frame) at_q,
            slot_self e,
          )

-- fork of a process of a sound machine, where no count of a page goes past 2 ^ 32: the machine is
-- sound then, the new process sees at each place what the caller saw, and the others see what they
-- did.
pub copy_mm-Forked :
    (p : ℕ) (m : Machine)
    → p < length m.spaces
    → HasRoom p m
    → IsSound m
    → IsSound (copy_mm p m)
      × ((q w off : ℕ)
          → view (copy_mm p m) q w off ≡ view m (if q == length m.spaces then p else q) w off)
copy_mm-Forked p m hp room s = (copy_mm-IsSound p m hp room s, copy_mm-view p m hp)
