-- ===== src/Paging/Protect.antt =====
-- page_protect_fault: what it leaves is sound, looks the same to every process, and the page can be
-- written to.
use mathlib.Core.Path.{ap₂}
use fizzos.Base.{
  ℕ, ◌+◌, ◌-◌, ◌%◌, ◌^◌, ◌<◌, ◌≤◌, ◌≡◌, ◌≢◌, ◌⊎◌, refl, sym, ap, ◌∙◌, Bool, true, false, ◌&&◌,
  Option, none, some, Outcome, panic, ◌>>◌, assert, arith, ◌==◌, ltb, if◌then◌else◌, eq-cases,
  ==_refl, ne→==_false, inl, inr, Returns, update, ==_iff,
}
use fizzos.Paging.{Pte, Machine, entry, set_entry, copy_page, protect_entry}
use fizzos.Paging.View.{byte_at, view, entry_inside, entry-set_entry, entry_after}
use fizzos.Paging.Count.{slot_hits, maps, IsSound, IsFresh, maps-set_entry, entry-maps}

-- The other entries are what they were, and the entry is writable and has the same bytes.
pub record Unshared (p v : ℕ) (m m' : Machine) : Type 0 where
  pub sound : IsSound m'
  pub looks : (q w off : ℕ) → view m' q w off ≡ view m q w off
  pub ready : (e : Pte) × (entry p v m' ≡ some e) × (e.writable ≡ true)

-- An entry is replaced, in a state with other bytes and counts.
module _ (m : Machine) (mem : ℕ → ℕ → ℕ) (count : ℕ → ℕ) (p v : ℕ) (e n : Pte)
    (h : entry p v m ≡ some e) where
  abbrev replaced : Machine
  replaced = set_entry p v (some n) (record m { mem = mem; count = count })

  replaced-maps : (f : ℕ) → maps f replaced + slot_hits f (some e) ≡ maps f m + slot_hits f (some n)
  replaced-maps f =
      let (hp, hv) = entry_inside m p v e h in
      omega (arith, maps-set_entry m p v f (some n) hp hv, ap (slot_hits f) h)

  replaced-entry :
      (q w : ℕ) (e' : Pte)
      → entry q w replaced ≡ some e'
      → ((q ≡ p) × (w ≡ v) × (n ≡ e')) ⊎ (((q ≢ p) ⊎ (w ≢ v)) × (entry q w m ≡ some e'))
  replaced-entry q w e' h' =
      let (hp, hv) = entry_inside m p v e h in
      elim (entry_after m p v q w (some n) e' hp hv h') [
        | inl (a, b, c) ↦ inl (a, b, some-inj c)
        | inr other ↦ inr other
      ]
    where
      some-inj : some n ≡ some e' → n ≡ e'
      some-inj c = cc

  -- The bytes that the entry names stay, and no other entry names a page that was written.
  replaced-Unshared :
      IsSound replaced
      → ((off : ℕ) → mem n.frame off ≡ m.mem e.frame off)
      → ((q w : ℕ) (e' : Pte) (off : ℕ)
          → entry q w m ≡ some e'
          → mem e'.frame off ≡ m.mem e'.frame off)
      → n.writable ≡ true
      → Unshared p v m replaced
  replaced-Unshared sound here there ready = record {
    sound = sound;
    looks = looks;
    ready = (n, at_place, ready);
  }
    where
      at_place : entry p v replaced ≡ some n
      at_place =
          entry-set_entry m p v p v (some n) (entry_inside m p v e h).0 (entry_inside m p v e h).1
          ∙ rw (==_refl p, ==_refl v) refl

      unchanged :
          (o : Option Pte) (q w off : ℕ) → entry q w m ≡ o → byte_at mem off o ≡ byte_at m.mem off o
      unchanged none q w off at_q = refl
      unchanged (some e') q w off at_q = ap some (there q w e' off at_q)

      looks : (q w off : ℕ) → view replaced q w off ≡ view m q w off
      looks q w off =
          ap (byte_at mem off) (
            entry-set_entry m p v q w (some n) (entry_inside m p v e h).0
              (entry_inside m p v e h).1)
          ∙ pick (q == p) (w == v) refl refl
        where
          pick :
              (b c : Bool)
              → q == p ≡ b
              → w == v ≡ c
              → byte_at mem off (if b && c then some n else entry q w m)
                ≡ byte_at m.mem off (entry q w m)
          pick true true at_q at_w =
              ap some (here off)
              ∙ ap (byte_at m.mem off) (
                  sym (
                    ap₂ (λ (q w : ℕ). entry q w m) ((==_iff q p).0 at_q) ((==_iff w v).0 at_w) ∙ h))
          pick true false at_q at_w = unchanged (entry q w m) q w off refl
          pick false c at_q at_w = unchanged (entry q w m) q w off refl

-- A page that one entry names becomes writable.
set_writable :
    (p v : ℕ) (m : Machine) (e : Pte)
    → IsSound m
    → entry p v m ≡ some e
    → maps e.frame m ≡ 1
    → Unshared p v m (set_entry p v (some (record e { writable = true })) m)
set_writable p v m e s h one =
    replaced-Unshared m m.mem m.count p v e n h
      (record {
        counted = λ f pos. s.counted f (omega (arith, same f)) ∙ sym (same f);
        exclusive = exclusive;
      })
      (λ off. refl) (λ q w e' off at_q. refl) refl
  where
    n : Pte
    n = record e { writable = true }

    same : (f : ℕ) → maps f (replaced m m.mem m.count p v e n h) ≡ maps f m
    same f = omega (arith, replaced-maps m m.mem m.count p v e n h f)

    exclusive :
        (q w : ℕ) (e' : Pte)
        → entry q w (replaced m m.mem m.count p v e n h) ≡ some e'
        → e'.writable ≡ true
        → maps e'.frame (replaced m m.mem m.count p v e n h) ≡ 1
    exclusive q w e' at_q ready = elim (replaced-entry m m.mem m.count p v e n h q w e' at_q) [
      | inl (a, b, c) ↦ same e'.frame ∙ sym (ap (λ (k : Pte). maps k.frame m) c) ∙ one
      | inr (other, before) ↦ same e'.frame ∙ s.exclusive q w e' before ready
    ]

-- A page that two entries name is copied for one of them.
module _ (p v new_pg : ℕ) (m : Machine) (e : Pte) (s : IsSound m) (h : entry p v m ≡ some e)
    (fresh : IsFresh new_pg m) (two : maps e.frame m ≡ 2) where
  abbrev mem' : ℕ → ℕ → ℕ
  mem' = update m.mem new_pg (m.mem e.frame)

  abbrev count' : ℕ → ℕ
  count' = update (update m.count new_pg 1) e.frame ((m.count e.frame + 2 ^ 32 - 1) % 2 ^ 32)

  abbrev copied : Pte
  copied = record { frame = new_pg; writable = true }

  old_count : m.count e.frame ≡ 2
  old_count = s.counted e.frame (omega arith) ∙ two

  apart : new_pg ≢ e.frame
  apart same = absurd (omega (arith, fresh, two, ap (λ (f : ℕ). maps f m) same))

  -- The sums at one frame.
  hits_after :
      (f k : ℕ)
      → k + slot_hits f (some e) ≡ maps f m + slot_hits f (some copied)
      → ((f ≡ e.frame) × (k ≡ 1))
        ⊎ ((f ≡ new_pg) × (k ≡ 1))
        ⊎ ((f ≢ e.frame) × (f ≢ new_pg) × (k ≡ maps f m))
  hits_after f k sum = elim (eq-cases f e.frame) [
    | inl old ↦
        let of_old = ap (λ (g : ℕ). maps g m) old in inl (old, ground (arith, two, of_old, apart))
    | inr not_old ↦ elim (eq-cases f new_pg) [
      | inl new ↦
          let of_new = ap (λ (g : ℕ). maps g m) new in
          inr (inl (new, ground (arith, fresh, of_new)))
      | inr not_new ↦ inr (inr (not_old, not_new, ground arith))
    ]
  ]

  copied-counted :
      (f : ℕ)
      → 0 < maps f (replaced m mem' count' p v e copied h)
      → count' f ≡ maps f (replaced m mem' count' p v e copied h)
  copied-counted f pos =
      elim (hits_after f (maps f (replaced m mem' count' p v e copied h))
        (replaced-maps m mem' count' p v e copied h f)) [
          | inl (old, one) ↦ ap count' old ∙ rw (==_refl e.frame, old_count) (sym one)
          | inr (inl (new, one)) ↦
              ap count' new ∙ rw (ne→==_false new_pg e.frame apart, ==_refl new_pg) (sym one)
          | inr (inr (not_old, not_new, same)) ↦
              rw (ne→==_false f e.frame not_old, ne→==_false f new_pg not_new)
                (s.counted f (omega arith) ∙ sym same)
        ]

  -- No other writable entry names either frame.
  copied-exclusive :
      (q w : ℕ) (e' : Pte)
      → entry q w (replaced m mem' count' p v e copied h) ≡ some e'
      → e'.writable ≡ true
      → maps e'.frame (replaced m mem' count' p v e copied h) ≡ 1
  copied-exclusive q w e' at_q ready =
      elim (hits_after e'.frame (maps e'.frame (replaced m mem' count' p v e copied h))
        (replaced-maps m mem' count' p v e copied h e'.frame)) [
          | inl (old, one) ↦ one
          | inr (inl (new, one)) ↦ one
          | inr (inr (not_old, not_new, same)) ↦
              elim (replaced-entry m mem' count' p v e copied h q w e' at_q) [
                | inl (a, b, c) ↦ absurd (not_new (sym (ap (λ (k : Pte). k.frame) c)))
                | inr (other, before) ↦ same ∙ s.exclusive q w e' before ready
              ]
        ]

  copied-Unshared : Unshared p v m (replaced m mem' count' p v e copied h)
  copied-Unshared =
      replaced-Unshared m mem' count' p v e copied h
        (record { counted = copied-counted; exclusive = copied-exclusive })
        (λ off. rw (==_refl new_pg) refl)
        (λ q w e' off at_q. rw (ne→==_false e'.frame new_pg (in_use q w e' at_q)) refl) refl
    where
      in_use : (q w : ℕ) (e' : Pte) → entry q w m ≡ some e' → e'.frame ≢ new_pg
      in_use q w e' at_q same =
          absurd (omega (arith, fresh, entry-maps m q w e' at_q, ap (λ (f : ℕ). maps f m) same))

-- The frame is not a new one.
old_ne_new : (m : Machine) (f new_pg : ℕ) → IsFresh new_pg m → 0 < maps f m → (new_pg == f) ≡ false
old_ne_new m f new_pg fresh used =
    ne→==_false new_pg f
      (λ same. absurd (omega (arith, fresh, used, ap (λ (g : ℕ). maps g m) same)))

-- The assertion behind the copy.
more_than_two :
    (tmp : ℕ) (r other : Outcome Machine)
    → 2 < tmp
    → tmp < 2 ^ 31
    → (if ltb 1 tmp && ltb tmp (2 ^ 31) then assert (tmp == 1 + 1) >> r else other) ≡ panic
more_than_two tmp r other lt small = ground arith

-- A write to a page of a sound machine whose entry does not allow it, with a frame that nobody uses
-- for a copy: if one entry or two name the page, the process gets a page that it may write to,
-- every process sees what it saw, and the machine is sound; if more than two do, the kernel stops
-- in its assertion.
pub protect_entry-Unshared :
    (p v new_pg : ℕ) (m : Machine) (e : Pte)
    → IsSound m
    → entry p v m ≡ some e
    → IsFresh new_pg m
    → maps e.frame m < 2 ^ 31
    → (maps e.frame m ≤ 2 → Returns (Unshared p v m) (protect_entry p v new_pg (some e) m))
      × (2 < maps e.frame m → protect_entry p v new_pg (some e) m ≡ panic)
unfolding protect_entry copy_page
protect_entry-Unshared p v new_pg m e s h fresh small = (few, many)
  where
    used : 0 < maps e.frame m
    used = entry-maps m p v e h

    count : m.count e.frame ≡ maps e.frame m
    count = s.counted e.frame used

    few : maps e.frame m ≤ 2 → Returns (Unshared p v m) (protect_entry p v new_pg (some e) m)
    few le = elim (eq-cases (maps e.frame m) 1) [
      | inl one ↦ rw (count ∙ one) (set_writable p v m e s h one)
      | inr more ↦
          let two : maps e.frame m ≡ 2 = omega (arith, used) in
          rw (count ∙ two, old_ne_new m e.frame new_pg fresh used, ==_refl new_pg)
            (rw (count ∙ two) at (copied-Unshared p v new_pg m e s h fresh two))
    ]

    many : 2 < maps e.frame m → protect_entry p v new_pg (some e) m ≡ panic
    many lt =
        rw (old_ne_new m e.frame new_pg fresh used, ==_refl new_pg)
          (more_than_two (m.count e.frame) _ _ (omega (arith, count)) (omega (arith, count)))
