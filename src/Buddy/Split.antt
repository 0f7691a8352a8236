-- ===== src/Buddy/Split.antt =====
-- The loop of alloc_pages in kernel/buddy.c that cuts a group down.
use native.Mathlib.Nat.{pow-suc, add-suc, add-zero}
use fizzos.Base.{
  ◌∙◌, sym, ℕ, zero, suc, ◌+◌, ◌*◌, ◌/◌, ◌^◌, ◌<◌, ◌≤◌, ◌≡◌, refl, ap, true, List, [], ◌∷◌, ◌++◌,
  arith, length, length-append, contains, contains-snoc, update, inl, inr, Returns, Returns-ok,
  Returns-mono,
}
use fizzos.Bitmap.{Bitmap, bitmap_reverse}
use fizzos.Bitmap.Reverse.{Reversed, bitmap_reverse-Updated}
use fizzos.Buddy.{FreeArea, Areas, max_order, split_down}
use fizzos.Buddy.Total.{
  holds, listed-snoc, cover-update, groups_with, IsAligned, total-update, free_pages_of, IsArea,
  IsPool, update-IsPool,
}

pub pow_pos : (k : ℕ) → 0 < 2 ^ k
pow_pos zero = omega arith
pow_pos (suc k) = omega (arith, pow-suc 2 k, pow_pos k)

-- An area after its bitmap was turned over at one bit, with another list.
pub Reversed-IsArea :
    (n o i new nr : ℕ) (area : FreeArea) (bmap : Bitmap) (l : List ℕ)
    → IsArea n o area
    → Reversed area.bmap i (new, bmap)
    → ((j : ℕ) → contains j l ≡ true → j + 2 ^ o ≤ n)
    → ((j : ℕ) → contains j l ≡ true → IsAligned (2 ^ o) j)
    → nr ≡ length l
    → IsArea n o (record { nr_free = nr; bmap = bmap; pg_list = l })
Reversed-IsArea n o i new nr area bmap l ar (e, u) inside aligned same = record {
  bitmap = u.valid;
  bits = λ j h. omega (arith, ar.bits j h, u.byte_size);
  counted = same;
  inside = inside;
  aligned = aligned;
}

pub weight_more : (x p : ℕ) → (x + 1) * p ≡ x * p + p
weight_more x p = grind arith

-- A group of twice as many pages is two.
holds-halves :
    (page i size : ℕ) → holds page i (2 * size) ≡ holds page i size + holds page (i + size) size
holds-halves page i size = ground arith

twice : (q p : ℕ) → q * (2 * p) ≡ 2 * q * p
twice q p = grind arith

-- The pool, with what is left of a group of `g` pages taken out of it before, down to `order`.
abbrev pub Cut : ℕ → ℕ → ℕ → ℕ → Areas → Areas → Type 0
Cut n order idx g a a' =
    IsPool n a'
    × (free_pages_of a' + 2 ^ order ≡ free_pages_of a + g)
    × ((page : ℕ)
        → groups_with page a' + holds page idx (2 ^ order) ≡ groups_with page a + holds page idx g)

pub split_down_lem :
    (n k order idx size g : ℕ) (a : Areas)
    → order + k ≤ max_order + 1
    → g ≡ 2 ^ (order + k)
    → size ≡ g / 2
    → idx + g ≤ n
    → IsAligned g idx
    → IsPool n a
    → Returns (λ a'. Cut n order idx g a a') (split_down k order idx size a)
unfolding split_down
split_down_lem n zero order idx size g a h eg es fits al p = (
  p,
  omega (arith, ap (λ (x : ℕ). 2 ^ x) (add-zero order)),
  λ page.
      ap (λ (x : ℕ). groups_with page a + holds page idx x)
        (ap (λ (x : ℕ). 2 ^ x) (sym (add-zero order)) ∙ sym eg),
)
split_down_lem n (suc k) order idx size g a h eg es fits (q, at) p =
    let o : ℕ = order + k in
    let o_le : o ≤ max_order = omega (arith, add-suc order k) in
    let double : g ≡ 2 * 2 ^ o =
      omega (arith, ap (λ (x : ℕ). 2 ^ x) (add-suc order k), pow-suc 2 o) in
    let ar = p o o_le in
    let ((bit, bmap), run, rev) =
      Returns-ok (Reversed (a o).bmap (idx / 2 ^ (o + 1)))
        (bitmap_reverse (idx / 2 ^ (o + 1)) (a o).bmap)
        (bitmap_reverse-Updated (a o).bmap (idx / 2 ^ (o + 1)) ar.bitmap
          (ar.bits idx (omega (arith, pow_pos o)))) in
    rw run (
      Returns-mono (λ a'. Cut n order idx (2 ^ o) (update a o (fewer bmap)) a')
        (λ a'. Cut n order idx g a a') (split_down k order idx (size / 2) (update a o (fewer bmap)))
        (split_down_lem n k order idx (size / 2) (2 ^ o) (update a o (fewer bmap)) (omega arith)
          refl (omega arith) (omega arith)
          (2 * q, at ∙ ap (λ (x : ℕ). q * x) double ∙ twice q (2 ^ o))
          (update-IsPool n o a (fewer bmap) p (
            Reversed-IsArea n o (idx / 2 ^ (o + 1)) bit ((a o).nr_free + 1) (a o) bmap
              ((a o).pg_list ++ ((idx + size) ∷ [])) ar rev
              (λ j c. elim (contains-snoc j (idx + size) (a o).pg_list c) [
                | inl old ↦ ar.inside j old
                | inr e ↦ omega arith
              ])
              (λ j c. elim (contains-snoc j (idx + size) (a o).pg_list c) [
                | inl old ↦ ar.aligned j old
                | inr e ↦ (
                  2 * q + 1,
                  omega (
                    arith,
                    e,
                    double,
                    es,
                    at,
                    ap (λ (x : ℕ). q * x) double,
                    twice q (2 ^ o),
                    weight_more (2 * q) (2 ^ o),
                  ),
                )
              ])
              (omega (arith, ar.counted, length-append (a o).pg_list ((idx + size) ∷ []))))))
        (λ a' h. (
          h.0,
          omega (
            arith,
            h.1,
            total-update (max_order + 1) o a (fewer bmap) (omega arith),
            weight_more (a o).nr_free (2 ^ o),
          ),
          λ page. omega (
            arith,
            h.2 page,
            cover-update page (max_order + 1) o a (fewer bmap) (omega arith),
            listed-snoc page (2 ^ o) (idx + size) (a o).pg_list,
            holds-halves page idx (2 ^ o),
            ap (holds page idx) double,
            ap (λ (s : ℕ). holds page (idx + s) (2 ^ o)) (half double),
          ),
        )))
  where
    half : g ≡ 2 * 2 ^ (order + k) → size ≡ 2 ^ (order + k)
    half double = omega (arith, es, double)

    fewer : Bitmap → FreeArea
    fewer bmap = record {
      nr_free = (a (order + k)).nr_free + 1;
      bmap = bmap;
      pg_list = (a (order + k)).pg_list ++ ((idx + size) ∷ []);
    }
