-- ===== src/FileWrite/Loop.antt =====
-- The rounds of file_write's loop write all bytes.
use mathlib.Core.Path.{ap₂}
use Prim.Native.Nat.{min}
use fizzos.Base.{
  ℕ, zero, suc, ◌+◌, ◌-◌, ◌*◌, ◌/◌, ◌%◌, ◌<◌, ◌≤◌, ◌≡◌, ◌≢◌, ◌⊎◌, inl, inr, refl, sym, ap, ◌∙◌,
  Bool, arith, ◌==◌, ltb, leb, if◌then◌else◌, not, eq-cases, ne→==_false, subst, Bool-cases, ◌>>◌,
  ◌>>=◌, assert, Returns, Returns-bind, Returns-mono, lt→ltb, ltb→lt,
}
use fizzos.File.{direct, max_sectors, sector_size}
use fizzos.FileWrite.{Writing, load_table, fill_sector, put_bytes, next_lba, write_loop}
use fizzos.FileWrite.Alloc.{free_blocks}
use fizzos.FileWrite.Sectors.{lba_of, Inv}
use fizzos.FileWrite.Fill.{Filled, fill_sector-Filled, next_lba-lba_of}
use fizzos.FileWrite.Put.{Replaced, put_bytes-Replaced}
use fizzos.FileWrite.Rounds.{
  loaded_before, loaded_in, table_cost, Prepared, load_table-Prepared, Rounded, round-Rounded,
}

-- The byte at a position of the file.
abbrev pub file_byte : Bool → Writing → ℕ → ℕ
file_byte b w q = w.part.disk (lba_of b w (q / 512)) (q % 512)

-- From a byte on, `count` bytes of the file are those of `src`, and the others, in the sectors that the
-- file had, are as before.
pub record Written (b : Bool) (start count : ℕ) (src : ℕ → ℕ) (w : Writing) (w' : Writing)
    : Type 0 where
  pub flag : Bool
  pub inv : Inv flag w'
  pub sb : w'.part.sb ≡ w.part.sb
  pub kept : (k : ℕ) → k < max_sectors → lba_of b w k ≢ 0 → lba_of flag w' k ≡ lba_of b w k
  pub has : (j : ℕ) → j < count → lba_of flag w' ((start + j) / 512) ≢ 0
  pub written : (j : ℕ) → j < count → file_byte flag w' (start + j) ≡ src j
  pub others :
      (q : ℕ)
      → q / 512 < max_sectors
      → lba_of b w (q / 512) ≢ 0
      → (q < start) ⊎ (start + count ≤ q)
      → file_byte flag w' q ≡ file_byte b w q

-- A round and the rounds behind it.
module _ (b1 : Bool) (sec offset c count : ℕ) (src : ℕ → ℕ) (w w1 w2 : Writing)
    (r : Rounded b1 sec offset c src w w1) (fits : offset + c ≤ 512) (c_le : c ≤ count)
    (whole : (c ≡ count) ⊎ (offset + c ≡ 512)) (lt : sec < max_sectors)
    (h : Written b1 ((sec + 1) * 512 + 0) (count - c) (λ k. src (k + c)) w1 w2) where
  kept_later : (k : ℕ) → k < max_sectors → lba_of (loaded_before sec) w k ≢ 0 → lba_of b1 w1 k ≢ 0
  kept_later k small there z = there (sym (r.kept k small there) ∙ z)

  place : (j : ℕ) → j < c → (sec * 512 + offset + j) / 512 ≡ sec
  place j small = omega arith

  place_in : (j : ℕ) → j < c → (sec * 512 + offset + j) % 512 ≡ offset + j
  place_in j small = omega arith

  later : (j : ℕ) → c ≤ j → j < count → sec * 512 + offset + j ≡ (sec + 1) * 512 + 0 + (j - c)
  later j ge small = ground arith

  both_has : (j : ℕ) → j < count → lba_of h.flag w2 ((sec * 512 + offset + j) / 512) ≢ 0
  both_has j small z = elim (Bool-cases (ltb j c)) [
    | inl here ↦
        let at = place j (ltb→lt j c here) in
        r.has (sym (h.kept sec lt r.has) ∙ ap (lba_of h.flag w2) (sym at) ∙ z)
    | inr behind ↦
        let ge : c ≤ j = ground arith in
        h.has (j - c) (omega arith)
          (ap (λ (q : ℕ). lba_of h.flag w2 (q / 512)) (sym (later j ge small)) ∙ z)
  ]

  both_written : (j : ℕ) → j < count → file_byte h.flag w2 (sec * 512 + offset + j) ≡ src j
  both_written j small = elim (Bool-cases (ltb j c)) [
    | inl here ↦
        let at = place j (ltb→lt j c here) in
        h.others (sec * 512 + offset + j) (omega (arith, at))
          (λ z. r.has (ap (lba_of b1 w1) (sym at) ∙ z)) (inl (omega (arith, ltb→lt j c here)))
        ∙ ap₂ (λ (s o : ℕ). w1.part.disk (lba_of b1 w1 s) o) at (place_in j (ltb→lt j c here))
        ∙ r.written j (ltb→lt j c here)
    | inr behind ↦
        let ge : c ≤ j = ground arith in
        ap (file_byte h.flag w2) (later j ge small)
        ∙ h.written (j - c) (omega arith)
        ∙ ap src (omega arith)
  ]

  both_others :
      (q : ℕ)
      → q / 512 < max_sectors
      → lba_of (loaded_before sec) w (q / 512) ≢ 0
      → (q < sec * 512 + offset) ⊎ (sec * 512 + offset + count ≤ q)
      → file_byte h.flag w2 q ≡ file_byte (loaded_before sec) w q
  both_others q small there out =
      h.others q small (kept_later (q / 512) small there) (ground arith)
      ∙ r.others (q / 512) (q % 512) small there (omega arith) (ground arith)

  round_and_rest : Written (loaded_before sec) (sec * 512 + offset) count src w w2
  round_and_rest = record {
    flag = h.flag;
    inv = h.inv;
    sb = h.sb ∙ r.sb;
    kept = λ k small there. h.kept k small (kept_later k small there) ∙ r.kept k small there;
    has = both_has;
    written = both_written;
    others = both_others;
  }

-- The rounds that are left, and a block for the second table.
abbrev pub need : ℕ → ℕ → ℕ → ℕ
need sec offset count = (offset + count + 511) / 512 + (if leb sec direct then 1 else 0)

-- The result of the loop.
abbrev pub Done : Bool → ℕ → ℕ → (ℕ → ℕ) → Writing → Writing × ℕ → Type 0
Done b start count src w (w', left) = Written b start count src w w' × (left ≡ 0)

nothing_left :
    (sec start : ℕ) (src : ℕ → ℕ) (w : Writing)
    → Inv (loaded_before sec) w
    → Written (loaded_before sec) start 0 src w w
nothing_left sec start src w i = record {
  flag = loaded_before sec;
  inv = i;
  sb = refl;
  kept = λ k lt there. refl;
  has = λ j lt. absurd (omega arith);
  written = λ j lt. absurd (omega arith);
  others = λ q small there out. refl;
}

-- The end of a round, with what the rounds behind it give.
rest_of_round :
    (fuel : ℕ) (src : ℕ → ℕ) (count sec offset c : ℕ) (io_buf : ℕ → ℕ) (w w1 w2 : Writing)
    → Inv (loaded_before sec) w
    → offset + c ≤ 512
    → c ≤ count
    → (c ≡ count) ⊎ (offset + c ≡ 512)
    → sec < max_sectors
    → 0 < count
    → need sec offset count ≤ free_blocks w.part
    → ((w3 : Writing)
        → Inv (loaded_before (sec + 1)) w3
        → (0 < count - c → need (sec + 1) 0 (count - c) ≤ free_blocks w3.part)
        → Returns
            (Done (loaded_before (sec + 1)) ((sec + 1) * 512 + 0) (count - c) (λ k. src (k + c)) w3)
            (write_loop fuel (λ k. src (k + c)) (count - c) (sec + 1) 0 io_buf w3))
    → Prepared sec w w1
    → Filled (loaded_in sec) sec w1 w2
    → Returns (Done (loaded_before sec) (sec * 512 + offset) count src w) (
        assert (not (next_lba sec w2 == 0))
        >> (put_bytes (next_lba sec w2) offset c src io_buf w2
            >>= (λ w3. write_loop fuel (λ k. src (k + c)) (count - c) (sec + 1) 0 io_buf w3)))
rest_of_round fuel src count sec offset c io_buf w w1 w2 i fits c_le whole lt more free ih p f =
    rw (next_lba-lba_of (loaded_in sec) sec w2 refl, ne→==_false lba 0 f.has)
      (Returns-bind (Replaced (loaded_in sec) lba offset c src w2)
        (Done (loaded_before sec) (sec * 512 + offset) count src w)
        (put_bytes lba offset c src io_buf w2) _
        (put_bytes-Replaced (loaded_in sec) sec offset c src io_buf w2 f.inv lt f.has)
        (λ w3 r. behind w3 (rounded w3 r)))
  where
    lba : ℕ
    lba = lba_of (loaded_in sec) w2 sec

    same_flag : loaded_in sec ≡ loaded_before (sec + 1)
    same_flag = ground arith

    rounded :
        (w3 : Writing)
        → Replaced (loaded_in sec) lba offset c src w2 w3
        → Rounded (loaded_before (sec + 1)) sec offset c src w w3
    rounded w3 r =
        subst (λ (b : Bool). Rounded b sec offset c src w w3) same_flag
          (round-Rounded sec offset c src w w1 w2 w3 i lt p f r)

    enough_left :
        (w3 : Writing)
        → 0 < count - c
        → free_blocks w.part ≤ free_blocks w3.part + 1 + table_cost sec
        → need (sec + 1) 0 (count - c) ≤ free_blocks w3.part
    enough_left w3 left spent = spare (free_blocks w.part) (free_blocks w3.part) free spent
      where
        spare :
            (n m : ℕ)
            → need sec offset count ≤ n
            → n ≤ m + 1 + table_cost sec
            → need (sec + 1) 0 (count - c) ≤ m
        spare n m a b = ground arith

    behind :
        (w3 : Writing)
        → Rounded (loaded_before (sec + 1)) sec offset c src w w3
        → Returns
            (Done (loaded_before sec) (sec * 512 + offset) count src w)
            (write_loop fuel (λ k. src (k + c)) (count - c) (sec + 1) 0 io_buf w3)
    behind w3 r =
        Returns-mono
          (Done (loaded_before (sec + 1)) ((sec + 1) * 512 + 0) (count - c) (λ k. src (k + c)) w3)
          (Done (loaded_before sec) (sec * 512 + offset) count src w)
          (write_loop fuel (λ k. src (k + c)) (count - c) (sec + 1) 0 io_buf w3)
          (ih w3 r.inv (λ left. enough_left w3 left r.free))
          (λ (w', left) (h, z). (
            round_and_rest (loaded_before (sec + 1)) sec offset c count src w w3 w' r fits c_le
                whole lt h,
            z,
          ))

pub write_loop-Done :
    (fuel : ℕ) (src : ℕ → ℕ) (count sec offset : ℕ) (io_buf : ℕ → ℕ) (w : Writing)
    → Inv (loaded_before sec) w
    → offset < 512
    → (0 < count → sec * 512 + offset + count ≤ max_sectors * 512)
    → max_sectors < sec + fuel
    → sec ≤ max_sectors
    → (0 < count → need sec offset count ≤ free_blocks w.part)
    → Returns
        (Done (loaded_before sec) (sec * 512 + offset) count src w)
        (write_loop fuel src count sec offset io_buf w)
unfolding write_loop
write_loop-Done zero src count sec offset io_buf w i o inside enough le free = absurd (omega arith)
write_loop-Done (suc fuel) src count sec offset io_buf w i o inside enough le free =
    elim (eq-cases count 0) [
      | inl done ↦ rw done (nothing_left sec (sec * 512 + offset) src w i, refl)
      | inr more ↦
          let lt : sec < max_sectors = omega (arith, inside (omega arith)) in
          rw (ne→==_false count 0 more, lt→ltb sec max_sectors lt)
            (Returns-bind (Prepared sec w)
              (Done (loaded_before sec) (sec * 512 + offset) count src w) (load_table sec w) _
              (load_table-Prepared sec w i (ground (arith, free (omega arith))))
              (λ w1 p.
                Returns-bind (Filled (loaded_in sec) sec w1)
                  (Done (loaded_before sec) (sec * 512 + offset) count src w) (fill_sector sec w1) _
                  (fill_sector-Filled (loaded_in sec) sec w1 refl p.inv
                    (ground (arith, free (omega arith), p.moved.free)))
                  (λ w2 f.
                    rest_of_round fuel src count sec offset (min count (sector_size - offset))
                      io_buf w w1 w2 i (omega arith) (omega arith) (ground arith) lt (omega arith)
                      (free (omega arith))
                      (λ w3 i3 free3.
                        write_loop-Done fuel (λ k. src (k + min count (sector_size - offset)))
                          (count - min count (sector_size - offset)) (sec + 1) 0 io_buf w3 i3
                          (omega arith) (λ left. omega (arith, inside (omega arith))) (omega arith)
                          (omega arith) free3)
                      p f)))
    ]
