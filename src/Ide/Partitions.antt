-- ===== src/Ide/Partitions.antt =====
-- partition_scan of device/ide.c on a first sector without an extended partition.
use fizzos.Base.{
  ℕ, suc, ◌+◌, ◌<◌, ◌≡◌, ◌≢◌, refl, sym, ap, ◌∙◌, true, false, List, [], ◌∷◌, ◌++◌, append_assoc,
  append-nil, Outcome, ok, panic, arith, ◌==◌, ltb, if◌then◌else◌, length, Bool-cases, inl, inr,
  ne→==_false, lt→ltb,
}
use mathlib.Core.Path.{ap₂}
use fizzos.Ide.{PartitionTableEntry, Partition, Found, add_primary, scan_entries, partition_scan}

-- No entry is an extended partition.
abbrev pub NoExtended : List PartitionTableEntry → Type 0
NoExtended [] = Unit
NoExtended (p ∷ rest) = (p.fs_type ≢ 5) × NoExtended rest

-- The partitions of the entries that are in use.
abbrev pub in_use : List PartitionTableEntry → List Partition
in_use [] = []
in_use (p ∷ rest) = if p.fs_type == 0 then in_use rest else (p.start_lba, p.sec_cnt) ∷ in_use rest

-- What the scan finds, with `ps` more primary partitions.
abbrev pub with_primary : List Partition → Found → Found
with_primary ps f = record f { prim_parts = f.prim_parts ++ ps; p_no = f.p_no + length ps }

with_primary-nil : (f : Found) → with_primary [] f ≡ f
with_primary-nil f =
    ap₂ (λ (ps : List Partition) (k : ℕ). record f { prim_parts = ps; p_no = k })
      (append-nil f.prim_parts) (omega arith)

with_primary-cons :
    (p : Partition) (ps : List Partition) (f : Found)
    → with_primary ps (with_primary (p ∷ []) f) ≡ with_primary (p ∷ ps) f
with_primary-cons p ps f =
    ap₂ (λ (ps : List Partition) (k : ℕ). record f { prim_parts = ps; p_no = k })
      (append_assoc f.prim_parts (p ∷ []) ps) (omega arith)

one_more :
    (p : Partition) (ps : List Partition) (f : Found)
    → (if ltb (f.p_no + 1 + length ps) 4
        then ok (with_primary ps (with_primary (p ∷ []) f))
        else panic)
      ≡ (if ltb (f.p_no + length (p ∷ ps)) 4 then ok (with_primary (p ∷ ps) f) else panic)
one_more p ps f =
    ap₂ (λ (k : ℕ) (g : Found). if ltb k 4 then ok g else panic) (omega arith)
      (with_primary-cons p ps f)

-- The first sector's entries, and no chain of extended partitions behind.
scan_entries-primary :
    (scan : ℕ → Found → Outcome Found) (entries : List PartitionTableEntry) (f : Found)
    → NoExtended entries
    → f.p_no < 4
    → scan_entries scan 0 entries f ≡ (
        if ltb (f.p_no + length (in_use entries)) 4
        then ok (with_primary (in_use entries) f)
        else panic)
unfolding scan_entries add_primary
scan_entries-primary scan [] f n room =
    rw (lt→ltb (f.p_no + 0) 4 (omega arith)) (ap ok (sym (with_primary-nil f)))
scan_entries-primary scan (p ∷ rest) f n room = elim (Bool-cases (p.fs_type == 0)) [
  | inl free ↦ rw (ne→==_false p.fs_type 5 n.0, free) (scan_entries-primary scan rest f n.1 room)
  | inr used ↦ elim (Bool-cases (ltb (f.p_no + 1) 4)) [
    | inl fits ↦
        rw (ne→==_false p.fs_type 5 n.0, used, fits)
          (scan_entries-primary scan rest (with_primary (place p ∷ []) f) n.1 (below f.p_no fits)
            ∙ one_more (place p) (in_use rest) f)
    | inr full ↦
        rw (ne→==_false p.fs_type 5 n.0, used, full)
          (rw (beyond f.p_no (length (in_use rest)) full) refl)
  ]
]
  where
    place : PartitionTableEntry → Partition
    place p = (p.start_lba, p.sec_cnt)

    below : (k : ℕ) → ltb (k + 1) 4 ≡ true → k + 1 < 4
    below k fits = ground arith

    beyond : (k n : ℕ) → ltb (k + 1) 4 ≡ false → ltb (k + suc n) 4 ≡ false
    beyond k n full = ground arith

-- partition_scan of a first sector without an extended partition finds the partitions of its entries
-- that are in use, in their order, when these are at most three; four of them, which a partition table
-- can hold, stop the kernel.
pub partition_scan-primary :
    (depth : ℕ) (table : ℕ → List PartitionTableEntry) (f : Found)
    → NoExtended (table 0)
    → f.p_no ≡ 0
    → partition_scan (suc depth) table 0 f ≡ (
        if ltb (length (in_use (table 0))) 4 then ok (with_primary (in_use (table 0)) f) else panic)
unfolding partition_scan
partition_scan-primary depth table f n start =
    scan_entries-primary (partition_scan depth table) (table 0) f n (omega arith)
    ∙ ap (λ (k : ℕ). if ltb k 4 then ok (with_primary (in_use (table 0)) f) else panic)
        (omega arith)
