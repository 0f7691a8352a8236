-- ===== src/Ide/Tests.antt =====
-- Runs of the disk driver.
use Prim.Native.Nat.{bit_and}
use fizzos.Base.{
  ℕ, zero, suc, ◌+◌, ◌<◌, ◌≤◌, ◌≡◌, refl, Bool, true, List, [], ◌∷◌, ok, panic, out_of_fuel,
  Returns, arith, ap, not, ◌⊎◌, ltb, if◌then◌else◌, length, ◌==◌,
}
use fizzos.Ide.{PartitionTableEntry, Found, ide_read, ide_write, busy_wait, partition_scan}
use fizzos.Ide.Transfer.{ide_read-ide_write}
use fizzos.Ide.Wait.{has_data, busy_wait_forever, busy_wait-ready}
use fizzos.Ide.Partitions.{in_use, with_primary, partition_scan-primary}

-- Each sector holds its own number.
abbrev numbered : ℕ → ℕ
numbered lba = lba

abbrev ready : ℕ → Bool
ready k = true

ide_read-ide_write_example :
    Returns
      (λ disk.
        (ide_read 0 ready 7 2 disk ≡ ok (40 ∷ 41 ∷ []))
        × ((a : ℕ) → (a < 7) ⊎ (7 + 2 ≤ a) → disk a ≡ numbered a))
      (ide_write 0 ready 7 2 (40 ∷ 41 ∷ []) numbered)
ide_read-ide_write_example =
    ide_read-ide_write 0 ready 7 2 (40 ∷ 41 ∷ []) numbered (λ j. refl) (omega arith) (omega arith)
      refl

abbrev always_busy : ℕ → ℕ
always_busy n = 0xd0

busy_wait_forever_example : busy_wait 5000 always_busy ≡ out_of_fuel
busy_wait_forever_example = busy_wait_forever 5000 always_busy (λ j. refl)

-- Busy at the first look, then ready with data.
abbrev soon_ready : ℕ → ℕ
soon_ready zero = 0x80
soon_ready (suc n) = 0x58

busy_wait-ready_example : busy_wait 2 soon_ready ≡ ok (has_data (soon_ready 2))
busy_wait-ready_example =
    busy_wait-ready 2 1 soon_ready
      (λ j lt. ap (λ (k : ℕ). not (bit_and (soon_ready k) 0x80 == 0)) (first j lt)) refl
      (omega arith)
  where
    first : (j : ℕ) → j < 1 → j ≡ 0
    first j lt = omega arith

abbrev entry : ℕ → ℕ → ℕ → PartitionTableEntry
entry t start n = record { fs_type = t; start_lba = start; sec_cnt = n }

-- Four primary partitions in the first sector.
abbrev four : ℕ → List PartitionTableEntry
four lba = entry 0x83 63 100 ∷ entry 0x83 200 100 ∷ entry 0x83 300 100 ∷ entry 0x83 400 100 ∷ []

abbrev nothing_found : Found
nothing_found = record { ext_lba_base = 0; p_no = 0; l_no = 0; prim_parts = []; logic_parts = [] }

partition_scan-primary_example : partition_scan 1 four 0 nothing_found ≡ (
    if ltb (length (in_use (four 0))) 4
    then ok (with_primary (in_use (four 0)) nothing_found)
    else panic)
partition_scan-primary_example =
    partition_scan-primary 0 four nothing_found
      (omega arith, (omega arith, (omega arith, (omega arith, tt)))) refl
