-- ===== src/Ide.antt =====
-- device/ide.c: commands to a disk and the data that they move, the wait for the disk, and the scan of
-- the partition tables. A disk is a map from sector numbers to sectors; what the disk answers is an
-- argument. The channel's lock is held in each transfer, so a transfer is one step.
pub mod Transfer
pub mod Wait
pub mod Partitions
mod Tests
use Prim.Native.Nat.{bit_and, bit_or}
use fizzos.Base.{
  ℕ, zero, suc, ◌+◌, ◌-◌, ◌*◌, ◌/◌, ◌%◌, ◌^◌, Bool, true, false, not, ◌||◌, Option, none, some,
  List, [], ◌∷◌, ◌++◌, Outcome, ok, panic, fault, out_of_fuel, ◌>>=◌, ◌>>◌, assert, ◌==◌, ltb, leb,
  if◌then◌else◌, get_elem?, update, take, drop, values,
}

-- Eighty megabytes.
abbrev pub max_lba : ℕ
max_lba = 163839

-- A write of a byte to a register of the channel, by the register's place behind `port_base`.
abbrev pub RegWrite : Type 0
RegWrite = ℕ × ℕ

-- The bits of the device register: always set, LBA mode, and the second device.
abbrev pub device_bits : ℕ → ℕ
device_bits dev_no = bit_or (bit_or 0xa0 0x40) (if dev_no == 1 then 0x10 else 0)

pub select_disk : ℕ → RegWrite
select_disk dev_no = (6, device_bits dev_no)

pub select_sector : ℕ → ℕ → ℕ → Outcome (List RegWrite)
select_sector dev_no lba sec_cnt =
    assert (leb lba max_lba)
    >> ok (
        (2, sec_cnt % 256)
        ∷ (3, lba % 256)
        ∷ (4, lba / 2 ^ 8 % 256)
        ∷ (5, lba / 2 ^ 16 % 256)
        ∷ (6, bit_or (device_bits dev_no) (lba / 2 ^ 24) % 256)
        ∷ [])

-- The sectors that a transfer moves for the count `sec_cnt` of 8 bits: 0 stands for 256.
pub sectors_moved : ℕ → ℕ
sectors_moved sec_cnt = if sec_cnt % 256 == 0 then 256 else sec_cnt % 256

-- One command asks for at most 256 sectors.
pub secs_op : ℕ → ℕ → ℕ
secs_op secs_done sec_cnt =
    if leb ((secs_done + 256) % 2 ^ 32) sec_cnt then 256 else sec_cnt - secs_done

module _ {ℓ} {A : Type ℓ} where
  -- The loop of ide_read. `ready k` is what busy_wait says in round `k`.
  pub read_loop : ℕ → ℕ → ℕ → (ℕ → Bool) → ℕ → ℕ → ℕ → (ℕ → A) → Outcome (List A)
  unfolding select_sector sectors_moved secs_op
  read_loop zero dev_no k ready lba secs_done sec_cnt disk = out_of_fuel
  read_loop (suc fuel) dev_no k ready lba secs_done sec_cnt disk =
      let op = secs_op secs_done sec_cnt in
      let rest = read_loop fuel dev_no (k + 1) ready lba (secs_done + op) sec_cnt disk in
      if leb sec_cnt secs_done then ok [] else (do
        regs ← select_sector dev_no (lba + secs_done) op
        assert (ready k)
        behind ← rest
        ok (values disk (lba + secs_done) (sectors_moved op) ++ behind))

  -- A round moves a sector at least.
  pub ide_read : ℕ → (ℕ → Bool) → ℕ → ℕ → (ℕ → A) → Outcome (List A)
  unfolding read_loop
  ide_read dev_no ready lba sec_cnt disk = do
    assert (leb lba max_lba)
    assert (not (sec_cnt == 0))
    read_loop (sec_cnt + 1) dev_no 0 ready lba 0 sec_cnt disk

  -- The disk with sectors put from `lba` on.
  pub put_sectors : List A → ℕ → (ℕ → A) → ℕ → A
  put_sectors [] lba disk = disk
  put_sectors (s ∷ buf) lba disk = put_sectors buf (lba + 1) (update disk lba s)

  -- The loop of ide_write, with what is left of the buffer.
  pub write_loop : ℕ → ℕ → ℕ → (ℕ → Bool) → ℕ → ℕ → ℕ → List A → (ℕ → A) → Outcome (ℕ → A)
  unfolding select_sector sectors_moved secs_op put_sectors
  write_loop zero dev_no k ready lba secs_done sec_cnt buf disk = out_of_fuel
  write_loop (suc fuel) dev_no k ready lba secs_done sec_cnt buf disk =
      let op = secs_op secs_done sec_cnt in
      let moved = take (sectors_moved op) buf in
      let rest =
        write_loop fuel dev_no (k + 1) ready lba (secs_done + op) sec_cnt
          (drop (sectors_moved op) buf) (put_sectors moved (lba + secs_done) disk) in
      if leb sec_cnt secs_done
      then ok disk
      else (do regs ← select_sector dev_no (lba + secs_done) op; assert (ready k); rest)

  pub ide_write : ℕ → (ℕ → Bool) → ℕ → ℕ → List A → (ℕ → A) → Outcome (ℕ → A)
  unfolding write_loop
  ide_write dev_no ready lba sec_cnt buf disk = do
    assert (leb lba max_lba)
    assert (not (sec_cnt == 0))
    write_loop (sec_cnt + 1) dev_no 0 ready lba 0 sec_cnt buf disk

-- `status n` is the n-th value that the status register gives.
pub busy_from : ℕ → ℕ → ℕ → (ℕ → ℕ) → Outcome Bool
busy_from zero time_limit n status = out_of_fuel
busy_from (suc fuel) time_limit n status =
    let left = (time_limit + 2 ^ 16 - 10) % 2 ^ 16 in
    let rest = busy_from fuel left (n + 1) status in
    if leb 0 left
    then if bit_and (status n) 0x80 == 0 then ok (not (bit_and (status (n + 1)) 0x8 == 0)) else rest
    else ok false

pub busy_wait : ℕ → (ℕ → ℕ) → Outcome Bool
unfolding busy_from
busy_wait fuel status = busy_from fuel 30000 0 status

-- An entry of a partition table: its type, its place and its size.
pub record PartitionTableEntry : Type 0 where
  pub fs_type : ℕ
  pub start_lba : ℕ
  pub sec_cnt : ℕ

-- A partition: its first sector and its size.
abbrev pub Partition : Type 0
Partition = ℕ × ℕ

-- What the scan of a disk has found: `p_no` and `l_no` are the lengths of the two lists.
pub record Found : Type 0 where
  pub ext_lba_base : ℕ
  pub p_no : ℕ
  pub l_no : ℕ
  pub prim_parts : List Partition
  pub logic_parts : List Partition

-- An entry of the first sector is a primary partition; a fourth one is a failed assertion.
pub add_primary : PartitionTableEntry → Found → Outcome Found
add_primary p f =
    assert (ltb (f.p_no + 1) 4)
    >> ok (record f {
      prim_parts = f.prim_parts ++ ((p.start_lba, p.sec_cnt) ∷ []);
      p_no = f.p_no + 1;
    })

-- A disk has places for eight logical partitions.
pub add_logical : ℕ → PartitionTableEntry → Found → Outcome Found
add_logical ext_lba p f =
    if ltb f.l_no 8
    then ok (record f {
      logic_parts = f.logic_parts ++ (((ext_lba + p.start_lba) % 2 ^ 32, p.sec_cnt) ∷ []);
      l_no = f.l_no + 1;
    })
    else fault

-- The loop over the entries of one sector; `scan` is the recursive call.
pub scan_entries :
    (ℕ → Found → Outcome Found) → ℕ → List PartitionTableEntry → Found → Outcome Found
unfolding add_primary add_logical
scan_entries scan ext_lba [] f = ok f
scan_entries scan ext_lba (p ∷ rest) f =
    let go_on = λ (f : Found). scan_entries scan ext_lba rest f in
    if p.fs_type == 5
    then (if f.ext_lba_base == 0
        then scan p.start_lba (record f { ext_lba_base = p.start_lba }) >>= go_on
        else scan ((p.start_lba + f.ext_lba_base) % 2 ^ 32) f >>= go_on)
    else if p.fs_type == 0
    then go_on f
    else if ext_lba == 0
    then add_primary p f >>= go_on
    else (do f ← add_logical ext_lba p f; if leb 8 f.l_no then ok f else go_on f)

-- `table` reads the four entries of a sector; `depth` bounds the chain of extended partitions.
pub partition_scan : ℕ → (ℕ → List PartitionTableEntry) → ℕ → Found → Outcome Found
unfolding scan_entries
partition_scan zero table ext_lba f = out_of_fuel
partition_scan (suc depth) table ext_lba f =
    scan_entries (λ lba f. partition_scan depth table lba f) ext_lba (table ext_lba) f

-- intr_hd_handler for the channel of a number: whether the interrupt was expected, so that the
-- semaphore is posted, and the flag afterwards.
pub intr_hd_handler : ℕ → ℕ → Bool → Outcome (Bool × Bool)
intr_hd_handler irq_no channel_irq expecting =
    assert ((irq_no == 0x2e) || (irq_no == 0x2f))
    >> (assert (channel_irq == irq_no) >> ok (expecting, false))
