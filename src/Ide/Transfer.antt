-- ===== src/Ide/Transfer.antt =====
-- ide_read and ide_write of device/ide.c move the sectors asked for, in however many commands.
use mathlib.Core.Path.{ap₂}
use fizzos.Base.{
  ℕ, zero, suc, ◌+◌, ◌-◌, ◌^◌, ◌<◌, ◌≤◌, ◌≡◌, refl, sym, ap, ◌∙◌, Bool, true, false, List, [], ◌∷◌,
  ◌++◌, ok, Returns, Returns-ok, arith, ◌==◌, leb, le→leb, ne→==_false, length, update, take, drop,
  append-take-drop, length-drop, length-take, ==_refl, ◌⊎◌, inl, inr, Bool-cases, values,
  values-append,
}
use fizzos.Ide.{
  max_lba, select_sector, sectors_moved, secs_op, read_loop, ide_read, put_sectors, write_loop,
  ide_write,
}

-- A command moves a sector at least, and none behind the last one.
secs_op_bounds :
    (secs_done sec_cnt : ℕ)
    → secs_done < sec_cnt
    → sec_cnt + 256 < 2 ^ 32
    → (0 < secs_op secs_done sec_cnt)
      × (secs_done + secs_op secs_done sec_cnt ≤ sec_cnt)
      × (sectors_moved (secs_op secs_done sec_cnt) ≡ secs_op secs_done sec_cnt)
unfolding secs_op sectors_moved
secs_op_bounds secs_done sec_cnt h small = ground arith

select_run :
    (dev_no lba n : ℕ) → lba ≤ max_lba → Returns (λ regs. Unit) (select_sector dev_no lba n)
unfolding select_sector
select_run dev_no lba n h = rw (le→leb lba max_lba h) tt

module _ {ℓ} {A : Type ℓ} where
  read_loop-values :
      (fuel dev_no k : ℕ) (ready : ℕ → Bool) (lba secs_done sec_cnt : ℕ) (disk : ℕ → A)
      → ((j : ℕ) → ready j ≡ true)
      → secs_done ≤ sec_cnt
      → sec_cnt < secs_done + fuel
      → lba + sec_cnt ≤ max_lba + 1
      → read_loop fuel dev_no k ready lba secs_done sec_cnt disk
        ≡ ok (values disk (lba + secs_done) (sec_cnt - secs_done))
  unfolding read_loop
  read_loop-values zero dev_no k ready lba secs_done sec_cnt disk yes_ready le fuel inside =
      absurd (omega arith)
  read_loop-values (suc fuel) dev_no k ready lba secs_done sec_cnt disk yes_ready le enough inside =
      elim (Bool-cases (leb sec_cnt secs_done)) [
        | inl done ↦
            rw done
              (ap ok (sym (unfold values in ap (values disk (lba + secs_done)) (none_left done))))
        | inr more ↦
            let (pos, within, moved) = secs_op_bounds secs_done sec_cnt (left more) (omega arith) in
            let (regs, run, u) =
              Returns-ok (λ regs. Unit)
                (select_sector dev_no (lba + secs_done) (secs_op secs_done sec_cnt))
                (select_run dev_no (lba + secs_done) (secs_op secs_done sec_cnt)
                  (omega (arith, left more))) in
            rw
              (
                more,
                run,
                yes_ready k,
                moved,
                read_loop-values fuel dev_no (k + 1) ready lba
                    (secs_done + secs_op secs_done sec_cnt) sec_cnt disk yes_ready within
                    (omega arith) inside,
              )
              (ap ok (joined (secs_op secs_done sec_cnt) within))
      ]
    where
      none_left : leb sec_cnt secs_done ≡ true → sec_cnt - secs_done ≡ 0
      none_left done = ground arith

      left : leb sec_cnt secs_done ≡ false → secs_done < sec_cnt
      left more = ground arith

      joined :
          (op : ℕ)
          → secs_done + op ≤ sec_cnt
          → values disk (lba + secs_done) op
              ++ values disk (lba + (secs_done + op)) (sec_cnt - (secs_done + op))
            ≡ values disk (lba + secs_done) (sec_cnt - secs_done)
      joined op within =
          ap
            (λ (l : ℕ).
              values disk (lba + secs_done) op ++ values disk l (sec_cnt - (secs_done + op)))
            (omega arith)
          ∙ values-append disk (lba + secs_done) op (sec_cnt - (secs_done + op))
          ∙ ap (values disk (lba + secs_done)) (omega arith)

  -- ide_read of sectors that the disk has, from a disk that is ready each time, returns them in their
  -- order, in however many commands of up to 256 sectors it takes.
  pub ide_read-values :
      (dev_no : ℕ) (ready : ℕ → Bool) (lba sec_cnt : ℕ) (disk : ℕ → A)
      → ((j : ℕ) → ready j ≡ true)
      → 0 < sec_cnt
      → lba + sec_cnt ≤ max_lba + 1
      → ide_read dev_no ready lba sec_cnt disk ≡ ok (values disk lba sec_cnt)
  unfolding ide_read
  ide_read-values dev_no ready lba sec_cnt disk yes_ready pos inside =
      rw
        (
          le→leb lba max_lba (omega arith),
          ne→==_false sec_cnt 0 (omega arith),
          read_loop-values (sec_cnt + 1) dev_no 0 ready lba 0 sec_cnt disk yes_ready (omega arith)
              (omega arith) inside,
        )
        (ap ok (
          ap (λ (l : ℕ). values disk l (sec_cnt - 0)) (omega arith)
          ∙ ap (values disk lba) (omega arith)))

  put_sectors-append :
      (xs ys : List A) (lba : ℕ) (disk : ℕ → A)
      → put_sectors (xs ++ ys) lba disk ≡ put_sectors ys (lba + length xs) (put_sectors xs lba disk)
  unfolding put_sectors
  put_sectors-append [] ys lba disk = ap (λ (l : ℕ). put_sectors ys l disk) (omega arith)
  put_sectors-append (x ∷ xs) ys lba disk =
      put_sectors-append xs ys (lba + 1) (update disk lba x)
      ∙ ap (λ (l : ℕ). put_sectors ys l (put_sectors xs (lba + 1) (update disk lba x)))
          (omega arith)

  put_sectors-outside :
      (xs : List A) (lba : ℕ) (disk : ℕ → A) (a : ℕ)
      → (a < lba) ⊎ (lba + length xs ≤ a)
      → put_sectors xs lba disk a ≡ disk a
  unfolding put_sectors
  put_sectors-outside [] lba disk a h = refl
  put_sectors-outside (x ∷ xs) lba disk a h =
      put_sectors-outside xs (lba + 1) (update disk lba x) a (further h) ∙ rw (apart h) refl
    where
      further : (a < lba) ⊎ (lba + suc (length xs) ≤ a) → (a < lba + 1) ⊎ (lba + 1 + length xs ≤ a)
      further (inl l) = inl (omega arith)
      further (inr r) = inr (omega arith)

      apart : (a < lba) ⊎ (lba + suc (length xs) ≤ a) → (a == lba) ≡ false
      apart (inl l) = ne→==_false a lba (omega arith)
      apart (inr r) = ne→==_false a lba (omega arith)

  values-put_sectors :
      (xs : List A) (lba : ℕ) (disk : ℕ → A) → values (put_sectors xs lba disk) lba (length xs) ≡ xs
  unfolding put_sectors values
  values-put_sectors [] lba disk = refl
  values-put_sectors (x ∷ xs) lba disk =
      ap₂ ◌∷◌
        (put_sectors-outside xs (lba + 1) (update disk lba x) lba (inl (omega arith))
          ∙ rw (==_refl lba) refl)
        (values-put_sectors xs (lba + 1) (update disk lba x))

  write_loop-put_sectors :
      (fuel dev_no k : ℕ) (ready : ℕ → Bool) (lba secs_done sec_cnt : ℕ) (buf : List A)
      (disk : ℕ → A)
      → ((j : ℕ) → ready j ≡ true)
      → secs_done ≤ sec_cnt
      → sec_cnt < secs_done + fuel
      → lba + sec_cnt ≤ max_lba + 1
      → length buf ≡ sec_cnt - secs_done
      → write_loop fuel dev_no k ready lba secs_done sec_cnt buf disk
        ≡ ok (put_sectors buf (lba + secs_done) disk)
  unfolding write_loop
  write_loop-put_sectors zero dev_no k ready lba secs_done sec_cnt buf disk yes_ready le enough
        inside long =
      absurd (omega arith)
  write_loop-put_sectors (suc fuel) dev_no k ready lba secs_done sec_cnt buf disk yes_ready le
        enough inside long =
      elim (Bool-cases (leb sec_cnt secs_done)) [
        | inl done ↦ rw done (ap ok (sym (nothing buf (none_left done))))
        | inr more ↦
            let (pos, within, moved) = secs_op_bounds secs_done sec_cnt (left more) (omega arith) in
            let (regs, run, u) =
              Returns-ok (λ regs. Unit)
                (select_sector dev_no (lba + secs_done) (secs_op secs_done sec_cnt))
                (select_run dev_no (lba + secs_done) (secs_op secs_done sec_cnt)
                  (omega (arith, left more))) in
            let op = secs_op secs_done sec_cnt in
            rw
              (
                more,
                run,
                yes_ready k,
                moved,
                write_loop-put_sectors fuel dev_no (k + 1) ready lba (secs_done + op) sec_cnt
                    (drop op buf) (put_sectors (take op buf) (lba + secs_done) disk) yes_ready
                    within (omega arith) inside (omega (arith, length-drop op buf)),
              )
              (ap ok (joined op within))
      ]
    where
      none_left : leb sec_cnt secs_done ≡ true → length buf ≡ 0
      none_left done = ground arith

      nothing : (xs : List A) → length xs ≡ 0 → put_sectors xs (lba + secs_done) disk ≡ disk
      nothing [] e = refl
      nothing (x ∷ xs) e = absurd (omega arith)

      left : leb sec_cnt secs_done ≡ false → secs_done < sec_cnt
      left more = ground arith

      joined :
          (op : ℕ)
          → secs_done + op ≤ sec_cnt
          → put_sectors
              (drop op buf)
              (lba + (secs_done + op))
              (put_sectors (take op buf) (lba + secs_done) disk)
            ≡ put_sectors buf (lba + secs_done) disk
      joined op within =
          ap
            (λ (l : ℕ).
              put_sectors (drop op buf) l (put_sectors (take op buf) (lba + secs_done) disk))
            (omega (arith, length-take op buf))
          ∙ sym (put_sectors-append (take op buf) (drop op buf) (lba + secs_done) disk)
          ∙ ap (λ (b : List A). put_sectors b (lba + secs_done) disk) (append-take-drop op buf)

module _ {A : Type 0} where
  -- ide_write of a buffer to sectors that the disk has, with a disk that is ready each time, returns;
  -- ide_read of those sectors then gives the buffer, and no other sector has changed.
  pub ide_read-ide_write :
      (dev_no : ℕ) (ready : ℕ → Bool) (lba sec_cnt : ℕ) (buf : List A) (disk : ℕ → A)
      → ((j : ℕ) → ready j ≡ true)
      → 0 < sec_cnt
      → lba + sec_cnt ≤ max_lba + 1
      → length buf ≡ sec_cnt
      → Returns
          (λ disk'.
            (ide_read dev_no ready lba sec_cnt disk' ≡ ok buf)
            × ((a : ℕ) → (a < lba) ⊎ (lba + sec_cnt ≤ a) → disk' a ≡ disk a))
          (ide_write dev_no ready lba sec_cnt buf disk)
  unfolding ide_write
  ide_read-ide_write dev_no ready lba sec_cnt buf disk yes_ready pos inside long =
      rw
        (
          le→leb lba max_lba (omega arith),
          ne→==_false sec_cnt 0 (omega arith),
          write_loop-put_sectors (sec_cnt + 1) dev_no 0 ready lba 0 sec_cnt buf disk yes_ready
              (omega arith) (omega arith) inside (omega arith),
        )
        (
          ap (λ (d : ℕ → A). ide_read dev_no ready lba sec_cnt d) at_start
              ∙ ide_read-values dev_no ready lba sec_cnt (put_sectors buf lba disk) yes_ready pos
                  inside
              ∙ ap ok (
                  ap (values (put_sectors buf lba disk) lba) (sym long)
                  ∙ values-put_sectors buf lba disk),
          λ a h. ap (λ (d : ℕ → A). d a) at_start ∙ put_sectors-outside buf lba disk a (moved h),
        )
    where
      at_start : put_sectors buf (lba + 0) disk ≡ put_sectors buf lba disk
      at_start = ap (λ (l : ℕ). put_sectors buf l disk) (omega arith)

      moved : {a : ℕ} → (a < lba) ⊎ (lba + sec_cnt ≤ a) → (a < lba) ⊎ (lba + length buf ≤ a)
      moved (inl l) = inl l
      moved (inr r) = inr (omega arith)
