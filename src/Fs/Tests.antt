-- ===== src/Fs/Tests.antt =====
-- A run of opening and closing.
use fizzos.Base.{refl, none, some, ok, Returns, arith, ltb, if◌then◌else◌}
use fizzos.Dir.{found}
use fizzos.Fs.{Files, sys_openat}
use fizzos.Fs.Close.{IsOpened, sys_close-sys_openat}

-- A process with the standard three files.
abbrev standard : Files
standard = record {
  count = λ i. if ltb i 3 then 1 else 0;
  pos = λ i. 0;
  f_dentry = λ i. none;
  open_fds = λ fd. ltb fd 3;
  fd_array = λ fd. if ltb fd 3 then some fd else none;
  d_count = λ d. 1;
}

sys_close-sys_openat_example :
    Returns (IsOpened standard 8) (sys_openat (some 9) (ok (found 8)) standard)
sys_close-sys_openat_example = sys_close-sys_openat standard 9 (found 8) 3 (omega arith) refl
