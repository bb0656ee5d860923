-- ===== src/Samples.antt =====
-- A small system for the tests: a RAM and a swap device of two pages each, and a process with one
-- area and a table of one entry.
pub mod Booted
pub mod Finished
pub mod Busy
use lab_os_assignment.Base.{ℕ, ◌^◌, List, [], ◌∷◌, replicate}
use lab_os_assignment.Chain.{Chain, null, node}
use lab_os_assignment.Device.{Device}
use lab_os_assignment.Mm.{Region, Area, Mm, Caller}

abbrev device : (byte : ℕ) → Chain ℕ → Device
device byte frames = record {
  storage = replicate 512 byte;
  maxsz = 512;
  rdmflg = 1;
  cursor = 0;
  free_fp_list = frames;
  used_fp_list = null;
}

abbrev pub ram : Device
ram = device 7 (node 1 null)

abbrev pub swap : Device
swap = device 9 null

abbrev pub region : ℕ → ℕ → Region
region rg_start rg_end = record { rg_start = rg_start; rg_end = rg_end }

abbrev pub area : Area
area = record { vm_id = 1; vm_start = 0; vm_end = 256; sbrk = 256; vm_freerg_list = null }

abbrev pub mm : (pgd : List ℕ) → Mm
mm pgd = record {
  pgd = pgd;
  mmap = node area null;
  symrgtbl = replicate 30 (region 0 100);
  fifo_pgn = null;
}

-- A process whose table holds this entry.
abbrev pub caller : (pte : ℕ) → Caller
caller pte = record { mm = mm (pte ∷ []); mram = ram; active_mswp = swap }

-- Page 0 is present, in frame 0.
abbrev pub present : ℕ
present = 2 ^ 31

-- The same process on a RAM without a free frame.
abbrev pub crowded : Caller
crowded = record { mm = mm (present ∷ []); mram = device 7 null; active_mswp = swap }
