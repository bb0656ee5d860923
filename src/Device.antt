-- ===== src/Device.antt =====
-- Physical memory devices: src/mm-memphy.c over struct memphy_struct. A function that takes a
-- pointer which it compares with NULL takes an option; a function that changes the device returns
-- it anew. `malloc` is taken to succeed; what it returns is an argument where it can be read.
pub mod Frames
pub mod Cells
pub mod Invariant
pub mod Shape
pub mod Range
pub mod Race
mod Tests
use lab_os_assignment.Base.{
  ℕ, zero, suc, ◌+◌, ◌-◌, ◌/◌, ◌%◌, Bool, ◌&&◌, Option, none, some, List, [], ◌∷◌, length,
  get_elem?, set, ltb, ◌==◌, if◌then◌else◌,
}
use lab_os_assignment.Outcome.{
  Outcome, ok, fault, ◌>>=◌, need, Status, success, failure, wild_pointer, out_of_bounds,
  division_by_zero,
}
use lab_os_assignment.Words.{int_lt}
use lab_os_assignment.Chain.{Chain, null, wild, node}
use lab_os_assignment.Paging.{pagesz}

-- `used_fp_list` is never assigned.
pub record Device : Type 0 where
  pub storage : List ℕ
  pub maxsz : ℕ
  pub rdmflg : ℕ
  pub cursor : ℕ
  pub free_fp_list : Chain ℕ
  pub used_fp_list : Chain ℕ

-- The loop of MEMPHY_mv_csr: `rounds` bounds the steps that are left before `maxsz`.
mv_csr_loop : (rounds numstep offset maxsz cursor : ℕ) → ℕ
mv_csr_loop zero numstep offset maxsz cursor = cursor
mv_csr_loop (suc rounds) numstep offset maxsz cursor =
    let next = mv_csr_loop rounds (numstep + 1) offset maxsz ((cursor + 1) % maxsz) in
    if int_lt numstep offset && int_lt numstep maxsz then next else cursor

pub mv_csr : Device → ℕ → Device
unfolding mv_csr_loop
mv_csr mp offset = record mp { cursor = mv_csr_loop mp.maxsz 0 offset mp.maxsz 0 }

-- Beside the status: what is stored through `value`, if anything, and the device.
pub seq_read : Option Device → ℕ → Outcome (Status × Option ℕ × Option Device)
seq_read none addr = ok (failure, none, none)
seq_read (some mp) addr = if mp.rdmflg == 0 then ok (failure, none, some mp) else do
  let mp' = mv_csr mp addr
  b ← need out_of_bounds (get_elem? mp'.storage addr)
  ok (success, some b, some mp')

unfoldable pub read : Option Device → ℕ → Outcome (Status × Option ℕ × Option Device)
unfolding seq_read
read none addr = ok (failure, none, none)
read (some mp) addr =
    if mp.rdmflg == 0
    then seq_read (some mp) addr
    else do b ← need out_of_bounds (get_elem? mp.storage addr); ok (success, some b, some mp)

-- A store into the array.
abbrev pub store : Device → ℕ → ℕ → Outcome Device
store mp addr value =
    if ltb addr (length mp.storage)
    then ok (record mp { storage = set mp.storage addr value })
    else fault out_of_bounds

pub seq_write : Option Device → ℕ → ℕ → Outcome (Status × Option Device)
seq_write none addr value = ok (failure, none)
seq_write (some mp) addr value =
    if mp.rdmflg == 0
    then ok (failure, some mp)
    else do mp' ← store (mv_csr mp addr) addr value; ok (success, some mp')

unfoldable pub write : Option Device → ℕ → ℕ → Outcome (Status × Option Device)
unfolding seq_write
write none addr value = ok (failure, none)
write (some mp) addr value =
    if mp.rdmflg == 0
    then seq_write (some mp) addr value
    else do mp' ← store mp addr value; ok (success, some mp')

-- The loop of MEMPHY_format. `next` is the `fp_next` of the last node so far; a new node has NULL.
link_frames : (rounds iter : ℕ) → Chain ℕ → Chain ℕ
link_frames zero iter next = next
link_frames (suc rounds) iter next = node iter (link_frames rounds (iter + 1) null)

-- The first node comes from `malloc` and its `fp_next` is not assigned.
pub format : Device → ℕ → Outcome (Status × Device)
unfolding link_frames
format mp zero = fault division_by_zero
format mp (suc k) =
    let numfp = mp.maxsz / suc k in
    if numfp == 0
    then ok (failure, mp)
    else ok (success, record mp { free_fp_list = node 0 (link_frames (numfp - 1) 1 wild) })

-- The option is what is stored through `retfpn`.
unfoldable pub get_freefp : Device → Outcome (Status × Option ℕ × Device)
get_freefp mp = elim mp.free_fp_list [
  | null ↦ ok (failure, none, mp)
  | wild ↦ fault wild_pointer
  | node fpn next ↦ ok (success, some fpn, record mp { free_fp_list = next })
]

unfoldable pub put_freefp : Device → ℕ → Device
put_freefp mp fpn = record mp { free_fp_list = node fpn mp.free_fp_list }

-- The bytes that MEMPHY_dump prints, from index `i` on.
dump_loop : (rounds i : ℕ) → List ℕ → Outcome (List ℕ)
dump_loop zero i storage = ok []
dump_loop (suc rounds) i storage = do
  b ← need out_of_bounds (get_elem? storage i)
  rest ← dump_loop rounds (i + 1) storage
  ok (b ∷ rest)

unfoldable pub dump : Device → Outcome (List ℕ)
unfolding dump_loop
dump mp = dump_loop mp.maxsz 0 mp.storage

-- `bytes` is what `malloc` returns for `storage`; `mp` holds whatever stood in the struct.
unfoldable pub init_memphy : (bytes : List ℕ) → Device → (max_size randomflg : ℕ) → Outcome Device
unfolding format
init_memphy bytes mp max_size randomflg = do
  let sized = record mp { storage = bytes; maxsz = max_size }
  (_, formatted) ← format sized pagesz
  let flag = if randomflg == 0 then 0 else 1
  let flagged = record formatted { rdmflg = flag }
  ok (if flag == 0 then record flagged { cursor = 0 } else flagged)
