-- ===== src/Device/Cells.antt =====
-- Reading and writing the bytes of a device.
use native.Mathlib.Decide.{dec_lt}
use native.Mathlib.Nat.{mod-add-mod, mod-eq_of_lt, mod_self, zero-mod}
use lab_os_assignment.Base.{
  ℕ, zero, suc, ◌+◌, ◌%◌, ◌^◌, ◌≤◌, ◌<◌, min, ◌≡◌, ◌≢◌, refl, sym, ap, ◌∙◌, arith, true, false,
  ◌&&◌, Option, none, some, List, length, get_elem?, set, take, drop, get_elem?-set_self,
  get_elem?-set_ne, get_elem?_lt, get_elem?_ge, drop-get_elem?, ltb, leb, le→leb, lt→leb, ◌==◌,
  if◌then◌else◌,
}
use lab_os_assignment.Outcome.{Outcome, ok, fault, ◌>>=◌, Status, success, failure, out_of_bounds}
use lab_os_assignment.Words.{int_lt}
use lab_os_assignment.Device.{
  Device, mv_csr_loop, mv_csr, seq_read, read, seq_write, write, dump_loop, dump,
}

module _ (mp : Device) where
  -- A random access device takes a byte at every address inside its storage and changes no other
  -- byte; at any other address the access leaves the array.
  pub write_lem :
      (addr value : ℕ)
      → mp.rdmflg ≢ 0
      → write (some mp) addr value ≡ (
          if ltb addr (length mp.storage)
          then ok (success, some (record mp { storage = set mp.storage addr value }))
          else fault out_of_bounds)
  unfolding write
  write_lem addr value h = ground arith

  pub read_lem :
      (addr b : ℕ)
      → mp.rdmflg ≢ 0
      → get_elem? mp.storage addr ≡ some b
      → read (some mp) addr ≡ ok (success, some b, some mp)
  unfolding read
  read_lem addr b h e = ground arith

  pub read-out :
      (addr : ℕ)
      → mp.rdmflg ≢ 0
      → length mp.storage ≤ addr
      → read (some mp) addr ≡ fault out_of_bounds
  unfolding read
  read-out addr h out = ground (arith, get_elem?_ge mp.storage addr out)

  -- A device that is not random access fails every read and every write, stores nothing through
  -- `value`, and is not changed.
  pub sequential_fails :
      (addr value : ℕ)
      → mp.rdmflg ≡ 0
      → (read (some mp) addr ≡ ok (failure, none, some mp))
        × (write (some mp) addr value ≡ ok (failure, some mp))
  unfolding read write seq_read seq_write
  sequential_fails addr value h = ground arith

-- What a read reports, and what it reports after a write.
abbrev pub value_at : Option Device → ℕ → Outcome (Status × Option ℕ)
value_at mp j = read mp j >>= λ r. ok (r.0, r.1)

abbrev pub value_after : Device → (addr value j : ℕ) → Outcome (Status × Option ℕ)
value_after mp addr value j = write (some mp) addr value >>= λ w. value_at w.1 j

-- What a later read finds, after a write inside a random access device: the value at the address
-- written, and at any other address inside the device what stood there.
pub read-write :
    (mp : Device) (addr value j : ℕ)
    → mp.rdmflg ≢ 0
    → addr < length mp.storage
    → j < length mp.storage
    → value_after mp addr value j
      ≡ (if addr == j then ok (success, some value) else value_at (some mp) j)
unfolding read write
read-write mp addr value j h inside inside' =
    let (b, e) = get_elem?_lt mp.storage j inside' in
    ground (
      arith,
      e,
      get_elem?-set_self mp.storage addr value inside,
      get_elem?-set_ne mp.storage addr j value,
    )

dump_loop-eq :
    (rounds i : ℕ) (xs : List ℕ)
    → i + rounds ≤ length xs
    → dump_loop rounds i xs ≡ ok (take rounds (drop i xs))
unfolding dump_loop
dump_loop-eq zero i xs h = refl
dump_loop-eq (suc rounds) i xs h =
    let (b, e) = get_elem?_lt xs i (omega arith) in
    let next : i + 1 ≡ suc i = omega arith in
    let ih : dump_loop rounds (suc i) xs ≡ ok (take rounds (drop (suc i) xs)) =
      dump_loop-eq rounds (suc i) xs (omega arith) in
    rw (e, drop-get_elem? xs i b e, next, ih)

dump_loop-out :
    (rounds i : ℕ) (xs : List ℕ)
    → length xs < i + rounds
    → i ≤ length xs
    → dump_loop rounds i xs ≡ fault out_of_bounds
unfolding dump_loop
dump_loop-out zero i xs h le = absurd (omega arith)
dump_loop-out (suc rounds) i xs h le = elim (dec_lt i (length xs)) [
  | yes below ↦
      (let (b, e) = get_elem?_lt xs i below in
        rw (e, dump_loop-out rounds (i + 1) xs (omega arith) (omega arith)))
  | no past ↦ rw (get_elem?_ge xs i (omega arith))
]

-- MEMPHY_dump prints the first `maxsz` bytes of the storage, in order, if there are so many, and
-- otherwise reads past its end.
pub dump_lem :
    (mp : Device)
    → dump mp ≡ (
        if leb mp.maxsz (length mp.storage)
        then ok (take mp.maxsz mp.storage)
        else fault out_of_bounds)
unfolding dump
dump_lem mp = elim (dec_lt (length mp.storage) mp.maxsz) [
  | yes short ↦ rw (
    lt→leb mp.maxsz (length mp.storage) short,
    dump_loop-out mp.maxsz 0 mp.storage (omega arith) (omega arith),
  )
  | no long ↦ rw (
    le→leb mp.maxsz (length mp.storage) (omega arith),
    dump_loop-eq mp.maxsz 0 mp.storage (omega arith),
  )
]

-- The loop of `mv_csr` from step `n` on, with the cursor where the steps so far have moved it.
mv_csr_loop-eq :
    (rounds n offset maxsz : ℕ)
    → rounds + n ≡ maxsz
    → n ≤ offset
    → offset < 2 ^ 31
    → maxsz < 2 ^ 31
    → mv_csr_loop rounds n offset maxsz (n % maxsz) ≡ min offset maxsz % maxsz
unfolding mv_csr_loop
mv_csr_loop-eq zero n offset maxsz e le ho hm =
    let stop : min offset maxsz ≡ n = omega arith in rw stop
mv_csr_loop-eq (suc rounds) n offset maxsz e le ho hm = elim (dec_lt n offset) [
  | yes p ↦
      rw (go p, mod-add-mod n maxsz 1)
        (mv_csr_loop-eq rounds (n + 1) offset maxsz (omega arith) (omega arith) ho hm)
  | no p ↦ rw (stop p) (let here : min offset maxsz ≡ n = omega arith in rw here)
]
  where
    go : n < offset → int_lt n offset && int_lt n maxsz ≡ true
    go p = ground arith

    stop : ¬ (n < offset) → int_lt n offset && int_lt n maxsz ≡ false
    stop p = ground arith

-- `mv_csr` walks to the offset, or round to 0 if the offset is the size or more; offset and size
-- are not negative as `int`.
pub mv_csr_lem :
    (mp : Device) (offset : ℕ)
    → mp.maxsz < 2 ^ 31
    → offset < 2 ^ 31
    → (mv_csr mp offset).cursor ≡ (if ltb offset mp.maxsz then offset else 0)
unfolding mv_csr
mv_csr_lem mp offset hm ho =
    ap (mv_csr_loop mp.maxsz 0 offset mp.maxsz) (sym (zero-mod mp.maxsz))
    ∙ mv_csr_loop-eq mp.maxsz 0 offset mp.maxsz (omega arith) (omega arith) ho hm
    ∙ around
  where
    around : min offset mp.maxsz % mp.maxsz ≡ (if ltb offset mp.maxsz then offset else 0)
    around = elim (dec_lt offset mp.maxsz) [
      | yes p ↦
          (let here : min offset mp.maxsz ≡ offset = omega arith in
            rw (here, mod-eq_of_lt p) (ground arith))
      | no p ↦
          (let here : min offset mp.maxsz ≡ mp.maxsz = omega arith in
            rw (here, mod_self) (ground arith))
    ]
