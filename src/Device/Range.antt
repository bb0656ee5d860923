-- ===== src/Device/Range.antt =====
-- The bytes of a device: what is stored and read fits a BYTE.
use lab_os_assignment.Base.{
  ℕ, ◌≡◌, ◌<◌, ◌^◌, refl, arith, Bool-cases, inl, inr, Option, none, some, All, All-set,
  All-get_elem?, length, get_elem?, List, ltb, ◌==◌,
}
use lab_os_assignment.Outcome.{
  IfSome, OnResult, OnResult-bind, OnResult-if, need, out_of_bounds, Fault, Status,
}
use lab_os_assignment.Chain.{Chain, null, wild, node}
use lab_os_assignment.Device.Invariant.{DeviceInvariant}
use lab_os_assignment.Device.{Device, mv_csr, store, seq_read, read, seq_write, write, get_freefp}

abbrev pub IsByte : ℕ → Type 0
IsByte b = b < 2 ^ 8

abbrev pub HasBytes : Device → Type 0
HasBytes mp = All IsByte mp.storage

-- An element of a list all of which are so.
pub need-All :
    (P : ℕ → Type 0) (e : Fault) (xs : List ℕ) (i : ℕ)
    → All P xs
    → OnResult P (need e (get_elem? xs i))
need-All P e xs i all = at (get_elem? xs i) refl
  where
    at : (o : Option ℕ) → get_elem? xs i ≡ o → OnResult P (need e o)
    at none h = tt
    at (some v) h = All-get_elem? P xs i v all h

module _ (mp : Device) (bytes : HasBytes mp) where
  read-HasBytes :
      (addr : ℕ) → OnResult (λ r. IfSome IsByte r.1 × IfSome HasBytes r.2) (read (some mp) addr)
  unfolding read seq_read mv_csr
  read-HasBytes addr =
      let Q = λ (r : Status × Option ℕ × Option Device). IfSome IsByte r.1 × IfSome HasBytes r.2 in
      elim (Bool-cases (mp.rdmflg == 0)) [
        | inl sequential ↦ rw sequential (tt, bytes)
        | inr random ↦ rw random (
            OnResult-bind Q (need out_of_bounds (get_elem? mp.storage addr)) _
              (need-All IsByte out_of_bounds mp.storage addr bytes) λ b p. (p, bytes))
      ]

  store-HasBytes : (addr value : ℕ) → IsByte value → OnResult HasBytes (store mp addr value)
  store-HasBytes addr value v =
      OnResult-if HasBytes (ltb addr (length mp.storage)) _ _
        (All-set IsByte mp.storage addr value bytes v) tt

  write-HasBytes :
      (addr value : ℕ)
      → IsByte value
      → OnResult (λ r. IfSome HasBytes r.1) (write (some mp) addr value)
  unfolding write seq_write
  write-HasBytes addr value v = elim (Bool-cases (mp.rdmflg == 0)) [
    | inl sequential ↦ rw sequential bytes
    | inr random ↦ rw random (
        OnResult-bind (λ r. IfSome HasBytes r.1) (store mp addr value) _
          (store-HasBytes addr value v) λ mp' p. p)
  ]

get_freefp-at :
    (mp : Device) (free : Chain ℕ)
    → HasBytes mp
    → OnResult (λ r. HasBytes r.2) (get_freefp (record mp { free_fp_list = free }))
unfolding get_freefp
get_freefp-at mp null bytes = bytes
get_freefp-at mp wild bytes = tt
get_freefp-at mp (node f rest) bytes = bytes

pub HasBytes-invariant : DeviceInvariant IsByte HasBytes
HasBytes-invariant = record {
  low = λ n. omega arith;
  reads = λ mp addr bytes. read-HasBytes mp bytes addr;
  writes = λ mp addr value bytes v. write-HasBytes mp bytes addr value v;
  takes = λ mp bytes. get_freefp-at mp mp.free_fp_list bytes;
}
