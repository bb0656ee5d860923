-- ===== src/Device/Shape.antt =====
-- What the operations of a device keep: its size, and the frames of its free list.
use lab_os_assignment.Base.{
  Option, ℕ, ◌≡◌, refl, ◌∙◌, Bool-cases, inl, inr, some, length, length-set, get_elem?, ltb, ◌==◌,
}
use lab_os_assignment.Outcome.{
  need, IfSome, OnResult, OnResult-bind, OnResult-after, OnResult-if, IfSome, Status, out_of_bounds,
}
use lab_os_assignment.Chain.{Chain, null, wild, node}
use lab_os_assignment.Device.Invariant.{DeviceInvariant}
use lab_os_assignment.Device.{Device, mv_csr, seq_read, read, store, seq_write, write, get_freefp}

-- The first list is what is left of the second after some frames of its front are taken.
pub data IsTail : Chain ℕ → Chain ℕ → Type 0 where
  same : (xs : Chain ℕ) → IsTail xs xs
  taken : (xs : Chain ℕ) (f : ℕ) (ys : Chain ℕ) → IsTail xs ys → IsTail xs (node f ys)

IsTail-trans : {xs ys zs : Chain ℕ} → IsTail xs ys → IsTail ys zs → IsTail xs zs
IsTail-trans p (same _) = p
IsTail-trans p (taken _ f zs q) = taken _ f zs (IsTail-trans p q)

-- What becomes of a device in use: no byte is added or lost, and no frame comes back.
pub record KeepsDevice (mp mp' : Device) : Type 0 where
  pub bytes : length mp'.storage ≡ length mp.storage
  pub size : mp'.maxsz ≡ mp.maxsz
  pub access : mp'.rdmflg ≡ mp.rdmflg
  pub frames : IsTail mp'.free_fp_list mp.free_fp_list

pub KeepsDevice-refl : (mp : Device) → KeepsDevice mp mp
KeepsDevice-refl mp = record { bytes = refl; size = refl; access = refl; frames = same _ }

module _ (old : Device) where
  moved_bytes :
      (mp : Device) (addr value : ℕ)
      → KeepsDevice old mp
      → OnResult (KeepsDevice old) (store mp addr value)
  moved_bytes mp addr value k =
      OnResult-if (KeepsDevice old) (ltb addr (length mp.storage)) _ _
        (record {
          bytes = length-set mp.storage addr value ∙ k.bytes;
          size = k.size;
          access = k.access;
          frames = k.frames;
        })
        tt

  reads_keep :
      (mp : Device) (addr : ℕ)
      → KeepsDevice old mp
      → OnResult
          (λ r. IfSome (λ b. Unit {0}) r.1 × IfSome (KeepsDevice old) r.2)
          (read (some mp) addr)
  unfolding read seq_read mv_csr
  reads_keep mp addr k =
      let Q = λ (r : Status × Option ℕ × Option Device).
        IfSome (λ b. Unit {0}) r.1 × IfSome (KeepsDevice old) r.2 in
      elim (Bool-cases (mp.rdmflg == 0)) [
        | inl sequential ↦ rw sequential (tt, k)
        | inr random ↦
            rw random
              (OnResult-after Q (need out_of_bounds (get_elem? mp.storage addr)) _ λ b. (tt, k))
      ]

  writes_keep :
      (mp : Device) (addr value : ℕ)
      → KeepsDevice old mp
      → OnResult (λ r. IfSome (KeepsDevice old) r.1) (write (some mp) addr value)
  unfolding write seq_write
  writes_keep mp addr value k = elim (Bool-cases (mp.rdmflg == 0)) [
    | inl sequential ↦ rw sequential k
    | inr random ↦ rw random (
        OnResult-bind (λ r. IfSome (KeepsDevice old) r.1) (store mp addr value) _
          (moved_bytes mp addr value k) λ mp' k'. k')
  ]

  takes_at :
      (mp : Device) (free : Chain ℕ)
      → KeepsDevice old (record mp { free_fp_list = free })
      → OnResult (λ r. KeepsDevice old r.2) (get_freefp (record mp { free_fp_list = free }))
  unfolding get_freefp
  takes_at mp null k = k
  takes_at mp wild k = tt
  takes_at mp (node f rest) k = record {
    bytes = k.bytes;
    size = k.size;
    access = k.access;
    frames = IsTail-trans (taken rest f rest (same rest)) k.frames;
  }

  pub KeepsDevice-invariant : DeviceInvariant (λ b. Unit {0}) (KeepsDevice old)
  KeepsDevice-invariant = record {
    low = λ n. tt;
    reads = reads_keep;
    writes = λ mp addr value k v. writes_keep mp addr value k;
    takes = λ mp k. takes_at mp mp.free_fp_list k;
  }
