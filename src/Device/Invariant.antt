-- ===== src/Device/Invariant.antt =====
-- Invariants of a device: what its operations need to keep.
use lab_os_assignment.Base.{ℕ, ◌%◌, ◌^◌, some}
use lab_os_assignment.Outcome.{OnResult, IfSome}
use lab_os_assignment.Device.{Device, read, write, get_freefp}

-- `Byte` holds of the values that are stored, `P` of the device.
pub record DeviceInvariant (Byte : ℕ → Type 0) (P : Device → Type 0) : Type 0 where
  pub low : (n : ℕ) → Byte (n % 2 ^ 8)
  pub reads :
      (mp : Device) (addr : ℕ)
      → P mp
      → OnResult (λ r. IfSome Byte r.1 × IfSome P r.2) (read (some mp) addr)
  pub writes :
      (mp : Device) (addr value : ℕ)
      → P mp
      → Byte value
      → OnResult (λ r. IfSome P r.1) (write (some mp) addr value)
  pub takes : (mp : Device) → P mp → OnResult (λ r. P r.2) (get_freefp mp)
