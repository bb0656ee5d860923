-- ===== src/Device/Tests.antt =====
-- Concrete devices.
use lab_os_assignment.Base.{ℕ, [], ◌∷◌, refl, some, true}
use lab_os_assignment.Outcome.{success}
use lab_os_assignment.Chain.{null, node}
use lab_os_assignment.Device.{Device}
use lab_os_assignment.Device.Race.{
  looks, returns, Calls, is_freed, get_freefp_step, interleave, IsRace, same_frame,
}

abbrev device : (rdmflg maxsz : ℕ) → Device
device rdmflg maxsz = record {
  storage = 1 ∷ 2 ∷ 3 ∷ [];
  maxsz = maxsz;
  rdmflg = rdmflg;
  cursor = 0;
  free_fp_list = node 4 null;
  used_fp_list = null;
}

-- Both calls read the list, and then the first runs to its end.
abbrev raced : Calls
raced = record {
  one = returns success (some 8);
  two = looks (node 8 (node 6 null));
  shared = record { free_fp_list = node 6 null; freed = 8 ∷ [] };
}

same_frame_example : IsRace 8 (node 6 null) raced
unfolding interleave get_freefp_step is_freed
same_frame_example = same_frame 8 (node 6 null) (true ∷ true ∷ true ∷ []) [] raced refl
