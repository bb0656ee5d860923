-- ===== src/Device/Frames.antt =====
-- The free frames of a device: what MEMPHY_format lists, and in which order frames come and go.
use lab_os_assignment.Base.{
  ℕ, zero, suc, ◌+◌, ◌-◌, ◌/◌, ◌≡◌, ◌≢◌, refl, ap, ◌∙◌, arith, List, [], ◌∷◌, none, some,
  range_from, length, ◌==◌, if◌then◌else◌, false,
}
use lab_os_assignment.Outcome.{Outcome, ok, ◌>>=◌, success, failure, Returns}
use lab_os_assignment.Chain.{Chain, null, wild, node, chain_of}
use lab_os_assignment.Device.{Device, link_frames, get_freefp, put_freefp, init_memphy}

link_frames-null :
    (rounds iter : ℕ) → link_frames rounds iter null ≡ chain_of (range_from iter rounds)
unfolding link_frames
link_frames-null zero iter = refl
link_frames-null (suc rounds) iter = ap (node iter) (link_frames-null rounds (iter + 1))

-- The free list that a device of `size` bytes comes to have, where `old` stood before.
pub listed : (size : ℕ) → Chain ℕ → Chain ℕ
listed size old =
    let numfp = size / 256 in
    if numfp == 0 then old else if numfp == 1 then node 0 wild else chain_of (range_from 0 numfp)

linked :
    (numfp : ℕ)
    → numfp ≢ 0
    → node 0 (link_frames (numfp - 1) 1 wild)
      ≡ (if numfp == 1 then node 0 wild else chain_of (range_from 0 numfp))
unfolding link_frames
linked zero h = absurd (h refl)
linked (suc zero) h = refl
linked (suc (suc k)) h =
    let rest : suc (suc k) - 1 ≡ suc k = omega arith in
    let many : (suc (suc k) == 1) ≡ false = ground arith in rw (rest, link_frames-null, many)

pub init_memphy-listed :
    (bytes : List ℕ) (mp : Device) (max_size flag : ℕ)
    → Returns
        (λ d.
          (d.free_fp_list ≡ listed max_size mp.free_fp_list)
          × (d.storage ≡ bytes)
          × (d.maxsz ≡ max_size)
          × ((d.rdmflg == 0) ≡ (flag == 0)))
        (init_memphy bytes mp max_size flag)
unfolding init_memphy listed
init_memphy-listed bytes mp max_size flag = ground (arith, linked (max_size / 256))

-- Takes frames until the list is used up or `rounds` are taken.
pub get_many : (rounds : ℕ) → Device → Outcome (List ℕ × Device)
get_many zero mp = ok ([], mp)
get_many (suc rounds) mp = do
  (s, fpn, mp') ← get_freefp mp
  elim fpn [ none ↦ ok ([], mp') | some f ↦ do (fs, last) ← get_many rounds mp'; ok (f ∷ fs, last) ]

drains_at :
    (xs : List ℕ) (mp : Device)
    → get_many (suc (length xs)) (record mp { free_fp_list = chain_of xs })
      ≡ ok (xs, record mp { free_fp_list = null })
unfolding get_many get_freefp
drains_at [] mp = refl
drains_at (x ∷ xs) mp = rw (drains_at xs mp)

-- A proper free list gives out its frames in order, each once, and then the next request fails and
-- changes nothing.
pub get_many-drains :
    (xs : List ℕ) (mp : Device)
    → mp.free_fp_list ≡ chain_of xs
    → get_many (suc (length xs)) mp ≡ ok (xs, record mp { free_fp_list = null })
get_many-drains xs mp e =
    ap (get_many (suc (length xs))) (λ i. record mp { free_fp_list = e i }) ∙ drains_at xs mp

abbrev pub put_many : List ℕ → Device → Device
put_many [] mp = mp
put_many (f ∷ fs) mp = put_freefp (put_many fs mp) f

-- Frames that are put back are the next to be given out: the frames of a list come back in its
-- order, and the device is then as it was.
pub get_many-put_many :
    (fs : List ℕ) (mp : Device) → get_many (length fs) (put_many fs mp) ≡ ok (fs, mp)
unfolding get_many get_freefp put_freefp
get_many-put_many [] mp = refl
get_many-put_many (f ∷ fs) mp = rw (get_many-put_many fs mp)

pub get_freefp-node :
    (mp : Device) (f : ℕ) (rest : Chain ℕ)
    → mp.free_fp_list ≡ node f rest
    → get_freefp mp ≡ ok (success, some f, record mp { free_fp_list = rest })
unfolding get_freefp
get_freefp-node mp f rest e = rw e

pub get_freefp-null :
    (mp : Device) → mp.free_fp_list ≡ null → get_freefp mp ≡ ok (failure, none, mp)
unfolding get_freefp
get_freefp-null mp e = rw e
