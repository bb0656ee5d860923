-- ===== src/Mm/Print.antt =====
-- The functions of src/mm.c that print a list: the items that are printed, and the `int` returned.
use lab_os_assignment.Base.{ℕ, ◌-◌, ◌^◌, ◌≡◌, refl, List, [], ◌∷◌}
use lab_os_assignment.Outcome.{Outcome, ok, fault, ◌>>=◌, wild_pointer}
use lab_os_assignment.Chain.{Chain, null, wild, node, chain_of}
use lab_os_assignment.Mm.{Region, Area}

-- The loop of each.
walk : {A B : Type 0} → (A → B) → Chain A → Outcome (List B)
walk f null = ok []
walk f wild = fault wild_pointer
walk f (node x rest) = do xs ← walk f rest; ok (f x ∷ xs)

print_list : {A B : Type 0} → (A → B) → Chain A → Outcome (ℕ × List B)
unfolding walk
print_list f null = ok (2 ^ 32 - 1, [])
print_list f wild = do xs ← walk f wild; ok (0, xs)
print_list f (node x rest) = do xs ← walk f (node x rest); ok (0, xs)

pub print_list_fp : Chain ℕ → Outcome (ℕ × List ℕ)
unfolding print_list
print_list_fp ifp = print_list (λ fpn. fpn) ifp

pub print_list_rg : Chain Region → Outcome (ℕ × List (ℕ × ℕ))
unfolding print_list
print_list_rg irg = print_list (λ rg. (rg.rg_start, rg.rg_end)) irg

pub print_list_vma : Chain Area → Outcome (ℕ × List (ℕ × ℕ))
unfolding print_list
print_list_vma ivma = print_list (λ vma. (vma.vm_start, vma.vm_end)) ivma

pub print_list_pgn : Chain ℕ → Outcome (ℕ × List ℕ)
unfolding print_list
print_list_pgn ip = print_list (λ pgn. pgn) ip

abbrev each : {A B : Type 0} → (A → B) → List A → List B
each f [] = []
each f (x ∷ xs) = f x ∷ each f xs

walk-chain_of : {A B : Type 0} (f : A → B) (xs : List A) → walk f (chain_of xs) ≡ ok (each f xs)
unfolding walk
walk-chain_of f [] = refl
walk-chain_of f (x ∷ xs) = rw (walk-chain_of f xs)

-- Of a list that ends in NULL every item is printed once, in order; of NULL alone nothing, with -1.
print_list_pgn-chain_of :
    (x : ℕ) (xs : List ℕ)
    → (print_list_pgn (chain_of (x ∷ xs)) ≡ ok (0, each (λ pgn. pgn) (x ∷ xs)))
      × (print_list_pgn null ≡ ok (2 ^ 32 - 1, []))
unfolding print_list_pgn
print_list_pgn-chain_of x xs = (rw (walk-chain_of (λ pgn. pgn) xs), refl)
