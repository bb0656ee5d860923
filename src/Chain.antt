-- ===== src/Chain.antt =====
-- Linked lists whose nodes belong to one list: struct framephy_struct, vm_rg_struct, pgn_t and
-- vm_area_struct of include/os-mm.h. A list ends in NULL, or in a pointer that must not be followed.
use lab_os_assignment.Base.{ℕ, suc, List, [], ◌∷◌}

pub data Chain {ℓ} (A : Type ℓ) : Type ℓ where
  null : Chain A
  wild : Chain A
  node : A → Chain A → Chain A

module _ {ℓ} {A : Type ℓ} where
  -- The list of these items, ended by NULL.
  abbrev pub chain_of : List A → Chain A
  chain_of [] = null
  chain_of (x ∷ xs) = node x (chain_of xs)

  -- The number of nodes before the end.
  abbrev pub nodes : Chain A → ℕ
  nodes null = 0
  nodes wild = 0
  nodes (node x c) = suc (nodes c)

  -- The list can be walked to NULL.
  abbrev pub IsProper : Chain A → Type 0
  IsProper null = Unit {0}
  IsProper wild = ⊥
  IsProper (node x c) = IsProper c

  pub chain_of-IsProper : (xs : List A) → IsProper (chain_of xs)
  chain_of-IsProper [] = tt
  chain_of-IsProper (x ∷ xs) = chain_of-IsProper xs
