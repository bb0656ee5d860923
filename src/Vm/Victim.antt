-- ===== src/Vm/Victim.antt =====
-- find_victim_page: which page it picks, and what it leaves behind.
use lab_os_assignment.Base.{ℕ, ◌≡◌, refl, ap, some, none, List, [], ◌∷◌}
use lab_os_assignment.Outcome.{ok, fault, ◌>>=◌, success, failure, wild_pointer}
use lab_os_assignment.Chain.{Chain, null, wild, node, chain_of}
use lab_os_assignment.Mm.{Mm}
use lab_os_assignment.Vm.{last_page, find_victim_page}

-- The last of `p` and the pages behind it: the page that was enlisted first.
abbrev pub last_of : ℕ → List ℕ → ℕ
last_of p [] = p
last_of p (q ∷ ps) = last_of q ps

-- The list without its last node, whose place is kept by a pointer to freed memory.
abbrev pub cut_last : ℕ → List ℕ → Chain ℕ
cut_last p [] = wild
cut_last p (q ∷ ps) = node p (cut_last q ps)

last_page-eq : (p : ℕ) (ps : List ℕ) → last_page p (chain_of ps) ≡ ok (last_of p ps, cut_last p ps)
unfolding last_page
last_page-eq p [] = refl
last_page-eq p (q ∷ ps) = ap (λ r. r >>= λ s. ok (s.0, node p s.1)) (last_page-eq q ps)

last_page-cut : (p : ℕ) (q : ℕ) (ps : List ℕ) → last_page p (cut_last q ps) ≡ fault wild_pointer
unfolding last_page
last_page-cut p q [] = refl
last_page-cut p q (r ∷ ps) = rw (last_page-cut q r ps)

abbrev pub with_pages : Mm → Chain ℕ → Mm
with_pages mm pages = record mm { fifo_pgn = pages }

-- Where the list holds one page, that page is the victim, the list is empty afterwards, and the next
-- search fails.
pub victim_single :
    (mm : Mm) (p : ℕ)
    → (find_victim_page (with_pages mm (node p null)) ≡ ok (success, some p, with_pages mm null))
      × (find_victim_page (with_pages mm null) ≡ ok (failure, none, with_pages mm null))
unfolding find_victim_page
victim_single mm p = (refl, refl)

-- Where the list holds at least two pages, the page that was enlisted first is the victim, the node
-- before it keeps a pointer to the freed node, and the next search follows that pointer.
pub victim_dangles :
    (mm : Mm) (p q : ℕ) (ps : List ℕ)
    → (find_victim_page (with_pages mm (chain_of (p ∷ q ∷ ps)))
        ≡ ok (success, some (last_of q ps), with_pages mm (cut_last p (q ∷ ps))))
      × (find_victim_page (with_pages mm (cut_last p (q ∷ ps))) ≡ fault wild_pointer)
unfolding find_victim_page
victim_dangles mm p q ps = (rw (last_page-eq p (q ∷ ps)), rw (last_page-cut p q ps))

-- What find_victim_page leaves of the list.
abbrev pub left_of : ℕ → List ℕ → Chain ℕ
left_of p [] = null
left_of p (q ∷ ps) = cut_last p (q ∷ ps)

pub find_victim_page-last :
    (mm : Mm) (p : ℕ) (ps : List ℕ)
    → mm.fifo_pgn ≡ chain_of (p ∷ ps)
    → find_victim_page mm ≡ ok (success, some (last_of p ps), with_pages mm (left_of p ps))
unfolding find_victim_page
find_victim_page-last mm p [] e = rw e refl
find_victim_page-last mm p (q ∷ ps) e = rw (e, last_page-eq p (q ∷ ps)) refl
