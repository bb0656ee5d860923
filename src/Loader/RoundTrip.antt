-- ===== src/Loader/RoundTrip.antt =====
-- A process that is written to a file the way the inputs of the program are, and loaded again.
use lab_os_assignment.Base.{
  ℕ, suc, ◌+◌, ◌%◌, ◌^◌, ◌<◌, ◌≡◌, refl, sym, ap, ◌∙◌, arith, true, Option, none, some, List, [],
  ◌∷◌, ◌++◌, length, All, some-injective,
}
use lab_os_assignment.Outcome.{ok, >>=-eq-ok, ok-injective}
use lab_os_assignment.Scan.{is_space, skip_space, scan_uint, scan_string, next_of, space_if}
use lab_os_assignment.Scan.Decimal.{
  decimal, EndsWord, scan_uint-decimal, scan_uint-space, scan_string-word, scan_string-skip,
  skip_space-space, skip_space-skip_space, scan_uint-skip_space,
}
use lab_os_assignment.Cpu.{Opcode, calc, alloc, free, read, write, Inst}
use lab_os_assignment.Loader.{Program, opt, get_opcode, load_args, load_text, page_size, load}

-- The arguments of an instruction as text, in front of `after`.
abbrev pub print_args : Opcode → Inst → (after : List ℕ) → List ℕ
print_args calc t after = 10 ∷ after
print_args alloc t after = 32 ∷ decimal t.arg_0 (32 ∷ decimal t.arg_1 (10 ∷ after))
print_args free t after = 32 ∷ decimal t.arg_0 (10 ∷ after)
print_args read t after =
    32 ∷ decimal t.arg_0 (32 ∷ decimal t.arg_1 (32 ∷ decimal t.arg_2 (10 ∷ after)))
print_args write t after =
    32 ∷ decimal t.arg_0 (32 ∷ decimal t.arg_1 (32 ∷ decimal t.arg_2 (10 ∷ after)))

abbrev pub print_text : List Inst → List ℕ
print_text [] = []
print_text (t ∷ ts) = opt t.opcode ++ print_args t.opcode t (print_text ts)

-- A file: the priority and the number of instructions, then a line for each.
abbrev pub print : (priority : ℕ) → List Inst → List ℕ
print priority text = decimal priority (32 ∷ decimal (length text) (10 ∷ print_text text))

abbrev pub IsSmall : Inst → Type 0
IsSmall t = (t.arg_0 < 2 ^ 32) × (t.arg_1 < 2 ^ 32) × (t.arg_2 < 2 ^ 32)

-- An instruction in a slot that held `old`: an argument that its line has not is the old one.
abbrev pub placed : Opcode → (t old : Inst) → Inst
placed calc t old = record old { opcode = calc }
placed alloc t old = record old { opcode = alloc; arg_0 = t.arg_0; arg_1 = t.arg_1 }
placed free t old = record old { opcode = free; arg_0 = t.arg_0 }
placed read t old = record t { opcode = read }
placed write t old = record t { opcode = write }

abbrev pub place_all : (i : ℕ) → (mem : ℕ → Inst) → List Inst → List Inst
place_all i mem [] = []
place_all i mem (t ∷ ts) = placed t.opcode t (mem i) ∷ place_all (suc i) mem ts

scan_arg :
    (old n c : ℕ) (after : List ℕ)
    → n < 2 ^ 32
    → is_space c ≡ true
    → scan_uint old (32 ∷ decimal n (c ∷ after)) ≡ ok (true, n, c ∷ after)
scan_arg old n c after small space =
    scan_uint-space old 32 (decimal n (c ∷ after)) refl
    ∙ scan_uint-decimal old n (c ∷ after) small space

-- After a space of the format the number is read as before.
scan_arg_skipped :
    (old n c : ℕ) (after : List ℕ)
    → n < 2 ^ 32
    → is_space c ≡ true
    → scan_uint old (skip_space (32 ∷ decimal n (c ∷ after))) ≡ ok (true, n, c ∷ after)
scan_arg_skipped old n c after small space =
    scan_uint-skip_space old (32 ∷ decimal n (c ∷ after)) ∙ scan_arg old n c after small space

line_end : (after : List ℕ) → skip_space (skip_space (10 ∷ after)) ≡ skip_space after
line_end after = skip_space-skip_space (10 ∷ after) ∙ skip_space-space 10 after refl

load_args-print :
    (op : Opcode) (t old : Inst) (after : List ℕ)
    → IsSmall t
    → (input : List ℕ) × (load_args op (record old { opcode = op }) (print_args op t after)
        ≡ ok (placed op t old, input))
      × (skip_space input ≡ skip_space after)
unfolding load_args
load_args-print calc t old after s = (10 ∷ after, refl, skip_space-space 10 after refl)
load_args-print alloc t old after s = (
  skip_space (10 ∷ after),
  rw (
    scan_arg old.arg_0 t.arg_0 32 (decimal t.arg_1 (10 ∷ after)) s.0 refl,
    scan_arg_skipped old.arg_1 t.arg_1 10 after s.1 refl,
  ),
  line_end after,
)
load_args-print free t old after s =
    (skip_space (10 ∷ after), rw (scan_arg old.arg_0 t.arg_0 10 after s.0 refl), line_end after)
load_args-print read t old after s = (
  skip_space (10 ∷ after),
  rw (
    scan_arg old.arg_0 t.arg_0 32 (decimal t.arg_1 (32 ∷ decimal t.arg_2 (10 ∷ after))) s.0 refl,
    scan_arg_skipped old.arg_1 t.arg_1 32 (decimal t.arg_2 (10 ∷ after)) s.1 refl,
    scan_arg_skipped old.arg_2 t.arg_2 10 after s.2 refl,
  ),
  line_end after,
)
load_args-print write t old after s = (
  skip_space (10 ∷ after),
  rw (
    scan_arg old.arg_0 t.arg_0 32 (decimal t.arg_1 (32 ∷ decimal t.arg_2 (10 ∷ after))) s.0 refl,
    scan_arg_skipped old.arg_1 t.arg_1 32 (decimal t.arg_2 (10 ∷ after)) s.1 refl,
    scan_arg_skipped old.arg_2 t.arg_2 10 after s.2 refl,
  ),
  line_end after,
)

print_args-EndsWord : (op : Opcode) (t : Inst) (after : List ℕ) → EndsWord (print_args op t after)
print_args-EndsWord calc t after = refl
print_args-EndsWord alloc t after = refl
print_args-EndsWord free t after = refl
print_args-EndsWord read t after = refl
print_args-EndsWord write t after = refl

-- The name of an instruction is read back into the array of ten bytes.
scan_opt :
    (op : Opcode) (old : Option (List ℕ)) (after : List ℕ)
    → EndsWord after
    → scan_string 10 old (opt op ++ after) ≡ ok (true, some (opt op), after)
scan_opt calc old after e =
    scan_string-word 10 old _ _ after (refl, (refl, (refl, (refl, tt)))) (omega arith) e
scan_opt alloc old after e =
    scan_string-word 10 old _ _ after (refl, (refl, (refl, (refl, (refl, tt))))) (omega arith) e
scan_opt free old after e =
    scan_string-word 10 old _ _ after (refl, (refl, (refl, (refl, tt)))) (omega arith) e
scan_opt read old after e =
    scan_string-word 10 old _ _ after (refl, (refl, (refl, (refl, tt)))) (omega arith) e
scan_opt write old after e =
    scan_string-word 10 old _ _ after (refl, (refl, (refl, (refl, (refl, tt))))) (omega arith) e

pub get_opcode-opt : (op : Opcode) → get_opcode (opt op) ≡ some op
unfolding get_opcode
get_opcode-opt calc = refl
get_opcode-opt alloc = refl
get_opcode-opt free = refl
get_opcode-opt read = refl
get_opcode-opt write = refl

load_text-print :
    (text : List Inst) (i : ℕ) (mem : ℕ → Inst) (opcode : Option (List ℕ)) (input : List ℕ)
    → All IsSmall text
    → skip_space input ≡ skip_space (print_text text)
    → load_text (length text) i mem opcode input ≡ ok (some (place_all i mem text))
unfolding load_text
load_text-print [] i mem opcode input s e = refl
load_text-print (t ∷ ts) i mem opcode input s e =
    let args = print_args t.opcode t (print_text ts) in
    let (rest, loaded, same) = load_args-print t.opcode t (mem i) (print_text ts) s.0 in
    rw
      (
        scan_string-skip 10 opcode input (opt t.opcode ++ args) e,
        scan_opt t.opcode opcode args (print_args-EndsWord t.opcode t (print_text ts)),
      )
      (ground (
        arith,
        get_opcode-opt t.opcode,
        loaded,
        load_text-print ts (suc i) mem (some (opt t.opcode)) rest s.1 same,
      ))

-- A process written to a file is loaded as it was: its instructions in order, its priority, the next
-- process number, the program counter at 0 and the break at PAGE_SIZE. The priority, the arguments
-- and the number of instructions are 32-bit numbers; an argument that the file has not keeps what
-- stood in its place, and nothing else of what `malloc` returns is kept.
pub load-print :
    (avail_pid priority size priority' : ℕ) (text : List Inst) (mem : ℕ → Inst)
    → priority < 2 ^ 32
    → length text < 2 ^ 32
    → All IsSmall text
    → load avail_pid (some (print priority text)) priority' size mem
      ≡ ok (
          some (
            record {
              pid = avail_pid;
              priority = priority;
              text = place_all 0 mem text;
              pc = 0;
              bp = page_size;
            },
            (avail_pid + 1) % 2 ^ 32,
          ))
unfolding load
load-print avail_pid priority size priority' text mem small few args = rw (
  scan_uint-decimal priority' priority (32 ∷ decimal (length text) (10 ∷ print_text text)) small
      refl,
  scan_arg_skipped size (length text) 10 (print_text text) few refl,
  load_text-print text 0 mem none (10 ∷ print_text text) args
      (skip_space-space 10 (print_text text) refl),
)

-- What `load` says of a process beside its code.
pub load-starts :
    (avail_pid : ℕ) (file : Option (List ℕ)) (priority size : ℕ) (mem : ℕ → Inst) (r : Program × ℕ)
    → load avail_pid file priority size mem ≡ ok (some r)
    → (r.0.pc ≡ 0) × (r.0.pid ≡ avail_pid) × (r.1 ≡ (avail_pid + 1) % 2 ^ 32)
unfolding load
load-starts avail_pid none priority size mem r e = cc
load-starts avail_pid (some bytes) priority size mem r e =
    let (a, _, e1) = >>=-eq-ok (scan_uint priority bytes) _ e in
    let (b, _, e2) = >>=-eq-ok (next_of a.0 size scan_uint (space_if a.0 a.2)) _ e1 in
    let (text, _, e3) = >>=-eq-ok (load_text b.1 0 mem none b.2) _ e2 in of_text text a.1 e3
  where
    of_text :
        (text : Option (List Inst)) (prio : ℕ)
        → ok (elim text [
          | none ↦ none
          | some ts ↦ some (
            record { pid = avail_pid; priority = prio; text = ts; pc = 0; bp = page_size },
            (avail_pid + 1) % 2 ^ 32,
          )
        ])
          ≡ ok (some r)
        → (r.0.pc ≡ 0) × (r.0.pid ≡ avail_pid) × (r.1 ≡ (avail_pid + 1) % 2 ^ 32)
    of_text none prio h = cc
    of_text (some ts) prio h =
        let same = some-injective (ok-injective h) in
        (
          sym (ap (λ (x : Program × ℕ). x.0.pc) same),
          sym (ap (λ (x : Program × ℕ). x.0.pid) same),
          sym (ap (λ (x : Program × ℕ). x.1) same),
        )
