-- ===== src/Os/Config/RoundTrip.antt =====
-- A configuration that is written to a file the way the inputs of the program are, and read again.
use lab_os_assignment.Base.{
  ℕ, ◌+◌, ◌^◌, ◌<◌, ◌≡◌, refl, sym, ap, ◌∙◌, arith, true, none, some, List, [], ◌∷◌, ◌++◌, length,
  All, lt→ltb, subst,
}
use lab_os_assignment.Outcome.{ok, ◌>>=◌}
use lab_os_assignment.Words.{rounds_to, rounds_to_lem}
use lab_os_assignment.Scan.{is_space, skip_space, scan_string}
use lab_os_assignment.Scan.Decimal.{
  decimal, IsWord, EndsWord, int_field, ulong_field, scan_string-word, scan_string-skip,
  skip_space-space, skip_space-skip_space,
}
use lab_os_assignment.Os.Config.{Line, Config, folder, strcat, read_sizes, read_lines, read_config}

-- The lines of the processes; `path` is the name of the file in the folder.
abbrev pub print_lines : List Line → List ℕ
print_lines [] = []
print_lines (l ∷ ls) =
    decimal l.start_time (32 ∷ (l.path ++ 32 ∷ decimal l.prio (10 ∷ print_lines ls)))

-- The sizes of the four swap devices, with a space in front of each.
abbrev pub print_sizes : List ℕ → (after : List ℕ) → List ℕ
print_sizes [] after = 10 ∷ after
print_sizes (n ∷ ns) after = 32 ∷ decimal n (print_sizes ns after)

abbrev pub print_config : Config → List ℕ
print_config c = decimal c.time_slot (
    32
    ∷ decimal c.num_cpus (
        32
        ∷ decimal c.num_processes
            (10 ∷ decimal c.memramsz (print_sizes c.memswpsz (print_lines c.ld_processes)))))

-- A name without spaces that fits the array of the path behind the folder's.
abbrev pub IsName : List ℕ → Type 0
IsName [] = ⊥
IsName (c ∷ cs) = IsWord (c ∷ cs) × (length (c ∷ cs) < 89)

abbrev pub IsLine : Line → Type 0
IsLine l = IsName l.path × (l.start_time < 2 ^ 64) × (l.prio < 2 ^ 64)

-- What is read of the lines: the paths lead into the folder.
abbrev pub in_folder : List Line → List Line
in_folder [] = []
in_folder (l ∷ ls) = record l { path = folder ++ l.path } ∷ in_folder ls

-- A space of the file, which a space of the format has matched.
matched :
    (c : ℕ) (after : List ℕ)
    → is_space c ≡ true
    → skip_space (skip_space (c ∷ after)) ≡ skip_space after
matched c after space = skip_space-skip_space (c ∷ after) ∙ skip_space-space c after space

print_sizes-EndsWord : (sizes : List ℕ) (after : List ℕ) → EndsWord (print_sizes sizes after)
print_sizes-EndsWord [] after = refl
print_sizes-EndsWord (n ∷ ns) after = refl

read_name :
    (path after input : List ℕ)
    → IsName path
    → skip_space input ≡ skip_space (path ++ after)
    → EndsWord after
    → scan_string 100 none input ≡ ok (true, some path, after)
read_name [] after input name same ends = absurd name
read_name (c ∷ cs) after input name same ends =
    scan_string-skip 100 none input ((c ∷ cs) ++ after) same
    ∙ scan_string-word 100 none c cs after name.0 (omega arith) ends

strcat-folder : (path : List ℕ) → IsName path → strcat folder path ≡ ok (folder ++ path)
strcat-folder [] name = absurd name
strcat-folder (c ∷ cs) name = rw (lt→ltb (length (folder ++ c ∷ cs)) 100 (omega arith))

read_sizes-print :
    (sizes : List ℕ) (after input : List ℕ)
    → All (λ n. n < 2 ^ 31) sizes
    → skip_space input ≡ skip_space (print_sizes sizes after)
    → (rest : List ℕ) × (read_sizes (length sizes) input ≡ ok (sizes, rest))
      × (skip_space rest ≡ skip_space after)
unfolding read_sizes
read_sizes-print [] after input small same = (input, refl, same ∙ skip_space-space 10 after refl)
read_sizes-print (n ∷ ns) after input small same =
    let (rest, read, end) = read_sizes-print ns after (print_sizes ns after) small.1 refl in
    (
      rest,
      rw (
        int_field 0 n (print_sizes ns after) input
            (same ∙ skip_space-space 32 (decimal n (print_sizes ns after)) refl) small.0
            (print_sizes-EndsWord ns after),
        read,
      ),
      end,
    )

read_lines-print :
    (ls : List Line) (i : ℕ) (mem : ℕ → ℕ × ℕ) (input : List ℕ)
    → All IsLine ls
    → skip_space input ≡ skip_space (print_lines ls)
    → read_lines (length ls) i mem input ≡ ok (in_folder ls)
unfolding read_lines
read_lines-print [] i mem input v same = refl
read_lines-print (l ∷ ls) i mem input v same =
    let behind = 10 ∷ print_lines ls in
    rw (
      ulong_field (mem i).0 l.start_time (32 ∷ (l.path ++ 32 ∷ decimal l.prio behind)) input same
          v.0.1 refl,
      read_name l.path (32 ∷ decimal l.prio behind)
          (skip_space (32 ∷ (l.path ++ 32 ∷ decimal l.prio behind))) v.0.0
          (matched 32 (l.path ++ 32 ∷ decimal l.prio behind) refl) refl,
      ulong_field (mem i).1 l.prio behind (skip_space (32 ∷ decimal l.prio behind))
          (matched 32 (decimal l.prio behind) refl) v.0.2 refl,
      strcat-folder l.path v.0.0,
      read_lines-print ls (i + 1) mem (skip_space behind) v.1 (matched 10 (print_lines ls) refl),
    )

-- A configuration with four swap sizes and as many lines as it states is read back as it was
-- written, each path with the folder in front. The numbers of type `int` are below 2^31, the start
-- times and the priorities below 2^64, and the names have no spaces and at most 88 characters. What
-- `malloc` returns does not matter.
pub read_config-print :
    (c : Config) (mem : ℕ → ℕ × ℕ)
    → All (λ n. n < 2 ^ 31) (c.time_slot ∷ c.num_cpus ∷ c.num_processes ∷ c.memramsz ∷ c.memswpsz)
    → length c.memswpsz ≡ 4
    → length c.ld_processes ≡ c.num_processes
    → All IsLine c.ld_processes
    → read_config (some (print_config c)) mem
      ≡ ok (some (record c { ld_processes = in_folder c.ld_processes }))
unfolding read_config
read_config-print c mem small four count lines =
    let lines_text = print_lines c.ld_processes in
    let sizes_text = print_sizes c.memswpsz lines_text in
    let ram_text = decimal c.memramsz sizes_text in
    let count_text = decimal c.num_processes (10 ∷ ram_text) in
    let cpus_text = decimal c.num_cpus (32 ∷ count_text) in
    let (rest, sizes, end) =
      read_sizes-print c.memswpsz lines_text (skip_space sizes_text) small.1.1.1.1
        (skip_space-skip_space sizes_text) in
    let sizes4 : read_sizes 4 (skip_space sizes_text) ≡ ok (c.memswpsz, rest) =
      subst (λ n. read_sizes n (skip_space sizes_text) ≡ ok (c.memswpsz, rest)) four sizes in
    let rounds : rounds_to c.num_processes ≡ length c.ld_processes =
      rounds_to_lem c.num_processes small.1.1.0 ∙ sym count in
    rw
      (
        int_field 0 c.time_slot (32 ∷ cpus_text) (print_config c) refl small.0 refl,
        int_field 0 c.num_cpus (32 ∷ count_text) (skip_space (32 ∷ cpus_text))
            (matched 32 cpus_text refl) small.1.0 refl,
        int_field 0 c.num_processes (10 ∷ ram_text) (skip_space (32 ∷ count_text))
            (matched 32 count_text refl) small.1.1.0 refl,
        int_field 0 c.memramsz sizes_text (skip_space (10 ∷ ram_text)) (matched 10 ram_text refl)
            small.1.1.1.0 (print_sizes-EndsWord c.memswpsz lines_text),
        sizes4,
      )
      (ap
          (λ k. read_lines k 0 mem (skip_space rest) >>= λ ls.
            ok (some (record c { ld_processes = ls })))
          rounds
        ∙ rw (
            read_lines-print c.ld_processes 0 mem (skip_space rest) lines
              (skip_space-skip_space rest ∙ end)))
