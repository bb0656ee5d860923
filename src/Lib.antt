-- ===== src/Lib.antt =====
-- A model of the operating system simulator in ossim_source_code_part2_hk231_paging/: its paged
-- memory, scheduler, processors, loader and timer, with MLQ_SCHED and MM_PAGING defined as in
-- include/os-cfg.h. Paths below are under that directory.
--
-- A configuration (read_config of src/os.c) says which processes start when. The loader (src/loader.c,
-- ld_routine of src/os.c) reads each from its file and puts it into the queues of the scheduler
-- (src/sched.c over src/queue.c). A processor (cpu_routine of src/os.c) takes one from there,
-- executes its instructions (src/cpu.c), and puts it back. An instruction allocates, frees, reads or
-- writes memory: src/mm-vm.c keeps the regions of a process and its page table, src/mm.c maps and
-- copies pages, and src/mm-memphy.c is the RAM and the swap device. The macros for entries and
-- addresses are in include/mm.h and include/bitops.h.
-- The loader and the processors are devices of the timer (src/timer.c), which counts the time slots:
-- each makes a round of its work in a slot. main of src/os.c starts them all and waits for them.
--
-- Files, and the code that each is about:
--   Base, Outcome, Words, Bits, Chain: helpers; what C leaves undefined, machine integers, the bit
--     operators and linked lists.
--   Paging: the macros of include/bitops.h and include/mm.h; Paging.Address on those that take an
--     address apart.
--   Pte: init_pte, pte_set_swap and pte_set_fpn of src/mm.c; Pte.Fields on the fields that they
--     write, and Pte.Mismatch on how src/mm-vm.c reads them.
--   Device: src/mm-memphy.c, with MEMPHY_ left off the names; Device.Cells on its bytes,
--     Device.Frames on its free frames; Device.Race: two calls of MEMPHY_get_freefp at once,
--     statement by statement.
--   Mm: the structs of include/os-mm.h, the mapping functions of src/mm.c, and get_vma_by_num;
--     Mm.Map on mapping, Mm.Copy on __swap_cp_page (swap_cp_page), Mm.Print: the lists printed.
--   Vm: the functions of src/mm-vm.c on regions, with __alloc and __free as alloc and free, and
--     find_victim_page; Vm.Fit, Vm.Find and Vm.Fresh on the search, Vm.Grow,
--     Vm.Overlap, Vm.Release and Vm.Victim.
--   Page: the functions of src/mm-vm.c that access pages, with __read and __write as read and
--     write, and print_pgtbl; Page.Present and Page.Shared on pages that are present, Page.SwapIn,
--     Page.SwapOut, Page.Access and Page.Release.
--   Device.Invariant, Mm.Invariant, Vm.Invariant, Page.Invariant, Cpu.Invariant, Os.Memory and
--     Program.Memory: what an invariant of a device, of the tables and of the areas has to keep, as
--     records of laws, and that it is kept then by the functions of each file, by every instruction
--     and by all threads. The modules named Shape and Range are two such invariants: the sizes, and
--     the C types of the numbers, with Mm.First on get_vma_by_num; Program.Frames and Program.Range
--     state them of the program.
--   Queue, Queue.Refine: src/queue.c, and a queue without an array.
--   Sched: src/sched.c; Sched.Init and Sched.Holds on init_scheduler, Sched.Ready and Sched.Holds
--     on adding processes, Sched.Dispatch on get_proc; Sched.Single: its branch without MLQ_SCHED.
--   Cpu, Cpu.Steps: run of src/cpu.c, its switch as execute, and the program counter.
--   Timer: src/timer.c, as a step relation over the flags of the devices; Timer.Invariant and the
--     modules beside it, with Timer.Lockstep on time slots, Timer.Progress and Timer.Round, Timer.New
--     on its start and Timer.Keeps on what its thread leaves alone.
--   Scan, Scan.Decimal: the conversions of fscanf that the program uses, and numbers as text.
--   Loader: src/loader.c; Loader.RoundTrip on files that are written, Loader.Files on others.
--   Os: cpu_routine and ld_routine of src/os.c, one round at a time; Os.System: all threads and what
--     main sets up; Os.Kept and Os.Idle on every order of the rounds, Os.Rounds and Os.Quantum on the
--     turn of a process, Os.Loading on a line of the loader, Os.Lines with Os.Lines.Refine,
--     Os.Lines.Ended, Os.Lines.Queues and Os.Lines.Total on all lines; Os.Config and
--     Os.Config.RoundTrip: read_config.
--   Program: the threads of src/os.c and of src/timer.c in one step relation, with the joins of main;
--     Program.Main, Program.Main.Starts: main up to the start of its threads; Program.Main.Loads: from
--     there to the queues; Program.Parts on the program as Os and Timer, Program.Waiting and
--     Program.Returns on main, Program.GoesOn and Program.RunsOn on the next step, Program.Loading,
--     Program.Loads and Program.Ready on the loader among the other threads, Program.Slot and
--     Program.Ends on its end.
--   Legacy: src/mem.c; Legacy.Calls: alloc, free_data, read and write of src/cpu.c over it;
--     Legacy.Translation on addresses and on what the calls come to; Legacy.Run, Legacy.Reads: run of
--     src/cpu.c without MM_PAGING, and src/paging.c.
--   Samples, Samples.Booted, Samples.Finished, Samples.Busy and the modules named Tests: concrete
--     data and runs.
--
-- Undefined behaviour of C is a value: a run returns `ok` with its result, or `fault` with the kind
-- of undefined behaviour that it meets first. An `int` or `uint32_t` is its 32-bit pattern, an
-- `unsigned long` a 64-bit one. An array is a list, and an access outside it a fault. A linked list is
-- a chain of its nodes, which ends in NULL or in a pointer that must not be followed (freed, out of
-- scope or never assigned). `malloc` is taken to succeed; what it returns is an argument where the
-- program can read it. A function that changes an object returns it anew; `caller->mm` is the memory
-- in every call. What is printed is dropped, but that printing reads is kept; a function that only
-- prints returns what it prints.
--
-- Loops with a bound take that many rounds. The loops without one have fuel: the search of
-- get_free_vmrg_area, where rounds_for of Vm.Fit is enough for a positive size, and the searches of
-- get_mlq_proc, where one unit is enough for the only test that they make. The loops of threads are
-- step relations, or take a number of rounds: rounds_needed of Os.Lines is enough for the loader.
--
-- Not modelled: three of the four swap devices beyond their set-up, since no code uses them; the
-- creation of threads, which is taken to succeed; macros of include/mm.h that no function uses; the
-- text that is printed. In Os.System and in Program a round of a processor
-- or of the loader, with the call of next_slot behind it, is one step, as if it ran alone, though in
-- the code rounds of several processors run at once and share RAM and swap without a lock; Device.Race
-- takes apart the one function that hands out frames. In
-- Os.System time passes between any two rounds; in Program it passes when the timer says so. The
-- functions of <stdio.h> are a parameter of main: the bytes behind a path.
pub mod Base
pub mod Outcome
pub mod Words
pub mod Bits
pub mod Paging
pub mod Pte
pub mod Chain
pub mod Device
pub mod Mm
pub mod Vm
pub mod Page
pub mod Samples
pub mod Queue
pub mod Sched
pub mod Cpu
pub mod Timer
pub mod Scan
pub mod Loader
pub mod Os
pub mod Program
pub mod Legacy
