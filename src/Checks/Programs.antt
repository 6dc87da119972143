-- ===== src/Checks/Programs.antt =====
-- Processes, command lines and user buffers, of kernel/process.c and kernel/kernel.c, on small machines.
use dmaos.Base.{
  ℕ, ◌+◌, ◌≡◌, ◌<◌, ◌⊎◌, ◌↔◌, ◌==◌, refl, if◌then◌else◌, true, false, some, List, [], ◌∷◌, arith,
}
use dmaos.Machine.{Kernel, Process, runnable, ok}
use dmaos.Fd.{current}
use dmaos.Process.{pick, switch_to, or_idle, yield, argv_of}
use dmaos.Process.Yield.{IsNumbered, turns_before, yield-turns_before}
use dmaos.Process.Args.{joined, AreWords, argv_of-joined}
use dmaos.UserMem.{validate_user_write_buffer, validate_user_read_buffer}
use dmaos.UserMem.Valid.{Accessible, validate_user-Accessible}
use dmaos.Checks.{machine, no_process}

-- The process of a slot that runs a program.
abbrev program : ℕ → Process
program s = record no_process { pid = s + 1; state = runnable }

abbrev table : ℕ → Process
table s = if s == 1 then program 1 else if s == 2 then program 2 else no_process

-- The process in slot 1 is running.
abbrev running : Kernel
running = record machine { procs = table; current_proc = some 1; idle_proc = some 0 }

abbrev after : Kernel
after = record running { current_proc = some 2 }

after-yield : yield running ≡ ok tt after
unfolding yield current pick switch_to or_idle
after-yield = refl

table-IsNumbered : IsNumbered table
table-IsNumbered s h = ground arith

yield-turns_before_example :
    (after.current_proc ≡ some 1)
    ⊎ ((q : ℕ) × (after.current_proc ≡ some q) × (turns_before (table q).pid 1 < turns_before 2 1))
yield-turns_before_example =
    yield-turns_before running 1 1 refl table-IsNumbered (omega arith) refl after-yield

abbrev two_words : List (List ℕ)
two_words = (b'l' ∷ b's' ∷ []) ∷ (b'/' ∷ []) ∷ []

two_words-AreWords : AreWords two_words
two_words-AreWords = ((ground arith, (ground arith, tt)), ((ground arith, tt), tt))

argv_of-joined_example : argv_of (joined two_words) ≡ two_words
argv_of-joined_example = argv_of-joined two_words two_words-AreWords (omega arith) (omega arith)

validate_user-Accessible_example :
    ((validate_user_write_buffer machine.words 0x80400000 0x1000010 64 ≡ true)
      ↔ Accessible machine.words 0x80400000 true 0x1000010 64)
    × ((validate_user_read_buffer machine.words 0x80400000 0x1000010 64 ≡ true)
        ↔ Accessible machine.words 0x80400000 false 0x1000010 64)
validate_user-Accessible_example =
    validate_user-Accessible machine.words 0x80400000 0x1000010 64 (omega arith) (omega arith)
      (omega arith)
