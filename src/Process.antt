-- ===== src/Process.antt =====
-- Processes: exit, the release of a process, the choice of the next one, wait, and the words of a
-- command line, of kernel/process.c. A process is its slot in `procs`.
pub mod Yield
pub mod Args
use dmaos.Base.{
  ℕ, zero, suc, ◌+◌, ◌%◌, ◌==◌, ltb, if◌then◌else◌, Bool, true, false, not, ◌&&◌, Option, none,
  some, List, [], ◌∷◌, ℤ, pos, negsuc, take,
}
use dmaos.Machine.{
  Kernel, Process, ProcState, unused, runnable, exited, M, pure, stop, ◌>>=◌, ◌>>◌, get_state,
  modify,
}
use dmaos.Machine.Consts.{procs_max, num_files_per_process, minus_one}
use dmaos.Inode.{iput}
use dmaos.Files.{file_close}
use dmaos.Fd.{current, set_process, set_ofile}
use dmaos.Page.{free_pages}
use dmaos.PageTable.{free_tables}

abbrev pub is_runnable : ProcState → Bool
is_runnable unused = false
is_runnable runnable = true
is_runnable exited = false

abbrev pub is_unused : ProcState → Bool
is_unused unused = true
is_unused runnable = false
is_unused exited = false

abbrev pub is_exited : ProcState → Bool
is_exited unused = false
is_exited runnable = false
is_exited exited = true

-- `proc->state == PROCSTATE_RUNNABLE && proc->pid > 0`.
abbrev pub can_run : Process → Bool
can_run v = is_runnable v.state && ltb 0 v.pid

-- `&procs[(current_proc->pid + i) % PROCS_MAX]`.
abbrev pub turn : ℕ → ℕ → ℕ
turn pid i = (pid + i) % procs_max

-- The loop of `yield`: the first slot that can run, in turn after the current process.
unfoldable pub pick : (ℕ → Process) → ℕ → ℕ → ℕ → Option ℕ
pick procs pid zero i = none
pick procs pid (suc rounds) i =
    let rest = pick procs pid rounds (i + 1) in
    if can_run (procs (turn pid i)) then some (turn pid i) else rest

-- The switch of contexts, as far as the static data see it. There is always an idle process.
unfoldable pub switch_to : ℕ → Option ℕ → M (Unit {0})
switch_to p none = stop
switch_to p (some next) =
    if next == p then pure tt else modify (λ k. record k { current_proc = some next })

-- The process found, or else the idle process.
unfoldable pub or_idle : Option ℕ → Option ℕ → Option ℕ
or_idle (some next) idle = some next
or_idle none idle = idle

unfoldable pub yield : M (Unit {0})
yield = do
  p ← current
  k ← get_state
  switch_to p (or_idle (pick k.procs (k.procs p).pid procs_max 0) k.idle_proc)

unfoldable pub exit_current_process : ℤ → M (Unit {0})
exit_current_process exit_code = do
  p ← current
  k ← get_state
  modify (set_process p (record (k.procs p) { state = exited; exit_code = exit_code }))

unfoldable pub drop_cwd : ℕ → Option ℕ → M (Unit {0})
drop_cwd p none = pure tt
drop_cwd p (some ip) = do
  iput (some ip)
  modify (λ k. set_process p (record (k.procs p) { cwd = none }) k)

unfoldable pub drop_file : ℕ → ℕ → Option ℕ → M (Unit {0})
drop_file p fd none = pure tt
drop_file p fd (some f) = do file_close (some f); modify (set_ofile p fd none)

unfoldable pub drop_files : ℕ → ℕ → ℕ → M (Unit {0})
drop_files p zero fd = pure tt
drop_files p (suc rounds) fd = do
  k ← get_state
  drop_file p fd ((k.procs p).ofile fd)
  drop_files p rounds (fd + 1)

-- The first of the `rounds` slots from `i` on with a process of that PID.
abbrev pub has_pid : ℤ → Process → Bool
has_pid (pos n) v = v.pid == n
has_pid (negsuc n) v = false

unfoldable pub find_pid : (ℕ → Process) → ℤ → ℕ → ℕ → Option ℕ
find_pid procs pid zero i = none
find_pid procs pid (suc rounds) i =
    let rest = find_pid procs pid rounds (i + 1) in
    if not (is_unused (procs i).state) && has_pid pid (procs i) then some i else rest

module _ (free_ram : ℕ) where
  unfoldable pub free_space : ℕ → ℕ → M (Unit {0})
  free_space p t1 =
      let release = do
        free_tables free_ram t1 1024 0
        free_pages free_ram t1 1
        modify (λ k. set_process p (record (k.procs p) { page_table = 0 }) k)
      in if t1 == 0 then pure tt else release

  unfoldable pub free_process_pages : ℕ → M (Unit {0})
  free_process_pages p = do
    k ← get_state
    drop_cwd p (k.procs p).cwd
    drop_files p num_files_per_process 0
    k ← get_state
    free_space p (k.procs p).page_table

  -- The process is gone, or has exited and is released; otherwise it is still waited for.
  unfoldable pub reap : Option ℕ → M Bool
  reap none = pure true
  reap (some p) = do
    k ← get_state
    let release = do
      free_process_pages p
      modify (λ k. set_process p (record (k.procs p) { state = unused }) k)
      pure true
    if is_exited (k.procs p).state then release else pure false

  -- One round of the loop of `wait_process`, up to its `yield`; true if the call returns 0.
  unfoldable pub wait_round : ℤ → M Bool
  wait_round pid = do k ← get_state; reap (find_pid k.procs pid procs_max 0)

abbrev pub space : ℕ
space = b' '

unfoldable pub skip_spaces : List ℕ → List ℕ
skip_spaces [] = []
skip_spaces (c ∷ p) = if c == space then skip_spaces p else c ∷ p

-- The bytes up to the next space, and what follows that space.
unfoldable pub word : List ℕ → List ℕ
word [] = []
word (c ∷ p) = if c == space then [] else c ∷ word p

unfoldable pub after_word : List ℕ → List ℕ
after_word [] = []
after_word (c ∷ p) = if c == space then p else after_word p

-- One round, on the line from the next word on; the rounds that follow take what is left.
unfoldable pub next_arg : (List ℕ → List (List ℕ)) → List ℕ → List (List ℕ)
next_arg rest [] = []
next_arg rest (c ∷ p) = word (c ∷ p) ∷ rest (after_word (c ∷ p))

-- The loop of `spawn_process`, on what is left of `cmd`.
unfoldable pub args_of : ℕ → List ℕ → List (List ℕ)
args_of zero p = []
args_of (suc rounds) p = next_arg (λ q. args_of rounds q) (skip_spaces p)

-- `argv`, of the first 127 bytes of the command line.
unfoldable pub argv_of : List ℕ → List (List ℕ)
argv_of cmdline = args_of 16 (take 127 cmdline)
