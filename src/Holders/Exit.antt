-- ===== src/Holders/Exit.antt =====
-- The references behind yield, exit, the release of a process and wait, of kernel/process.c.
use dmaos.Base.{
  ℕ, zero, suc, not, ◌&&◌, ◌+◌, ◌<◌, ◌≡◌, refl, ap, subst, inl, inr, Bool-cases, Option, none, some,
  arith, ℤ, ◌==◌,
}
use dmaos.Machine.{Kernel, Process}
use dmaos.Machine.Consts.{global_open_file_limit, procs_max, num_files_per_process}
use dmaos.Machine.Post.{Post, either, returned, panicked, bind}
use dmaos.Inode.Cache.{one}
use dmaos.Inode.Uses.{Held}
use dmaos.Process.{
  pick, switch_to, or_idle, yield, exit_current_process, drop_cwd, drop_file, drop_files, find_pid,
  free_space, free_process_pages, reap, wait_round, is_exited, is_unused, has_pid,
}
use dmaos.Process.Yield.{pick-some}
use dmaos.Holders.{owned-current, IsSound, set_process-IsSound, iput-IsOff, sound}
use dmaos.Holders.Files.{file_close-IsSound}
use dmaos.Holders.Memory.{
  same_process, free_pages-Leaves, free_pages-Keeps, free_tables-Leaves, free_tables-Keeps,
}
use dmaos.Holders.Fd.{current-IsSound, set_ofile-IsSound}

-- Another process of the table runs.
set_current-IsSound :
    {c : Held} (next : ℕ) (k : Kernel)
    → next < procs_max
    → IsSound c k
    → IsSound c (record k { current_proc = some next })
set_current-IsSound {c} next k lt s = record {
  accounts = λ i. let x = s.accounts i in let y = owned-current next k i in omega arith;
  running = λ p e. let same : next ≡ p = cc in subst (λ x. x < procs_max) same lt;
  idle = s.idle;
  opened = s.opened;
}

pub exit_current_process-IsSound :
    {c : Held} (code : ℤ) (k : Kernel)
    → IsSound c k
    → Post (λ _ k'. IsSound c k') (exit_current_process code k)
unfolding exit_current_process
exit_current_process-IsSound code k s =
    bind (current-IsSound k s) (λ p k' (s', lp, _). returned (same_process p _ k' lp refl refl s'))

drop_cwd-IsSound :
    {c : Held} (p : ℕ) (ip : Option ℕ) (k : Kernel)
    → p < procs_max
    → (k.procs p).cwd ≡ ip
    → IsSound c k
    → Post (λ _ k'. IsSound c k') (drop_cwd p ip k)
unfolding drop_cwd
drop_cwd-IsSound p none k lp e s = returned s
drop_cwd-IsSound p (some ip) k lp e s = bind (iput-IsOff (some ip) s) (λ _ k' (off, (_, y, _, _)).
    let was : (k'.procs p).cwd ≡ some ip = rw y e in
    returned (
      set_process-IsSound p (record (k'.procs p) { cwd = none }) lp
        (λ i. let x = ap (λ o. one o i) was in omega arith) (λ fd f l d. off.opened p fd f lp l d)
        off))

drop_file-IsSound :
    {c : Held} (p fd : ℕ) (f : Option ℕ) (k : Kernel)
    → p < procs_max
    → ((j : ℕ) → f ≡ some j → j < global_open_file_limit)
    → IsSound c k
    → Post (λ _ k'. IsSound c k') (drop_file p fd f k)
unfolding drop_file
drop_file-IsSound p fd none k lp below s = returned s
drop_file-IsSound p fd (some f) k lp below s =
    bind (file_close-IsSound f k (below f refl) s)
      (λ _ k' s'. returned (set_ofile-IsSound p fd none k' lp (λ j e. cc) s'))

drop_files-IsSound :
    {c : Held} (p rounds fd : ℕ) (k : Kernel)
    → p < procs_max
    → fd + rounds ≡ num_files_per_process
    → IsSound c k
    → Post (λ _ k'. IsSound c k') (drop_files p rounds fd k)
unfolding drop_files
drop_files-IsSound p zero fd k lp all s = returned s
drop_files-IsSound p (suc rounds) fd k lp all s =
    bind (drop_file-IsSound p fd _ k lp (λ j e. s.opened p fd j lp (omega arith) e) s)
      (λ _ k' s'. drop_files-IsSound p rounds (fd + 1) k' lp (omega arith) s')

find_pid-below :
    (procs : ℕ → Process) (pid : ℤ) (rounds i : ℕ) {p : ℕ}
    → find_pid procs pid rounds i ≡ some p
    → p < i + rounds
unfolding find_pid
find_pid-below procs pid zero i h = cc
find_pid-below procs pid (suc rounds) i {p} h =
    elim (Bool-cases (not (is_unused (procs i).state) && has_pid pid (procs i))) [
      | inl e ↦ let h' = rw e at h in let same : i ≡ p = cc in omega arith
      | inr e ↦ let ih = find_pid-below procs pid rounds (i + 1) (rw e at h) in omega arith
    ]

switch_to-IsSound :
    {c : Held} (p : ℕ) (next : Option ℕ) (k : Kernel)
    → ((j : ℕ) → next ≡ some j → j < procs_max)
    → IsSound c k
    → Post (λ _ k'. IsSound c k') (switch_to p next k)
unfolding switch_to
switch_to-IsSound p none k below s = panicked
switch_to-IsSound p (some next) k below s =
    either (next == p) _ _ (returned s) (returned (set_current-IsSound next k (below next refl) s))

-- The process that `yield` turns to is in the table.
next-below :
    {c : Held} (k : Kernel) (pid : ℕ) (o : Option ℕ)
    → pick k.procs pid procs_max 0 ≡ o
    → IsSound c k
    → (j : ℕ) → or_idle o k.idle_proc ≡ some j
    → j < procs_max
unfolding or_idle
next-below k pid none e s j h = s.idle j h
next-below k pid (some n) e s j h =
    let (d, _, _, at, _, _) = pick-some k.procs pid procs_max 0 n e in
    let same : n ≡ j = cc in omega arith

pub yield-IsSound : {c : Held} (k : Kernel) → IsSound c k → Post (λ _ k'. IsSound c k') (yield k)
unfolding yield
yield-IsSound k s =
    bind (current-IsSound k s)
      (λ p k' (s', lp, _). switch_to-IsSound p _ k' (λ j e. next-below k' _ _ refl s' j e) s')

module _ (free_ram : ℕ) where
  free_space-IsSound :
      {c : Held} (p t : ℕ) (k : Kernel)
      → p < procs_max
      → IsSound c k
      → Post (λ _ k'. IsSound c k') (free_space free_ram p t k)
  unfolding free_space
  free_space-IsSound p t k lp s = either (t == 0) _ _ (returned s) (
      bind
        (sound ((free_tables-Keeps free_ram t 1024 0).all _) (free_tables-Leaves free_ram t 1024 0)
          s)
        (λ _ k1 s1.
          bind (sound ((free_pages-Keeps free_ram t 1).all _) (free_pages-Leaves free_ram t 1) s1)
            (λ _ k2 s2. returned (same_process p _ k2 lp refl refl s2))))

  free_process_pages-IsSound :
      {c : Held} (p : ℕ) (k : Kernel)
      → p < procs_max
      → IsSound c k
      → Post (λ _ k'. IsSound c k') (free_process_pages free_ram p k)
  unfolding free_process_pages
  free_process_pages-IsSound p k lp s = bind (drop_cwd-IsSound p _ k lp refl s) (λ _ k1 s1.
      bind (drop_files-IsSound p num_files_per_process 0 k1 lp refl s1)
        (λ _ k2 s2. free_space-IsSound p _ k2 lp s2))

  reap-IsSound :
      {c : Held} (p : Option ℕ) (k : Kernel)
      → ((j : ℕ) → p ≡ some j → j < procs_max)
      → IsSound c k
      → Post (λ _ k'. IsSound c k') (reap free_ram p k)
  unfolding reap
  reap-IsSound none k below s = returned s
  reap-IsSound (some p) k below s =
      either (is_exited (k.procs p).state) _ _
        (bind (free_process_pages-IsSound p k (below p refl) s)
          (λ _ k' s'. returned (same_process p _ k' (below p refl) refl refl s')))
        (returned s)

  pub wait_round-IsSound :
      {c : Held} (pid : ℤ) (k : Kernel)
      → IsSound c k
      → Post (λ _ k'. IsSound c k') (wait_round free_ram pid k)
  unfolding wait_round
  wait_round-IsSound pid k s = reap-IsSound _ k (λ j e. find_pid-below k.procs pid procs_max 0 e) s
