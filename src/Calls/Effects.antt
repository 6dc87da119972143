-- ===== src/Calls/Effects.antt =====
-- What a system call on files and directories leaves of the references, kernel/kernel.c.
use dmaos.Base.{bit_and, ℕ, ◌≡◌, Bool, length, ◌==◌, ℤ, pos, [], ◌∷◌}
use dmaos.Machine.{Kernel, ok, ◌>>=◌}
use dmaos.Machine.Post.{returned, panicked, bind, either, result}
use dmaos.Tables.Tree.{fs_mkdir-Leaves, fs_rm-Leaves}
use dmaos.FsTree.Uses.{fs_mkdir-Uses, fs_rm-Uses}
use dmaos.Process.{yield, exit_current_process, wait_round}
use dmaos.Holders.{IsSound, none_held, sound}
use dmaos.Holders.Fd.{fs_close-IsSound}
use dmaos.Holders.Io.{fs_lseek-IsSound, fs_ftruncate-IsSound}
use dmaos.Holders.Exit.{yield-IsSound, exit_current_process-IsSound, wait_round-IsSound}
use dmaos.Holders.Memory.{sbrk-IsSound}
use dmaos.Listing.Uses.{fs_get_file_size-Uses, fs_get_file_size-Leaves}
use dmaos.UserCopy.Effects.{Guards, store-Guards}
use dmaos.UserCopy.{store}
use dmaos.Io.{get_byte}
use dmaos.Holders.Io.{get_byte-Guards}
use dmaos.Calls.Spawned.{FreeNamesNone, sys_spawn-SoundIf}
use dmaos.Devices.Effects.{
  sys_putchar-Guards, sys_getchar-Guards, sys_kmesg-Guards, sys_input_poll-Guards,
  sys_present_framebuffer-Guards,
}
use dmaos.Calls.Guarded.{
  with_path-Guards, sys_open-Guards, chdir_to-Guards, sys_read-Guards, sys_write-Guards,
  sys_stat-Guards, sys_getcwd-Guards, sys_get_file_name-Guards,
}
use dmaos.Calls.{
  putchar_call, getchar_call, yield_call, kmesg_call, input_poll_call, present_framebuffer_call,
  exit_call, unknown_call, sys_spawn, handle_trap, scause_ecall, sstatus_spp, get_file_name_call,
  get_file_size_call, sbrk_call, Call, open_call, read_call, write_call, close_call, ftruncate_call,
  lseek_call, stat_call, chdir_call, getcwd_call, mkdir_call, rm_call, handle_syscall, sys_chdir,
  sys_mkdir, sys_rm,
}

module _ (t1 : ℕ) where
  handle_syscall-Guards : (free_ram : ℕ) (call : Call) → Guards (handle_syscall free_ram t1 call)
  unfolding handle_syscall sys_mkdir sys_rm sys_chdir
  handle_syscall-Guards free_ram (open_call path flags) = sys_open-Guards t1 path flags
  handle_syscall-Guards free_ram (read_call fd buf n) = sys_read-Guards t1 fd buf n
  handle_syscall-Guards free_ram (write_call fd buf n) = sys_write-Guards t1 fd buf n
  handle_syscall-Guards free_ram (close_call fd) = fs_close-IsSound fd
  handle_syscall-Guards free_ram (ftruncate_call fd length) = fs_ftruncate-IsSound fd length
  handle_syscall-Guards free_ram (lseek_call fd offset whence) = fs_lseek-IsSound fd offset whence
  handle_syscall-Guards free_ram (stat_call path st) = sys_stat-Guards t1 path st
  handle_syscall-Guards free_ram (chdir_call path) = with_path-Guards t1 path _ (chdir_to-Guards t1)
  handle_syscall-Guards free_ram (getcwd_call buf size) = sys_getcwd-Guards t1 buf size
  handle_syscall-Guards free_ram (mkdir_call path) =
      with_path-Guards t1 path _ (λ p k s. sound (fs_mkdir-Uses p none_held) (fs_mkdir-Leaves p) s)
  handle_syscall-Guards free_ram (rm_call path) =
      with_path-Guards t1 path _ (λ p k s. sound (fs_rm-Uses p none_held) (fs_rm-Leaves p) s)
  handle_syscall-Guards free_ram (get_file_name_call index buf buf_len) =
      sys_get_file_name-Guards t1 index buf buf_len
  handle_syscall-Guards free_ram (get_file_size_call index) =
      λ k s. sound (fs_get_file_size-Uses index none_held) (fs_get_file_size-Leaves index) s
  handle_syscall-Guards free_ram (sbrk_call increment) = sbrk-IsSound free_ram increment
  handle_syscall-Guards free_ram (putchar_call ch) = sys_putchar-Guards ch
  handle_syscall-Guards free_ram getchar_call = sys_getchar-Guards
  handle_syscall-Guards free_ram (yield_call a0) =
      λ k s. bind (yield-IsSound k s) (λ _ k' s'. returned s')
  handle_syscall-Guards free_ram (exit_call code) = λ k s.
      bind (exit_current_process-IsSound code k s)
        (λ _ k1 s1. bind (yield-IsSound k1 s1) (λ _ k2 s2. returned s2))
  handle_syscall-Guards free_ram unknown_call = λ k s. panicked
  handle_syscall-Guards free_ram (kmesg_call buf limit) = sys_kmesg-Guards t1 buf limit
  handle_syscall-Guards free_ram (input_poll_call codeptr pressedptr) =
      sys_input_poll-Guards t1 codeptr pressedptr
  handle_syscall-Guards free_ram (present_framebuffer_call user_fb width height) =
      sys_present_framebuffer-Guards t1 user_fb width height

  handle_trap-Guards :
      (free_ram scause sstatus user_pc : ℕ) (call : Call)
      → Guards (handle_trap free_ram t1 scause sstatus user_pc call)
  unfolding handle_trap
  handle_trap-Guards free_ram scause sstatus user_pc call k s =
      either (scause == scause_ecall) _ _
        (bind (handle_syscall-Guards free_ram call k s) (λ _ k' s'. returned s'))
        (either (bit_and sstatus sstatus_spp == 0) _ _
          (bind (exit_current_process-IsSound (pos 1) k s)
            (λ _ k1 s1. bind (yield-IsSound k1 s1) (λ _ k2 s2. returned s2)))
          panicked)

module _ (free_ram : ℕ) where
  -- One step of the kernel: a system call, a trap, a spawn that succeeds while no free slot names a current
  -- directory, a byte of a console read that waits and so yields between its bytes, the end of a process,
  -- the choice of the next one, or a round of waiting for one.
  pub data Step (k k' : Kernel) : Type 0 where
    called :
        (t1 : ℕ) (call : Call) {r : ℤ} → handle_syscall free_ram t1 call k ≡ ok r k' → Step k k'
    trapped :
        (t1 scause sstatus user_pc : ℕ) (call : Call) {pc : ℕ}
        → handle_trap free_ram t1 scause sstatus user_pc call k ≡ ok pc k'
        → Step k k'
    spawned :
        (kernel_base t1 cmdline : ℕ) {pid : ℕ}
        → FreeNamesNone k
        → sys_spawn free_ram kernel_base t1 cmdline k ≡ ok (pos pid) k'
        → Step k k'
    typed :
        (t1 buf : ℕ) {r : Unit {0}}
        → (get_byte >>= λ c. store t1 buf (c ∷ [])) k ≡ ok r k'
        → Step k k'
    ended : (code : ℤ) {r : Unit {0}} → exit_current_process code k ≡ ok r k' → Step k k'
    yielded : {r : Unit {0}} → yield k ≡ ok r k' → Step k k'
    reaped : (pid : ℤ) {r : Bool} → wait_round free_ram pid k ≡ ok r k' → Step k k'

  pub data Steps (k : Kernel) : Kernel → Type 0 where
    start : Steps k k
    one_more : {k1 k2 : Kernel} → Steps k k1 → Step k1 k2 → Steps k k2

  Step-IsSound : {k k' : Kernel} → Step k k' → IsSound none_held k → IsSound none_held k'
  Step-IsSound {k} (called t1 call h) s = result (handle_syscall-Guards t1 free_ram call k s) h
  Step-IsSound {k} (trapped t1 scause sstatus user_pc call h) s =
      result (handle_trap-Guards t1 free_ram scause sstatus user_pc call k s) h
  Step-IsSound {k} (spawned kernel_base t1 cmdline free h) s =
      result (sys_spawn-SoundIf free_ram kernel_base t1 cmdline k s free) h
  Step-IsSound {k} (typed t1 buf h) s =
      result (bind (get_byte-Guards k s) (λ c k1 s1. store-Guards t1 buf (c ∷ []) k1 s1)) h
  Step-IsSound {k} (ended code h) s = result (exit_current_process-IsSound code k s) h
  Step-IsSound {k} (yielded h) s = result (yield-IsSound k s) h
  Step-IsSound {k} (reaped pid h) s = result (wait_round-IsSound free_ram pid k s) h

  -- In every state that a sound one leads to by system calls, traps, ends of processes, switches and waiting,
  -- the references counted for each slot of the inode cache are again those of the open files and the
  -- current directories; none is lost and none is counted twice. Of the system calls, a spawn counts as a
  -- step only if it succeeds and no free slot of the process table names a current directory before it, as
  -- one does after a spawn that failed.
  pub Steps-IsSound : {k k' : Kernel} → Steps k k' → IsSound none_held k → IsSound none_held k'
  Steps-IsSound start s = s
  Steps-IsSound (one_more steps last) s = Step-IsSound last (Steps-IsSound steps s)
