-- ===== src/Calls.antt =====
-- The system calls on files, directories and memory: cases of handle_syscall of kernel/kernel.c. `t1` is
-- the page table in force, through which the kernel reads and writes the program's memory.
pub mod Guarded
pub mod Spawned
pub mod Effects
use dmaos.Base.{
  signed32, add32, bit_and, ℕ, zero, suc, ◌+◌, ◌-◌, ◌*◌, ◌/◌, ◌%◌, ◌^◌, ltb, leb, ◌==◌,
  if◌then◌else◌, Bool, true, false, not, ◌&&◌, Option, none, some, List, [], ◌∷◌, ◌++◌, Bytes, take,
  length, ℤ, pos, negsuc, is_neg, pattern32, bit_and,
}
use dmaos.Machine.{Kernel, Process, M, pure, ◌>>=◌, ◌>>◌, get_state, modify, stop}
use dmaos.Machine.Consts.{page_size, max_path, err_invalid_argument, minus_one, filectrl_create}
use dmaos.Inode.{iput}
use dmaos.PageTable.{leaf, entry_addr, set_byte}
use dmaos.UserMem.{
  user_byte, user_top, validate_user_string, validate_user_write_buffer, validate_user_read_buffer,
  sbrk,
}
use dmaos.UserCopy.{user_string, store, is_pos, int_bytes}
use dmaos.Devices.{sys_putchar, sys_getchar, sys_kmesg, sys_input_poll, sys_present_framebuffer}
use dmaos.Process.{yield, exit_current_process}
use dmaos.Spawn.{spawn_process}
use dmaos.Files.{has_flag}
use dmaos.Fd.{current, set_process, fs_open, fs_create, fs_close, count_of}
use dmaos.Io.{fs_read, fs_write, fs_lseek, fs_ftruncate, bytes_out}
use dmaos.FsTree.{fs_mkdir, fs_rm, fs_stat, fs_chdir}
use dmaos.Listing.{fs_get_file_name, fs_get_file_size}
use dmaos.Normalize.{fs_normalize_path}

module _ (t1 : ℕ) where
  -- The calls that take a path and pass it on.
  unfoldable pub with_path : ℕ → (List ℕ → M ℤ) → M ℤ
  with_path path call = do
    k ← get_state
    if validate_user_string k.words t1 path
        then call (user_string k t1 path)
        else pure err_invalid_argument

  unfoldable pub sys_open : ℕ → ℕ → M ℤ
  sys_open path flags =
      with_path path
        (λ p. if has_flag flags filectrl_create then fs_create p flags else fs_open p flags)

  unfoldable pub sys_mkdir : ℕ → M ℤ
  sys_mkdir path = with_path path fs_mkdir

  unfoldable pub sys_rm : ℕ → M ℤ
  sys_rm path = with_path path fs_rm

  -- The new directory's name and inode; the reference to the old one is given back.
  unfoldable pub set_cwd : List ℕ → Option ℕ → M ℤ
  set_cwd path ip = do
    p ← current
    k ← get_state
    let new_path = fs_normalize_path (k.procs p).cwd_path path max_path
    modify (λ k. set_process p (record (k.procs p) { cwd_path = take (max_path - 1) new_path }) k)
    iput (k.procs p).cwd
    modify (λ k. set_process p (record (k.procs p) { cwd = ip }) k)
    pure (pos 0)

  unfoldable pub chdir_to : List ℕ → M ℤ
  chdir_to path = do (ret, ip) ← fs_chdir path; if is_neg ret then pure ret else set_cwd path ip

  unfoldable pub sys_chdir : ℕ → M ℤ
  sys_chdir path = with_path path chdir_to

  -- `n` bytes from `buf` on as the kernel's functions see them.
  abbrev pub user_bytes : Kernel → ℕ → Bytes
  user_bytes k buf o = user_byte k.words t1 (buf + o)

  unfoldable pub read_into : ℤ → ℕ → ℤ → M ℤ
  read_into fd buf n = do
    k ← get_state
    (r, b) ← fs_read fd (user_bytes k buf) n
    store t1 buf (bytes_out b (count_of n) 0)
    pure r

  unfoldable pub sys_read : ℤ → ℕ → ℤ → M ℤ
  sys_read fd buf n = do
    k ← get_state
    if is_pos n && validate_user_write_buffer k.words t1 buf (count_of n)
        then read_into fd buf n
        else pure err_invalid_argument

  unfoldable pub sys_write : ℤ → ℕ → ℤ → M ℤ
  sys_write fd buf n = do
    k ← get_state
    if is_pos n && not (validate_user_read_buffer k.words t1 buf (count_of n))
        then pure err_invalid_argument
        else fs_write fd (user_bytes k buf) n

  -- `*st`, where `fs_stat` sets it: the type and the size.
  unfoldable pub store_stat : ℕ → Option (ℕ × ℤ) → M (Unit {0})
  store_stat st none = pure tt
  store_stat st (some (type, size)) = store t1 st (int_bytes type ++ int_bytes (pattern32 size))

  unfoldable pub stat_into : ℕ → List ℕ → M ℤ
  stat_into st path = do (r, found) ← fs_stat path; store_stat st found; pure r

  unfoldable pub sys_stat : ℕ → ℕ → M ℤ
  sys_stat path st = do
    k ← get_state
    if validate_user_string k.words t1 path && validate_user_write_buffer k.words t1 st 8
        then stat_into st (user_string k t1 path)
        else pure err_invalid_argument

  -- The current directory's name and its NUL, if there is room.
  unfoldable pub cwd_into : ℕ → ℕ → M ℤ
  cwd_into buf size = do
    p ← current
    k ← get_state
    let name = (k.procs p).cwd_path
    if ltb (length name) size
        then (do store t1 buf (name ++ (0 ∷ [])); pure (pos 0))
        else pure minus_one

  unfoldable pub sys_getcwd : ℕ → ℤ → M ℤ
  sys_getcwd buf size = do
    k ← get_state
    if is_pos size && validate_user_write_buffer k.words t1 buf (count_of size)
        then cwd_into buf (count_of size)
        else pure err_invalid_argument

  unfoldable pub name_into : ℤ → ℕ → ℤ → M ℤ
  name_into index buf buf_len = do
    (r, bytes) ← fs_get_file_name index buf_len
    store t1 buf bytes
    pure r

  unfoldable pub sys_get_file_name : ℤ → ℕ → ℤ → M ℤ
  sys_get_file_name index buf buf_len = do
    k ← get_state
    if is_pos buf_len && validate_user_write_buffer k.words t1 buf (count_of buf_len)
        then name_into index buf buf_len
        else pure err_invalid_argument

-- A system call with its arguments. SYSCALL_SPAWN is `sys_spawn` below; SYSCALL_WAIT runs `wait_round` of
-- Process, and yields, until it is answered.
pub data Call : Type 0 where
  open_call : (path flags : ℕ) → Call
  read_call : (fd : ℤ) (buf : ℕ) (n : ℤ) → Call
  write_call : (fd : ℤ) (buf : ℕ) (n : ℤ) → Call
  close_call : (fd : ℤ) → Call
  ftruncate_call : (fd length : ℤ) → Call
  lseek_call : (fd offset whence : ℤ) → Call
  stat_call : (path st : ℕ) → Call
  chdir_call : (path : ℕ) → Call
  getcwd_call : (buf : ℕ) (size : ℤ) → Call
  mkdir_call : (path : ℕ) → Call
  rm_call : (path : ℕ) → Call
  get_file_name_call : (index : ℤ) (buf : ℕ) (buf_len : ℤ) → Call
  get_file_size_call : (index : ℤ) → Call
  sbrk_call : (increment : ℤ) → Call
  putchar_call : (ch : ℕ) → Call
  getchar_call : Call
  yield_call : (a0 : ℕ) → Call
  exit_call : (code : ℤ) → Call
  kmesg_call : (buf : ℕ) (limit : ℤ) → Call
  input_poll_call : (codeptr pressedptr : ℕ) → Call
  present_framebuffer_call : (user_fb width height : ℕ) → Call
  unknown_call : Call

-- What the call leaves in `a0`; an exit does not come back, since the process that yields has ended.
unfoldable pub handle_syscall : ℕ → ℕ → Call → M ℤ
handle_syscall free_ram t1 (open_call path flags) = sys_open t1 path flags
handle_syscall free_ram t1 (read_call fd buf n) = sys_read t1 fd buf n
handle_syscall free_ram t1 (write_call fd buf n) = sys_write t1 fd buf n
handle_syscall free_ram t1 (close_call fd) = fs_close fd
handle_syscall free_ram t1 (ftruncate_call fd length) = fs_ftruncate fd length
handle_syscall free_ram t1 (lseek_call fd offset whence) = fs_lseek fd offset whence
handle_syscall free_ram t1 (stat_call path st) = sys_stat t1 path st
handle_syscall free_ram t1 (chdir_call path) = sys_chdir t1 path
handle_syscall free_ram t1 (getcwd_call buf size) = sys_getcwd t1 buf size
handle_syscall free_ram t1 (mkdir_call path) = sys_mkdir t1 path
handle_syscall free_ram t1 (rm_call path) = sys_rm t1 path
handle_syscall free_ram t1 (get_file_name_call index buf buf_len) =
    sys_get_file_name t1 index buf buf_len
handle_syscall free_ram t1 (get_file_size_call index) = fs_get_file_size index
handle_syscall free_ram t1 (sbrk_call increment) = sbrk free_ram increment
handle_syscall free_ram t1 (putchar_call ch) = sys_putchar ch
handle_syscall free_ram t1 getchar_call = sys_getchar
handle_syscall free_ram t1 (yield_call a0) = do yield; pure (signed32 a0)
handle_syscall free_ram t1 (exit_call code) = do exit_current_process code; yield; pure code
handle_syscall free_ram t1 (kmesg_call buf limit) = sys_kmesg t1 buf limit
handle_syscall free_ram t1 (input_poll_call codeptr pressedptr) =
    sys_input_poll t1 codeptr pressedptr
handle_syscall free_ram t1 (present_framebuffer_call user_fb width height) =
    sys_present_framebuffer t1 user_fb width height
handle_syscall free_ram t1 unknown_call = stop

-- `SCAUSE_ECALL` and `SSTATUS_SPP`.
abbrev pub scause_ecall : ℕ
scause_ecall = 8

abbrev pub sstatus_spp : ℕ
sstatus_spp = 256

-- A trap: a system call, a fault of a program, which ends that process, or one of the kernel, PANIC. The
-- result is the address at which the program that was interrupted goes on.
unfoldable pub handle_trap : ℕ → ℕ → ℕ → ℕ → ℕ → Call → M ℕ
handle_trap free_ram t1 scause sstatus user_pc call =
    let crash = (do exit_current_process (pos 1); yield; pure user_pc) in
    let serve = (do handle_syscall free_ram t1 call; pure (add32 user_pc 4)) in
    if scause == scause_ecall
    then serve
    else if bit_and sstatus sstatus_spp == 0
    then crash
    else stop

-- SYSCALL_SPAWN; `kernel_base` is the linker's.
unfoldable pub sys_spawn : ℕ → ℕ → ℕ → ℕ → M ℤ
sys_spawn free_ram kernel_base t1 cmdline = do
  k ← get_state
  if validate_user_string k.words t1 cmdline
      then spawn_process free_ram kernel_base (user_string k t1 cmdline)
      else pure minus_one
