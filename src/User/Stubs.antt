-- ===== src/User/Stubs.antt =====
-- The calls on files and directories, on memory and on processes, and the stubs that newlib asks for,
-- of user/lib/user.c. `path`, `buf` and the like are addresses.
use dmaos.Base.{
  ℕ, zero, ◌+◌, ◌==◌, if◌then◌else◌, Bool, ◌||◌, false, Option, none, some, [], ◌∷◌, bit_or, get32,
  ltb, ℤ, pos, negsuc, is_neg, signed32, pattern32,
}
use dmaos.Machine.Consts.{minus_one, ft_directory}
use dmaos.User.{Newlib, Termios, kernel_flags}
use dmaos.User.Outside.{P, pure, ◌>>=◌, syscall, fail, set_error, checked}

-- `fd >= 0 && fd <= 2`.
abbrev pub is_standard : ℤ → Bool
is_standard (pos n) = ltb n 3
is_standard (negsuc _) = false

-- The fields of newlib's `struct stat` that the library sets.
pub record Stat : Type 0 where
  pub st_size : ℤ
  pub st_mode : ℕ

-- What `arg` of an ioctl points to.
pub record IoctlArg : Type 0 where
  pub termios : Termios
  pub ws_row : ℕ
  pub ws_col : ℕ

-- A call that passes the kernel's answer on.
unfoldable pub spawn : ℕ → P ℤ
spawn name = syscall 10 (name ∷ [])

unfoldable pub wait : ℤ → P ℤ
wait pid = syscall 11 (pattern32 pid ∷ [])

unfoldable pub user_kmesg : ℕ → ℤ → P ℤ
user_kmesg buf buf_len = syscall 13 (buf ∷ pattern32 buf_len ∷ [])

unfoldable pub ftruncate : ℤ → ℤ → P ℤ
ftruncate fd length = syscall 20 (pattern32 fd ∷ pattern32 length ∷ [])

unfoldable pub getpid : P ℤ
getpid = pure (pos 1)

unfoldable pub isatty : ℤ → P ℤ
isatty fd = pure (if is_standard fd then pos 1 else pos 0)

abbrev pub is_tcset : ℕ → Bool
is_tcset request = (request == 0x5402) || ((request == 0x5403) || (request == 0x5404))

abbrev pub set_termios : Termios → P (Unit {0})
set_termios termios s o = pure tt (record s { stdin_termios = termios }) o

module _ (libc : Newlib) where
  unfoldable pub close : ℤ → P ℤ
  close fd = checked libc 7 (pattern32 fd ∷ [])

  unfoldable pub lseek : ℤ → ℤ → ℤ → P ℤ
  lseek fd ptr dir = checked libc 21 (pattern32 fd ∷ pattern32 ptr ∷ pattern32 dir ∷ [])

  unfoldable pub open_path : ℕ → ℕ → P ℤ
  open_path path flags = checked libc 4 (path ∷ kernel_flags libc flags ∷ [])

  unfoldable pub unlink : ℕ → P ℤ
  unlink path = checked libc 18 (path ∷ [])

  unfoldable pub user_sbrk : ℤ → P ℤ
  user_sbrk incr = checked libc 19 (pattern32 incr ∷ [])

  unfoldable pub chdir : ℕ → P ℤ
  chdir path = checked libc 15 (path ∷ [])

  unfoldable pub mkdir : ℕ → ℕ → P ℤ
  mkdir path mode = checked libc 17 (path ∷ mode ∷ [])

  unfoldable pub framebuffer_present : ℕ → ℕ → ℕ → P ℤ
  framebuffer_present framebuffer width height = checked libc 22 (framebuffer ∷ width ∷ height ∷ [])

  unfoldable pub input_poll : ℕ → ℕ → P ℤ
  input_poll code pressed = checked libc 23 (code ∷ pressed ∷ [])

  -- `_fork`, `_execve`, `_kill` and `_link`.
  unfoldable pub unsupported : P ℤ
  unsupported = fail (libc.enosys)

  -- The result, and `*st` if it is set.
  abbrev pub stat_result : ℤ → ℤ → ℕ → P (ℤ × Option Stat)
  stat_result ret size mode =
      if is_neg ret
      then (do _ ← set_error libc ret; pure (minus_one, none))
      else pure (pos 0, some (record { st_size = size; st_mode = mode }))

  -- The kernel takes `fd` for an index into the root directory.
  unfoldable pub fstat : ℤ → P (ℤ × Option Stat)
  fstat fd = do
    size ← syscall 9 (pattern32 fd ∷ [])
    stat_result size size
        (if is_standard fd then bit_or (libc.s_ifchr) 0o666 else bit_or (libc.s_ifreg) 0o644)

  -- `kst` is where the kernel's answer stands on the stack: the type, then the size.
  unfoldable pub stat : ℕ → ℕ → P (ℤ × Option Stat)
  stat kst path = do
    ret ← syscall 14 (path ∷ kst ∷ [])
    o ← (λ s o. pure o.memory s o)
    stat_result ret (signed32 (get32 o (kst + 4))) (
        if get32 o kst == ft_directory
        then bit_or (libc.s_ifdir) 0o755
        else bit_or (libc.s_ifreg) 0o644)

  -- NULL is none.
  unfoldable pub cwd_result : ℤ → ℕ → P (Option ℕ)
  cwd_result ret buf =
      if is_neg ret then (do _ ← set_error libc ret; pure none) else pure (some buf)

  -- The address returned.
  unfoldable pub getcwd : ℕ → ℕ → P (Option ℕ)
  getcwd buf size = do ret ← syscall 16 (buf ∷ size ∷ []); cwd_result ret buf

  -- TIOCGWINSZ, and what other requests end in.
  unfoldable pub window_ioctl : ℕ → IoctlArg → P (ℤ × IoctlArg)
  window_ioctl request arg =
      if request == 0x5413
      then pure (pos 0, record arg { ws_row = 24; ws_col = 80 })
      else (do r ← fail (libc.enotty); pure (r, arg))

  unfoldable pub ioctl : ℤ → ℕ → IoctlArg → P (ℤ × IoctlArg)
  ioctl (pos zero) request arg s o =
      if request == 0x5401
      then pure (pos 0, record arg { termios = s.stdin_termios }) s o
      else if is_tcset request
      then (do _ ← set_termios (arg.termios); pure (pos 0, arg)) s o
      else window_ioctl request arg s o
  ioctl _ request arg s o = window_ioctl request arg s o
