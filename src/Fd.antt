-- ===== src/Fd.antt =====
-- File descriptors of the current process: alloc_file_descriptor, fs_open, fs_create and fs_close
-- of kernel/fs.c.
use dmaos.Base.{
  ℕ, zero, suc, ◌+◌, ltb, ◌==◌, if◌then◌else◌, Bool, true, false, ◌&&◌, Option, none, some, List,
  [], ◌∷◌, upd, ℤ, pos, negsuc, is_neg,
}
use dmaos.Machine.{
  Kernel, FileDescType, fd_none, fd_inode, fd_console, Process, M, pure, stop, ◌>>=◌, ◌>>◌,
  get_state, modify,
}
use dmaos.Machine.Consts.{
  num_files_per_process, filectrl_truncate, filectrl_append, ft_file, err_bad_file,
  err_permission_denied, err_no_space, err_not_found,
}
use dmaos.Str.{strcmp, is_zero}
use dmaos.Inode.{inode_of, ilock, iput, ialloc}
use dmaos.Content.{itrunc}
use dmaos.Dir.{dirlookup, dirlink}
use dmaos.Names.{namex, namei}
use dmaos.Files.{update_file, has_flag, file_create, file_close}

-- `get_current_process()`, dereferenced.
unfoldable pub current : M ℕ
current k = elim k.current_proc [ none ↦ stop k | some p ↦ pure p k ]

abbrev pub set_process : ℕ → Process → Kernel → Kernel
set_process p v k = record k { procs = upd k.procs p v }

abbrev pub set_ofile : ℕ → ℕ → Option ℕ → Kernel → Kernel
set_ofile p fd f k = set_process p (record (k.procs p) { ofile = upd (k.procs p).ofile fd f }) k

-- The first of the `rounds` descriptors from `fd` on that is free.
unfoldable pub free_fd : (ℕ → Option ℕ) → ℕ → ℕ → Option ℕ
free_fd ofile zero fd = none
free_fd ofile (suc rounds) fd =
    let rest = free_fd ofile rounds (fd + 1) in elim (ofile fd) [ none ↦ some fd | some _ ↦ rest ]

-- Gives the file the descriptor found, or closes it again.
unfoldable pub install_at : ℕ → ℕ → Option ℕ → M ℤ
install_at p f none = do file_close (some f); pure err_no_space
install_at p f (some fd) = do modify (set_ofile p fd (some f)); pure (pos fd)

unfoldable pub install : ℕ → M ℤ
install f = do
  p ← current
  k ← get_state
  install_at p f (free_fd (k.procs p).ofile num_files_per_process 0)

-- The fields that make an open file of the inode.
unfoldable pub bind_inode : ℕ → ℕ → ℕ → M (Unit {0})
bind_inode f ip flags = do
  n ← inode_of ip
  update_file f (λ v. record v {
    ip = some ip;
    off = if has_flag flags filectrl_append then n.dinode.size else 0;
  })

unfoldable pub install_inode : ℕ → ℕ → Option ℕ → M ℤ
install_inode ip flags none = do iput (some ip); pure err_no_space
install_inode ip flags (some f) = do bind_inode f ip flags; install f

unfoldable pub alloc_file_descriptor : ℕ → ℕ → M ℤ
alloc_file_descriptor ip flags = do f ← file_create fd_inode flags; install_inode ip flags f

-- `FILECTRL_WRITEONLY | FILECTRL_CREATE | FILECTRL_TRUNCATE | FILECTRL_APPEND` and
-- `FILECTRL_WRITEONLY | FILECTRL_TRUNCATE`.
abbrev pub create_mask : ℕ
create_mask = 0x1e

abbrev pub open_mask : ℕ
open_mask = 0x0a

-- Truncates a file that is opened with FILECTRL_TRUNCATE.
unfoldable pub truncate_if_asked : ℕ → ℕ → M (Unit {0})
truncate_if_asked ip flags = do
  n ← inode_of ip
  if has_flag flags filectrl_truncate && n.dinode.type == ft_file
      then itrunc (some ip) 0
      else pure tt

-- The new inode's entry in its directory.
unfoldable pub create_link : ℕ → List ℕ → ℕ → Option ℕ → M ℤ
create_link dp name flags none = do iput (some dp); pure err_no_space
create_link dp name flags (some ip) = do
  n ← inode_of ip
  r ← dirlink dp name n.inum
  if is_neg r
      then (do iput (some ip); iput (some dp); pure err_no_space)
      else (do iput (some dp); alloc_file_descriptor ip flags)

-- A new file, or the file of that name.
unfoldable pub create_entry : ℕ → List ℕ → ℕ → Option (ℕ × ℕ) → M ℤ
create_entry dp name flags none = do
  d ← inode_of dp
  fresh ← ialloc d.dev ft_file
  create_link dp name flags fresh
create_entry dp name flags (some (ip, _)) = do
  ilock (some ip)
  truncate_if_asked ip flags
  iput (some dp)
  alloc_file_descriptor ip flags

unfoldable pub create_in : Option ℕ → List ℕ → ℕ → M ℤ
create_in none name flags = pure err_not_found
create_in (some dp) name flags = do
  d ← inode_of dp
  let find = do old ← dirlookup dp name; create_entry dp name flags old
  if d.dev == 0 && has_flag flags create_mask
      then (do iput (some dp); pure err_permission_denied)
      else find

unfoldable pub fs_create : List ℕ → ℕ → M ℤ
fs_create path flags = do (parent, file_part) ← namex path true; create_in parent file_part flags

-- "console".
abbrev pub console_name : List ℕ
console_name = b'c' ∷ b'o' ∷ b'n' ∷ b's' ∷ b'o' ∷ b'l' ∷ b'e' ∷ []

unfoldable pub open_console : Option ℕ → M ℤ
open_console none = pure err_no_space
open_console (some f) = install f

unfoldable pub open_inode : ℕ → Option ℕ → M ℤ
open_inode flags none = pure err_not_found
open_inode flags (some ip) = do
  ilock (some ip)
  n ← inode_of ip
  if n.dev == 0 && has_flag flags open_mask
      then (do iput (some ip); pure err_permission_denied)
      else (do truncate_if_asked ip flags; alloc_file_descriptor ip flags)

unfoldable pub fs_open : List ℕ → ℕ → M ℤ
fs_open path flags =
    let console = (do f ← file_create fd_console flags; open_console f) in
    let by_path = (do ip ← namei path; open_inode flags ip) in
    if is_zero (strcmp path console_name) then console else by_path

-- `proc->ofile[fd]`, if `fd` is in range.
abbrev pub fd_entry : Kernel → ℕ → ℤ → Option ℕ
fd_entry k p (pos fd) = if ltb fd num_files_per_process then (k.procs p).ofile fd else none
fd_entry k p (negsuc _) = none

-- `f->type == FD_NONE`.
abbrev pub is_none_type : FileDescType → Bool
is_none_type fd_none = true
is_none_type fd_inode = false
is_none_type fd_console = false

unfoldable pub close_entry : ℕ → ℕ → Option ℕ → M ℤ
close_entry p fd none = pure err_bad_file
close_entry p fd (some f) = do
  k ← get_state
  let close = do modify (set_ofile p fd none); file_close (some f); pure (pos 0)
  if is_none_type (k.file_table f).type then pure err_bad_file else close

abbrev pub count_of : ℤ → ℕ
count_of (pos n) = n
count_of (negsuc _) = 0

unfoldable pub fs_close : ℤ → M ℤ
fs_close fd = do p ← current; k ← get_state; close_entry p (count_of fd) (fd_entry k p fd)
