-- ===== src/Io.antt =====
-- Reading, writing, seeking and truncating through a descriptor: fs_read, fs_write, fs_lseek and
-- fs_ftruncate of kernel/fs.c.
use dmaos.Base.{
  ℕ, zero, suc, ◌+◌, if◌then◌else◌, Option, none, some, List, [], ◌∷◌, ◌++◌, Bytes, put8, add32, ℤ,
  pos, negsuc, ◌+ℤ◌, is_neg, signed32, pattern32,
}
use dmaos.Machine.{
  Kernel, File, FileDescType, fd_none, fd_inode, fd_console, ok, M, waiting, pure, ◌>>=◌, ◌>>◌,
  get_state, modify,
}
use dmaos.Machine.Consts.{err_bad_file, err_permission_denied, err_invalid_argument, err_no_space}
use dmaos.Inode.{inode_of}
use dmaos.Content.{readi, writei, itrunc}
use dmaos.Files.{update_file}
use dmaos.Fd.{current, fd_entry, count_of, is_none_type}

-- `while ((ch = getchar()) < 0) yield();`: the first byte that comes and the input after it.
unfoldable pub next_char : List ℤ → Option (ℕ × List ℤ)
next_char [] = none
next_char (pos c ∷ input) = some (c, input)
next_char (negsuc _ ∷ input) = next_char input

abbrev pub set_input : List ℤ → Kernel → Kernel
set_input input k = record k { input = input }

-- Waits for a byte from the console. The source yields while there is none; nothing of the kernel's state is
-- changed in between, so what the other processes do then stands before the read.
unfoldable pub get_byte : M ℕ
get_byte k = elim (next_char k.input) [
  | none ↦ waiting
  | some (c, input) ↦ ok c (set_input input k)
]

-- `buf[i] = ch`, for `rounds` bytes.
unfoldable pub console_read : ℕ → ℕ → Bytes → M Bytes
console_read zero i buf = pure buf
console_read (suc rounds) i buf = do c ← get_byte; console_read rounds (i + 1) (put8 buf i c)

-- `if (r > 0) f->off += r;`
unfoldable pub advance : ℕ → ℤ → M (Unit {0})
advance f (pos r) = update_file f (λ v. record v { off = add32 v.off r })
advance f (negsuc _) = pure tt

unfoldable pub read_by_type : ℕ → File → FileDescType → Bytes → ℤ → M (ℤ × Bytes)
read_by_type f v fd_none buf n = pure (err_bad_file, buf)
read_by_type f v fd_console buf n = do b ← console_read (count_of n) 0 buf; pure (n, b)
read_by_type f v fd_inode buf n = do
  (r, b) ← readi v.ip buf v.off (pattern32 n)
  advance f r
  pure (r, b)

unfoldable pub read_entry : Option ℕ → Bytes → ℤ → M (ℤ × Bytes)
read_entry none buf n = pure (err_bad_file, buf)
read_entry (some f) buf n = do
  k ← get_state
  let v = k.file_table f
  if is_none_type v.type
      then pure (err_bad_file, buf)
      else if v.readable
      then read_by_type f v v.type buf n
      else pure (err_permission_denied, buf)

-- The result, and the bytes of `buf` afterwards.
unfoldable pub fs_read : ℤ → Bytes → ℤ → M (ℤ × Bytes)
fs_read fd buf n = do p ← current; k ← get_state; read_entry (fd_entry k p fd) buf n

abbrev pub bytes_out : Bytes → ℕ → ℕ → List ℕ
bytes_out buf zero i = []
bytes_out buf (suc n) i = buf i ∷ bytes_out buf n (i + 1)

-- `putchar` of each of the bytes.
unfoldable pub put_out : List ℕ → M (Unit {0})
put_out bytes = modify (λ k. record k { output = k.output ++ bytes })

unfoldable pub write_by_type : ℕ → File → FileDescType → Bytes → ℤ → M ℤ
write_by_type f v fd_none buf n = pure err_bad_file
write_by_type f v fd_console buf n = do put_out (bytes_out buf (count_of n) 0); pure n
write_by_type f v fd_inode buf n = do
  w ← writei v.ip buf v.off (pattern32 n)
  advance f w
  pure (if is_neg w then err_no_space else w)

unfoldable pub write_entry : Option ℕ → Bytes → ℤ → M ℤ
write_entry none buf n = pure err_bad_file
write_entry (some f) buf n = do
  k ← get_state
  let v = k.file_table f
  if is_none_type v.type
      then pure err_bad_file
      else if v.writable
      then write_by_type f v v.type buf n
      else pure err_permission_denied

unfoldable pub fs_write : ℤ → Bytes → ℤ → M ℤ
fs_write fd buf n = do p ← current; k ← get_state; write_entry (fd_entry k p fd) buf n

-- SEEK_SET, SEEK_CUR and SEEK_END; `int` sums are not wrapped (overflow is undefined in C).
unfoldable pub seek_target : ℤ → ℤ → ℤ → ℤ → Option ℤ
seek_target size off offset (pos zero) = some offset
seek_target size off offset (pos (suc zero)) = some (off +ℤ offset)
seek_target size off offset (pos (suc (suc zero))) = some (size +ℤ offset)
seek_target size off offset (pos (suc (suc (suc _)))) = none
seek_target size off offset (negsuc _) = none

unfoldable pub seek_to : ℕ → Option ℤ → M ℤ
seek_to f none = pure err_invalid_argument
seek_to f (some (negsuc _)) = pure err_invalid_argument
seek_to f (some (pos new_off)) = do
  update_file f (λ v. record v { off = new_off })
  pure (pos new_off)

unfoldable pub seek_inode : ℕ → Option ℕ → ℤ → ℤ → M ℤ
seek_inode f none offset whence = pure err_bad_file
seek_inode f (some ip) offset whence = do
  n ← inode_of ip
  k ← get_state
  seek_to f (seek_target (signed32 n.dinode.size) (signed32 (k.file_table f).off) offset whence)

unfoldable pub seek_entry : Option ℕ → ℤ → ℤ → M ℤ
seek_entry none offset whence = pure err_bad_file
seek_entry (some f) offset whence = do k ← get_state; seek_inode f (k.file_table f).ip offset whence

unfoldable pub fs_lseek : ℤ → ℤ → ℤ → M ℤ
fs_lseek fd offset whence = do
  p ← current
  k ← get_state
  seek_entry (fd_entry k p fd) offset whence

unfoldable pub truncate_by_type : File → FileDescType → ℤ → M ℤ
truncate_by_type v fd_none length = pure err_bad_file
truncate_by_type v fd_console length = pure err_invalid_argument
truncate_by_type v fd_inode (negsuc _) = pure err_invalid_argument
truncate_by_type v fd_inode (pos n) = do itrunc v.ip n; pure (pos 0)

unfoldable pub truncate_entry : Option ℕ → ℤ → M ℤ
truncate_entry none length = pure err_bad_file
truncate_entry (some f) length = do
  k ← get_state
  let v = k.file_table f
  if v.writable then truncate_by_type v v.type length else pure err_permission_denied

unfoldable pub fs_ftruncate : ℤ → ℤ → M ℤ
fs_ftruncate fd length = do p ← current; k ← get_state; truncate_entry (fd_entry k p fd) length
