-- ===== src/User/Requests.antt =====
-- The calls of user/lib/user.c that report an error by errno.
use dmaos.Base.{◌≢◌, Option, none, ℕ, suc, ◌^◌, ◌<◌, ◌≡◌, ◌⊎◌, false, some, ℤ, pos, is_neg}
use dmaos.Machine.Consts.{minus_one}
use dmaos.User.{Newlib, Program}
use dmaos.User.Outside.{P, pure, ◌>>=◌, Outside}
use dmaos.User.Stubs.{
  IoctlArg, close, lseek, open_path, unlink, user_sbrk, chdir, mkdir, framebuffer_present,
  input_poll, unsupported, fstat, stat, getcwd, ioctl,
}
use dmaos.User.Stdin.{write, read, call_fcntl}

-- The calls of the library that report an error by errno and do not wait for the console or the clock.
pub data Request : Type 0 where
  close_file : (fd : ℤ) → Request
  lseek_file : (fd ptr dir : ℤ) → Request
  open_at : (path flags : ℕ) → Request
  unlink_path : (path : ℕ) → Request
  move_break : (incr : ℤ) → Request
  chdir_path : (path : ℕ) → Request
  mkdir_path : (path mode : ℕ) → Request
  present_picture : (framebuffer width height : ℕ) → Request
  poll_key : (code pressed : ℕ) → Request
  write_bytes : (fd : ℤ) (buf count : ℕ) → Request
  fstat_file : (fd : ℤ) → Request
  stat_path : (kst path : ℕ) → Request
  fcntl_file : (fd : ℤ) (cmd arg : ℕ) → Request
  ioctl_file : (fd : ℤ) (request : ℕ) (arg : IoctlArg) → Request
  read_bytes : (fd : ℤ) (buf count : ℕ) → Request
  getcwd_in : (buf size : ℕ) → Request
  fork_or_kill : Request

abbrev pub result_of {ℓ} : {A : Type ℓ} → P (ℤ × A) → P ℤ
result_of m = do (r, _) ← m; pure r

-- The address as a result, or -1 for NULL.
abbrev pub address_of : Option ℕ → ℤ
address_of none = minus_one
address_of (some buf) = pos buf

unfoldable pub perform : Newlib → Request → P ℤ
perform libc (close_file fd) = close libc fd
perform libc (lseek_file fd ptr dir) = lseek libc fd ptr dir
perform libc (open_at path flags) = open_path libc path flags
perform libc (unlink_path path) = unlink libc path
perform libc (move_break incr) = user_sbrk libc incr
perform libc (chdir_path path) = chdir libc path
perform libc (mkdir_path path mode) = mkdir libc path mode
perform libc (present_picture framebuffer width height) =
    framebuffer_present libc framebuffer width height
perform libc (poll_key code pressed) = input_poll libc code pressed
perform libc (write_bytes fd buf count) = write libc fd buf count
perform libc (fstat_file fd) = result_of (fstat libc fd)
perform libc (stat_path kst path) = result_of (stat libc kst path)
perform libc (fcntl_file fd cmd arg) = call_fcntl libc fd cmd arg
perform libc (ioctl_file fd request arg) = result_of (ioctl libc fd request arg)
perform libc (read_bytes fd buf count) = read libc fd buf count
perform libc (getcwd_in buf size) = do found ← getcwd libc buf size; pure (address_of found)
perform libc fork_or_kill = unsupported libc

-- The number of bytes to write is an `int`, as POSIX asks, the flags of stdin are not negative where they
-- may be asked for, and a read is not of the console.
unfoldable pub Fits : Request → Program → Type 0
Fits (write_bytes fd buf count) s = count < 2 ^ 31
Fits (fcntl_file fd cmd arg) s = s.stdin_flags < 2 ^ 31
Fits (read_bytes fd buf count) s = fd ≢ pos 0
Fits _ s = Unit

-- Either the call succeeds and errno is as it was, or it returns -1 and errno is an error number.
abbrev pub Reports : ℤ → Program → Program → Type 0
Reports r s t =
    ((is_neg r ≡ false) × (t.errno ≡ s.errno))
    ⊎ ((r ≡ minus_one) × (e : ℕ) × (t.errno ≡ pos (suc e)))

-- The call returns, and reports.
abbrev pub Returns : P ℤ → Program → Outside → Type 0
Returns m s o =
    (r : ℤ) × (t : Program) × (after : Outside) × (m s o ≡ some (r, (t, after))) × Reports r s t
