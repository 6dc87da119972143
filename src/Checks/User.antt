-- ===== src/Checks/User.antt =====
-- The user library, user/lib/user.c, on small inputs.
use dmaos.Base.{
  ◌==◌, ◌≡◌, if◌then◌else◌, refl, true, false, Option, some, none, List, [], ◌∷◌, take, drop, ℤ,
  pos, negsuc, arith,
}
use dmaos.Machine.{fd_inode}
use dmaos.Machine.Consts.{filectrl_create, filectrl_truncate, filectrl_append, minus_one}
use dmaos.Files.{has_flag, opened, empty_file}
use dmaos.User.{Newlib, Program, kernel_flags, read_min, handle_retval, translate_error}
use dmaos.User.Flags.{kernel_flags-opened}
use dmaos.User.Console.{available, read_min-available}
use dmaos.User.Outside.{Outside, Answer, syscall, checked, uptime}
use dmaos.User.Stubs.{ftruncate, unlink}
use dmaos.User.Stdin.{getchar_nonblock, write, bytes_at}
use dmaos.User.Clock.{sleep_ms, wait_ticks}
use dmaos.User.Polled.{first_char, getchar_nonblock-first_char}
use dmaos.User.Requests.{Fits, Returns, perform, unlink_path}
use dmaos.User.Contract.{perform-Returns}

-- newlib's numbers.
abbrev newlib : Newlib
newlib = record {
  o_creat = 0x200;
  o_trunc = 0x400;
  o_append = 0x8;
  f_getfl = 3;
  f_setfl = 4;
  enomem = 12;
  enosys = 88;
  eagain = 11;
  einval = 22;
  enotty = 25;
  o_nonblock = 0x4000;
  vmin = 16;
  vtime = 17;
  s_ifchr = 0x2000;
  s_ifreg = 0x8000;
  s_ifdir = 0x4000;
}

-- O_RDWR | O_CREAT.
kernel_flags-opened_example :
    ((opened fd_inode (kernel_flags newlib 0x202) empty_file).readable ≡ true)
    × (((opened fd_inode (kernel_flags newlib 0x202) empty_file).writable ≡ true)
        × ((has_flag (kernel_flags newlib 0x202) filectrl_create ≡ true)
            × ((has_flag (kernel_flags newlib 0x202) filectrl_truncate ≡ false)
                × (has_flag (kernel_flags newlib 0x202) filectrl_append ≡ false))))
kernel_flags-opened_example = kernel_flags-opened newlib 0x202 fd_inode empty_file

-- Nothing, then "ab", then nothing again.
abbrev typed : List ℤ
typed = negsuc 0 ∷ pos b'a' ∷ pos b'b' ∷ negsuc 0 ∷ []

read_min-available_example :
    (rest : List ℤ) × (read_min 1 typed ≡ some (take 1 (available typed), rest))
    × (available rest ≡ drop 1 (available typed))
unfolding available
read_min-available_example = read_min-available 1 typed (omega arith)

-- VMIN is 1.
abbrev program : Program
program = record {
  errno = pos 0;
  stdin_flags = 0;
  stdin_termios = record { c_cc = λ i. if i == 16 then 1 else 0; modes = [] };
}

-- The kernel answers -2, after the user has typed "a".
abbrev world : Outside
world = record {
  input = pos b'a' ∷ negsuc 0 ∷ [];
  clock = 100 ∷ 50000 ∷ 2000000 ∷ [];
  answers = record { value = negsuc 1; writes = [] } ∷ [];
  memory = λ _. b'x';
  output = [];
  calls = [];
}

abbrev no_file : Answer
no_file = record { value = negsuc 1; writes = [] }

getchar_nonblock-first_char_example :
    (t : Program) × (after : Outside) × (getchar_nonblock newlib 512 program world
      ≡ some (pos b'a', (t, after)))
    × ((t.stdin_flags ≡ 0) × (after.input ≡ negsuc 0 ∷ []))
unfolding first_char
getchar_nonblock-first_char_example =
    getchar_nonblock-first_char newlib 14 refl 512 program world refl

perform-Returns_example :
    Returns (perform newlib (unlink_path 512)) program (record world { answers = no_file ∷ [] })
unfolding Fits
perform-Returns_example =
    perform-Returns newlib (omega arith, (omega arith, omega arith)) (unlink_path 512) program world
      no_file [] tt

-- errno after a call, and its result.
abbrev outcome : Option (ℤ × (Program × Outside)) → Option (ℤ × ℤ)
outcome none = none
outcome (some (r, (t, _))) = some (r, t.errno)

unlink_missing : outcome (perform newlib (unlink_path 512) program world) ≡ some (minus_one, pos 2)
unfolding perform unlink checked syscall handle_retval translate_error
unlink_missing = refl

-- ftruncate passes the kernel's error on and leaves errno alone.
ftruncate_missing : outcome (ftruncate (pos 3) (pos 0) program world) ≡ some (negsuc 1, pos 0)
unfolding ftruncate syscall
ftruncate_missing = refl

-- 10 ms are 100000 ticks.
sleep_ten : outcome (sleep_ms 10 program world) ≡ some (pos 0, pos 0)
unfolding sleep_ms uptime wait_ticks
sleep_ten = refl

-- The last reading is needed for 150 ms, and 1 s is never over.
sleep_second : outcome (sleep_ms 1000 program world) ≡ none
unfolding sleep_ms uptime wait_ticks
sleep_second = refl

put_two :
    (o : Outside) × (write newlib (pos 1) 512 2 program world ≡ some (pos 2, (program, o)))
    × (o.output ≡ b'x' ∷ b'x' ∷ [])
unfolding write bytes_at
put_two = (_, refl, refl)
