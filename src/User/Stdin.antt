-- ===== src/User/Stdin.antt =====
-- `_read`, `_write` and getchar_nonblock of user/lib/user.c: the console, and the files.
use dmaos.Base.{
  ℕ, zero, suc, ◌+◌, ◌*◌, ◌%◌, ◌==◌, ltb, min, if◌then◌else◌, Bool, ◌&&◌, ◌||◌, false, none, some,
  List, [], ◌∷◌, ◌++◌, Bytes, upd, length, bit_or, ℤ, pos, negsuc, is_neg, signed32, pattern32,
}
use dmaos.Machine.Consts.{minus_one}
use dmaos.Files.{has_flag}
use dmaos.User.{Newlib, read_ready, read_min, read_timed, fcntl}
use dmaos.User.Outside.{P, pure, ◌>>=◌, Outside, uptime, fail, checked}

-- `cbuf[num_read++] = (char)ch`.
unfoldable pub store_bytes : ℕ → List ℕ → Bytes → Bytes
store_bytes at [] memory = memory
store_bytes at (b ∷ bytes) memory = store_bytes (at + 1) bytes (upd memory at (b % 256))

-- The bytes read are in the buffer, and getchar goes on behind them.
abbrev pub delivered : ℕ → List ℕ → List ℤ → Outside → Outside
delivered buf bytes input o = record o { input = input; memory = store_bytes buf bytes o.memory }

abbrev pub deliver : ℕ → List ℕ → List ℤ → P ℤ
deliver buf bytes input s o = pure (signed32 (length bytes)) s (delivered buf bytes input o)

-- VMIN and VTIME are 0: what is there.
unfoldable pub read_now : ℕ → ℕ → P ℤ
read_now buf count s o =
    let (bytes, input) = read_ready count o.input in deliver buf bytes input s o

unfoldable pub read_blocking : ℕ → ℕ → P ℤ
read_blocking buf n s o = elim (read_min n o.input) [
  | none ↦ none
  | some (bytes, input) ↦ deliver buf bytes input s o
]

unfoldable pub timed_from : ℕ → ℕ → ℕ → P ℤ
timed_from buf timeout start s o = elim (read_timed start timeout o.input o.clock) [
  | none ↦ none
  | some (bytes, (input, clock)) ↦ deliver buf bytes input s (record o { clock = clock })
]

-- VTIME only.
unfoldable pub read_timeout : ℕ → ℕ → ℕ → P ℤ
read_timeout buf count vtime = do
  start_time ← uptime
  if count == 0 then pure (pos 0) else timed_from buf (vtime * 1000000) start_time

-- The bytes at `buf`.
unfoldable pub bytes_at : Bytes → ℕ → ℕ → List ℕ
bytes_at memory buf zero = []
bytes_at memory buf (suc n) = memory buf ∷ bytes_at memory (buf + 1) n

-- SYSCALL_PUTCHAR for each byte.
abbrev pub print_bytes : ℕ → ℕ → P ℤ
print_bytes buf count s o =
    pure (signed32 count) s (record o { output = o.output ++ bytes_at o.memory buf count })

abbrev pub is_output : ℤ → Bool
is_output (pos n) = (n == 1) || (n == 2)
is_output (negsuc _) = false

-- `(ret <= 0) ? -1 : c`, where `c` is at `c`.
abbrev pub char_or_none : ℤ → ℕ → P ℤ
char_or_none (pos (suc n)) c s o = pure (pos (o.memory c)) s o
char_or_none _ c s o = pure minus_one s o

module _ (libc : Newlib) where
  -- O_NONBLOCK: what is there, and EAGAIN if that is nothing.
  unfoldable pub read_nonblock : ℕ → ℕ → P ℤ
  read_nonblock buf count s o =
      let (bytes, input) = read_ready count o.input in
      if (length bytes == 0) && ltb 0 count
      then fail (libc.eagain) s (record o { input = input })
      else deliver buf bytes input s o

  unfoldable pub read_stdin : ℕ → ℕ → P ℤ
  read_stdin buf count s =
      let vmin = s.stdin_termios.c_cc libc.vmin in
      let vtime = s.stdin_termios.c_cc libc.vtime in
      if has_flag s.stdin_flags (libc.o_nonblock)
      then read_nonblock buf count s
      else if ltb 0 vmin
      then read_blocking buf (min vmin count) s
      else if ltb 0 vtime
      then read_timeout buf count vtime s
      else read_now buf count s

  unfoldable pub read : ℤ → ℕ → ℕ → P ℤ
  read (pos zero) buf count = read_stdin buf count
  read fd buf count = checked libc 5 (pattern32 fd ∷ buf ∷ count ∷ [])

  unfoldable pub write : ℤ → ℕ → ℕ → P ℤ
  write fd buf count =
      if is_output fd
      then print_bytes buf count
      else checked libc 6 (pattern32 fd ∷ buf ∷ count ∷ [])

  abbrev pub call_fcntl : ℤ → ℕ → ℕ → P ℤ
  call_fcntl fd cmd arg s o = let (r, t) = fcntl libc fd cmd arg s in some (r, (t, o))

  unfoldable pub poll_with : ℕ → ℕ → P ℤ
  poll_with c old_flags = do
    set ← call_fcntl (pos 0) (libc.f_setfl) (bit_or old_flags (libc.o_nonblock))
    if is_neg set then pure minus_one else (do
      ret ← read (pos 0) c 1
      _ ← call_fcntl (pos 0) (libc.f_setfl) old_flags
      char_or_none ret c)

  -- `c` is where the variable stands on the stack.
  unfoldable pub getchar_nonblock : ℕ → P ℤ
  getchar_nonblock c = do
    old_flags ← call_fcntl (pos 0) (libc.f_getfl) 0
    if is_neg old_flags then pure minus_one else poll_with c (pattern32 old_flags)
