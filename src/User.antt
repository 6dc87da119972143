-- ===== src/User.antt =====
-- The user library's calls: results and errors, the flags of open, and reading from the console, of
-- user/lib/user.c. What getchar returns in turn is a list of `int`s.
pub mod Flags
pub mod Console
pub mod Outside
pub mod Stubs
pub mod Stdin
pub mod Clock
pub mod Polled
pub mod Requests
pub mod Contract
use dmaos.Base.{
  ℕ, zero, suc, ◌+◌, ◌-◌, ◌%◌, ◌^◌, leb, ltb, ◌==◌, if◌then◌else◌, Bool, true, false, Option, none,
  some, List, [], ◌∷◌, bit_and, bit_or, signed32, ℤ, pos, negsuc,
}
use dmaos.Machine.Consts.{
  filectrl_readonly, filectrl_writeonly, filectrl_readwrite, filectrl_create, filectrl_truncate,
  filectrl_append, minus_one,
}
use dmaos.Files.{has_flag}

-- The numbers that newlib's headers give to the names.
pub record Newlib : Type 0 where
  pub o_creat : ℕ
  pub o_trunc : ℕ
  pub o_append : ℕ
  pub f_getfl : ℕ
  pub f_setfl : ℕ
  pub enomem : ℕ
  pub enosys : ℕ
  pub eagain : ℕ
  pub einval : ℕ
  pub enotty : ℕ
  pub o_nonblock : ℕ
  pub vmin : ℕ
  pub vtime : ℕ
  pub s_ifchr : ℕ
  pub s_ifreg : ℕ
  pub s_ifdir : ℕ

-- `struct termios`: the control characters and the mode words.
pub record Termios : Type 0 where
  pub c_cc : ℕ → ℕ
  pub modes : List ℕ

-- `errno`, `stdin_flags`, an `int` as its 32 bits, and `stdin_termios`.
pub record Program : Type 0 where
  pub errno : ℤ
  pub stdin_flags : ℕ
  pub stdin_termios : Termios

-- `while (num_read < count)`, up to the first time that nothing is there: the bytes, and what the
-- console sends after them.
unfoldable pub read_ready : ℕ → List ℤ → List ℕ × List ℤ
read_ready zero input = ([], input)
read_ready (suc count) [] = ([], [])
read_ready (suc count) (negsuc _ ∷ input) = ([], input)
read_ready (suc count) (pos ch ∷ input) =
    let (bytes, rest) = read_ready count input in (ch ∷ bytes, rest)

-- `uptime() - start`, for a `uint64_t`.
abbrev pub elapsed : ℕ → ℕ → ℕ
elapsed start now = (now + 2 ^ 64 - start) % 2 ^ 64

-- The loop of a read with VTIME: one byte, or none after `timeout` ticks. `clock` is what rdtime reads
-- in turn, and `none` a program that still waits.
unfoldable pub read_timed : ℕ → ℕ → List ℤ → List ℕ → Option (List ℕ × (List ℤ × List ℕ))
read_timed start timeout [] clock = none
read_timed start timeout (pos ch ∷ input) clock = some (ch ∷ [], (input, clock))
read_timed start timeout (negsuc _ ∷ input) [] = none
read_timed start timeout (negsuc _ ∷ input) (now ∷ clock) =
    let rest = read_timed start timeout input clock in
    if leb timeout (elapsed start now) then some ([], (input, clock)) else rest

-- `while (num_read < vmin && num_read < count)`, for the smaller of the two: `none` while the program
-- still waits.
unfoldable pub read_min : ℕ → List ℤ → Option (List ℕ × List ℤ)
read_min zero input = some ([], input)
read_min (suc n) [] = none
read_min (suc n) (negsuc _ ∷ input) = read_min (suc n) input
read_min (suc n) (pos ch ∷ input) = elim (read_min n input) [
  | none ↦ none
  | some (bytes, rest) ↦ some (ch ∷ bytes, rest)
]

module _ (libc : Newlib) where
  unfoldable pub translate_error : ℤ → ℤ
  translate_error (pos n) = pos n
  translate_error (negsuc n) = if suc n == 4 then pos (libc.enomem) else pos (suc n)

  -- The result, and the program's state.
  unfoldable pub handle_retval : ℤ → Program → ℤ × Program
  handle_retval (pos n) s = (pos n, s)
  handle_retval (negsuc n) s = (minus_one, record s { errno = translate_error (negsuc n) })

  abbrev pub access_flags : ℕ → ℕ
  access_flags access =
      if access == 0
      then filectrl_readonly
      else if access == 1
      then filectrl_writeonly
      else if access == 2
      then filectrl_readwrite
      else 0

  abbrev pub or_if : Bool → ℕ → ℕ → ℕ
  or_if test flag flags = if test then bit_or flags flag else flags

  -- The flags that `_open` passes to the kernel.
  unfoldable pub kernel_flags : ℕ → ℕ
  kernel_flags flags = or_if (has_flag flags (libc.o_append)) filectrl_append (
      or_if (has_flag flags (libc.o_trunc)) filectrl_truncate
        (or_if (has_flag flags (libc.o_creat)) filectrl_create (access_flags (bit_and flags 3))))

  -- `_fcntl`; `arg` is an `int` as its 32 bits.
  unfoldable pub fcntl : ℤ → ℕ → ℕ → Program → ℤ × Program
  fcntl fd cmd arg s =
      let unknown : ℤ × Program = (minus_one, record s { errno = pos (libc.enosys) }) in
      elim fd [
        | pos zero ↦
            if cmd == libc.f_getfl
            then (signed32 s.stdin_flags, s)
            else if cmd == libc.f_setfl
            then (pos 0, record s { stdin_flags = arg })
            else unknown
        | _ ↦ unknown
      ]
