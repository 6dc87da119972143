-- ===== src/User/Polled.antt =====
-- A look at the keyboard without waiting, getchar_nonblock of user/lib/user.c.
use dmaos.Base.{
  inl, inr, Bool-cases, ltb, is_neg, signed32, if◌then◌else◌, ℕ, ◌%◌, ◌^◌, ◌==◌, ◌≡◌, refl, true,
  false, some, List, [], ◌∷◌, drop, bit_or, ℤ, pos, negsuc, arith, ==_refl, upd_self,
}
use dmaos.Base.Bits.{bit_and-bit_or}
use dmaos.Machine.Consts.{minus_one}
use dmaos.Files.{has_flag}
use dmaos.User.{Newlib, Program, fcntl, read_ready}
use dmaos.User.Outside.{Outside, ◌>>=◌}
use dmaos.User.Stdin.{
  getchar_nonblock, poll_with, read, read_stdin, read_nonblock, store_bytes, call_fcntl,
  char_or_none,
}

-- The byte that is there, or -1.
unfoldable pub first_char : List ℤ → ℤ
first_char [] = minus_one
first_char (pos ch ∷ input) = pos (ch % 256)
first_char (negsuc _ ∷ input) = minus_one

module _ (libc : Newlib) (k : ℕ) (one_bit : libc.o_nonblock ≡ 2 ^ k) where
  flag-set : (flags : ℕ) → has_flag (bit_or flags (libc.o_nonblock)) (libc.o_nonblock) ≡ true
  flag-set flags = rw one_bit (ground (arith, bit_and-bit_or k flags))

  fcntl-getfl : (s : Program) → fcntl libc (pos 0) (libc.f_getfl) 0 s ≡ (signed32 s.stdin_flags, s)
  unfolding fcntl
  fcntl-getfl s = rw (==_refl libc.f_getfl) refl

  module _ (differ : (libc.f_setfl == libc.f_getfl) ≡ false) where
    fcntl-setfl :
        (arg : ℕ) (s : Program)
        → fcntl libc (pos 0) (libc.f_setfl) arg s ≡ (pos 0, record s { stdin_flags = arg })
    unfolding fcntl
    fcntl-setfl arg s = rw (differ, ==_refl libc.f_setfl) refl

    -- What the loop of the read takes, after which the old flags are put back.
    after_read :
        (c old : ℕ) (input : List ℤ) (s : Program) (o : Outside)
        → (t : Program) × (after : Outside) × ((read_nonblock libc c 1 >>= λ ret.
                call_fcntl libc (pos 0) libc.f_setfl old >>= λ _. char_or_none ret c)
              s
              (record o { input = input })
            ≡ some (first_char input, (t, after)))
          × ((t.stdin_flags ≡ old) × (after.input ≡ drop 1 input))
    unfolding read_nonblock read_ready store_bytes first_char
    after_read c old [] s o =
        rw (fcntl-setfl old (record s { errno = pos libc.eagain })) (_, _, refl, (refl, refl))
    after_read c old (negsuc n ∷ input) s o =
        rw (fcntl-setfl old (record s { errno = pos libc.eagain })) (_, _, refl, (refl, refl))
    after_read c old (pos ch ∷ input) s o =
        rw (fcntl-setfl old s, upd_self o.memory c (ch % 256)) (_, _, refl, (refl, refl))

  -- getchar_nonblock never waits and leaves the flags of stdin as they were. If the flags are an `int` that
  -- is not negative, it returns the first character if the console has one and -1 if not, and takes no
  -- more than one from it; if they are negative, it returns -1 and takes none. O_NONBLOCK is one bit, and
  -- F_SETFL is not F_GETFL.
  pub getchar_nonblock-first_char :
      (c : ℕ) (s : Program) (o : Outside)
      → (libc.f_setfl == libc.f_getfl) ≡ false
      → (t : Program) × (after : Outside) × (getchar_nonblock libc c s o
          ≡ some (
            if is_neg (signed32 s.stdin_flags) then minus_one else first_char o.input,
            (t, after),
          ))
        × ((t.stdin_flags ≡ s.stdin_flags)
            × (after.input ≡ (if is_neg (signed32 s.stdin_flags) then o.input else drop 1 o.input)))
  unfolding getchar_nonblock poll_with read read_stdin
  getchar_nonblock-first_char c s o differ = elim (Bool-cases (ltb s.stdin_flags (2 ^ 31))) [
    | inl e ↦
        rw
          (
            fcntl-getfl s,
            e,
            fcntl-setfl differ (bit_or s.stdin_flags libc.o_nonblock) s,
            flag-set (s.stdin_flags),
          )
          (after_read differ c (s.stdin_flags) (o.input)
            (record s { stdin_flags = bit_or s.stdin_flags libc.o_nonblock }) o)
    | inr e ↦ rw (fcntl-getfl s, e) (s, o, refl, (refl, refl))
  ]
