-- ===== src/User/Flags.antt =====
-- The flags of open and the results of system calls, user/lib/user.c.
use dmaos.Base.{ℕ, zero, suc, ◌≡◌, ◌==◌, Bool, ◌||◌, bit_and, arith}
use dmaos.Machine.{File, FileDescType}
use dmaos.Machine.Consts.{
  filectrl_readonly, filectrl_writeonly, filectrl_create, filectrl_truncate, filectrl_append,
}
use dmaos.Files.{has_flag, opened}
use dmaos.User.{Newlib, kernel_flags, access_flags, or_if}

module _ (libc : Newlib) where
  -- A file that a program opens can be read exactly if it asked for O_RDONLY or O_RDWR, and written
  -- exactly if it asked for O_WRONLY or O_RDWR; the kernel is told to create, truncate or append exactly
  -- if the program passed O_CREAT, O_TRUNC or O_APPEND.
  pub kernel_flags-opened :
      (flags : ℕ) (type : FileDescType) (v : File)
      → let access = bit_and flags 3 in
        let asked = kernel_flags libc flags in
        ((opened type asked v).readable ≡ ((access == 0) || (access == 2)))
        × (((opened type asked v).writable ≡ ((access == 1) || (access == 2)))
            × ((has_flag asked filectrl_create ≡ has_flag flags (libc.o_creat))
                × ((has_flag asked filectrl_truncate ≡ has_flag flags (libc.o_trunc))
                    × (has_flag asked filectrl_append ≡ has_flag flags (libc.o_append)))))
  unfolding kernel_flags
  kernel_flags-opened flags type v =
      go (bit_and flags 3) (has_flag flags (libc.o_creat)) (has_flag flags (libc.o_trunc))
        (has_flag flags (libc.o_append))
    where
      go :
          (access : ℕ) (creat trunc append : Bool)
          → let asked = or_if libc append filectrl_append (
              or_if libc trunc filectrl_truncate
                (or_if libc creat filectrl_create (access_flags libc access))) in
            (has_flag asked filectrl_readonly ≡ ((access == 0) || (access == 2)))
            × ((has_flag asked filectrl_writeonly ≡ ((access == 1) || (access == 2)))
                × ((has_flag asked filectrl_create ≡ creat)
                    × ((has_flag asked filectrl_truncate ≡ trunc)
                        × (has_flag asked filectrl_append ≡ append))))
      go zero creat trunc append = ground arith
      go (suc zero) creat trunc append = ground arith
      go (suc (suc zero)) creat trunc append = ground arith
      go (suc (suc (suc n))) creat trunc append = ground arith
