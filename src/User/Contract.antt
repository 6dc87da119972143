-- ===== src/User/Contract.antt =====
-- The convention of POSIX in user/lib/user.c: how a call reports that it failed.
use dmaos.Base.{
  ◌≢◌, ℕ, zero, suc, ◌^◌, ◌<◌, ◌==◌, ltb, ◌≡◌, inl, inr, refl, true, Bool-cases, List, [], ◌∷◌, ℤ,
  pos, negsuc, pattern32, arith,
}
use dmaos.User.{Newlib, Program, fcntl, translate_error, handle_retval}
use dmaos.User.Outside.{
  pure, ◌>>=◌, Outside, Answer, answered, written, syscall, checked, fail, retval,
}
use dmaos.User.Stubs.{
  IoctlArg, close, lseek, open_path, unlink, user_sbrk, chdir, mkdir, framebuffer_present,
  input_poll, unsupported, fstat, stat, getcwd, cwd_result, ioctl, window_ioctl, stat_result,
  is_tcset,
}
use dmaos.User.Stdin.{write, read, call_fcntl, is_output}
use dmaos.User.Requests.{
  Request, result_of, address_of, perform, Fits, Returns, close_file, lseek_file, open_at,
  unlink_path, move_break, chdir_path, mkdir_path, present_picture, poll_key, write_bytes,
  fstat_file, stat_path, fcntl_file, ioctl_file, read_bytes, getcwd_in, fork_or_kill,
}

nonzero : (n : ℕ) → 0 < n → (e : ℕ) × (pos n ≡ pos (suc e))
nonzero zero h = absurd (omega arith)
nonzero (suc n) h = (n, refl)

fail-Returns : (n : ℕ) → 0 < n → (s : Program) (o : Outside) → Returns (fail n) s o
fail-Returns n h s o = let (e, at) = nonzero n h in (_, _, _, refl, inr (refl, e, at))

module _ (libc : Newlib) where
  -- newlib's error numbers are positive.
  abbrev pub ErrorNumbers : Type 0
  ErrorNumbers = (0 < libc.enomem) × ((0 < libc.enosys) × (0 < libc.enotty))

  error-positive :
      ErrorNumbers → (n : ℕ) → (e : ℕ) × (translate_error libc (negsuc n) ≡ pos (suc e))
  unfolding translate_error
  error-positive (mem, _) n = elim (Bool-cases (suc n == 4)) [
    | inl e ↦ rw e (nonzero (libc.enomem) mem)
    | inr e ↦ (n, rw e refl)
  ]

  module _ (numbers : ErrorNumbers) where
    retval-Reports : (ret : ℤ) (s : Program) (o : Outside) → Returns (retval libc ret) s o
    unfolding handle_retval
    retval-Reports (pos n) s o = (_, _, _, refl, inl (refl, refl))
    retval-Reports (negsuc n) s o =
        let (e, at) = error-positive numbers n in (_, _, _, refl, inr (refl, e, at))

    checked-Reports :
        (sysno : ℕ) (args : List ℕ) (s : Program) (o : Outside) (a : Answer) (rest : List Answer)
        → Returns (checked libc sysno args) s (record o { answers = a ∷ rest })
    unfolding checked syscall written
    checked-Reports sysno args s o a rest =
        retval-Reports (a.value) s (answered a rest sysno args o)

    stat_result-Reports :
        (ret size : ℤ) (mode : ℕ) (s : Program) (o : Outside)
        → Returns (result_of (stat_result libc ret size mode)) s o
    stat_result-Reports (pos n) size mode s o = (_, _, _, refl, inl (refl, refl))
    stat_result-Reports (negsuc n) size mode s o =
        let (e, at) = error-positive numbers n in (_, _, _, refl, inr (refl, e, at))

    nosys : 0 < libc.enosys
    nosys = let (_, (h, _)) = numbers in h

    notty : 0 < libc.enotty
    notty = let (_, (_, h)) = numbers in h

    fcntl-Reports :
        (fd : ℤ) (cmd arg : ℕ) (s : Program) (o : Outside)
        → s.stdin_flags < 2 ^ 31
        → Returns (call_fcntl libc fd cmd arg) s o
    unfolding fcntl
    fcntl-Reports (pos zero) cmd arg s o small = elim (Bool-cases (cmd == libc.f_getfl)) [
      | inl get ↦
          let plain : ltb s.stdin_flags (2 ^ 31) ≡ true = ground arith in
          rw (get, plain) (_, _, _, refl, inl (refl, refl))
      | inr other ↦ elim (Bool-cases (cmd == libc.f_setfl)) [
        | inl set ↦ rw (other, set) (_, _, _, refl, inl (refl, refl))
        | inr unknown ↦ rw (other, unknown) (fail-Returns (libc.enosys) nosys s o)
      ]
    ]
    fcntl-Reports (pos (suc n)) cmd arg s o small = fail-Returns (libc.enosys) nosys s o
    fcntl-Reports (negsuc n) cmd arg s o small = fail-Returns (libc.enosys) nosys s o

    window-Returns :
        (request : ℕ) (arg : IoctlArg) (s : Program) (o : Outside)
        → Returns (result_of (window_ioctl libc request arg)) s o
    unfolding window_ioctl
    window-Returns request arg s o = elim (Bool-cases (request == 0x5413)) [
      | inl size ↦ rw size (_, _, _, refl, inl (refl, refl))
      | inr other ↦ rw other (fail-Returns (libc.enotty) notty s o)
    ]

    ioctl-Reports :
        (fd : ℤ) (request : ℕ) (arg : IoctlArg) (s : Program) (o : Outside)
        → Returns (result_of (ioctl libc fd request arg)) s o
    unfolding ioctl
    ioctl-Reports (pos zero) request arg s o = elim (Bool-cases (request == 0x5401)) [
      | inl get ↦ rw get (_, _, _, refl, inl (refl, refl))
      | inr other ↦ elim (Bool-cases (is_tcset request)) [
        | inl set ↦ rw (other, set) (_, _, _, refl, inl (refl, refl))
        | inr unknown ↦ rw (other, unknown) (window-Returns request arg s o)
      ]
    ]
    ioctl-Reports (pos (suc n)) request arg s o = window-Returns request arg s o
    ioctl-Reports (negsuc n) request arg s o = window-Returns request arg s o

    write-Returns :
        (fd : ℤ) (buf count : ℕ)
        → count < 2 ^ 31
        → (s : Program) (o : Outside) (a : Answer) (rest : List Answer)
        → Returns (write libc fd buf count) s (record o { answers = a ∷ rest })
    unfolding write
    write-Returns fd buf count fits s o a rest = elim (Bool-cases (is_output fd)) [
      | inl console ↦
          let small : ltb count (2 ^ 31) ≡ true = ground arith in
          rw (console, small) (_, _, _, refl, inl (refl, refl))
      | inr other ↦ rw other (checked-Reports 6 _ s o a rest)
    ]

    fstat-Returns :
        (fd : ℤ) (s : Program) (o : Outside) (a : Answer) (rest : List Answer)
        → Returns (result_of (fstat libc fd)) s (record o { answers = a ∷ rest })
    unfolding fstat syscall
    fstat-Returns fd s o a rest =
        stat_result-Reports (a.value) (a.value) _ s (answered a rest 9 (pattern32 fd ∷ []) o)

    stat-Returns :
        (kst path : ℕ) (s : Program) (o : Outside) (a : Answer) (rest : List Answer)
        → Returns (result_of (stat libc kst path)) s (record o { answers = a ∷ rest })
    unfolding stat syscall
    stat-Returns kst path s o a rest =
        stat_result-Reports (a.value) _ _ s (answered a rest 14 (path ∷ kst ∷ []) o)

    read-Returns :
        (fd : ℤ) (buf count : ℕ)
        → fd ≢ pos 0
        → (s : Program) (o : Outside) (a : Answer) (rest : List Answer)
        → Returns (read libc fd buf count) s (record o { answers = a ∷ rest })
    unfolding read
    read-Returns (pos zero) buf count ne s o a rest = absurd (ne refl)
    read-Returns (pos (suc n)) buf count ne s o a rest = checked-Reports 5 _ s o a rest
    read-Returns (negsuc n) buf count ne s o a rest = checked-Reports 5 _ s o a rest

    cwd_result-Returns :
        (ret : ℤ) (buf : ℕ) (s : Program) (o : Outside)
        → Returns (do found ← cwd_result libc ret buf; pure (address_of found)) s o
    unfolding cwd_result
    cwd_result-Returns (pos n) buf s o = (_, _, _, refl, inl (refl, refl))
    cwd_result-Returns (negsuc n) buf s o =
        let (e, at) = error-positive numbers n in (_, _, _, refl, inr (refl, e, at))

    getcwd-Returns :
        (buf size : ℕ) (s : Program) (o : Outside) (a : Answer) (rest : List Answer)
        → Returns (perform libc (getcwd_in buf size)) s (record o { answers = a ∷ rest })
    unfolding perform getcwd syscall
    getcwd-Returns buf size s o a rest =
        cwd_result-Returns (a.value) buf s (answered a rest 16 (buf ∷ size ∷ []) o)

    -- Each of close, lseek, open, unlink, sbrk, chdir, mkdir, framebuffer_present, input_poll, write, a read
    -- that is not of descriptor 0, fstat, stat, getcwd, fcntl, ioctl, fork, execve, kill and link returns: it
    -- succeeds and leaves errno as it was, or it returns -1, getcwd NULL, and sets errno to an error number.
    -- The kernel answers, a count of bytes to write is an `int`, and the flags of stdin are not negative
    -- where they may be asked for. ftruncate, spawn, wait and kmesg pass the kernel's answer on instead.
    pub perform-Returns :
        (request : Request) (s : Program) (o : Outside) (a : Answer) (rest : List Answer)
        → Fits request s
        → Returns (perform libc request) s (record o { answers = a ∷ rest })
    unfolding perform close lseek open_path unlink user_sbrk chdir mkdir framebuffer_present
        input_poll unsupported Fits
    perform-Returns (close_file fd) s o a rest fits = checked-Reports 7 _ s o a rest
    perform-Returns (lseek_file fd ptr dir) s o a rest fits = checked-Reports 21 _ s o a rest
    perform-Returns (open_at path flags) s o a rest fits = checked-Reports 4 _ s o a rest
    perform-Returns (unlink_path path) s o a rest fits = checked-Reports 18 _ s o a rest
    perform-Returns (move_break incr) s o a rest fits = checked-Reports 19 _ s o a rest
    perform-Returns (chdir_path path) s o a rest fits = checked-Reports 15 _ s o a rest
    perform-Returns (mkdir_path path mode) s o a rest fits = checked-Reports 17 _ s o a rest
    perform-Returns (present_picture framebuffer width height) s o a rest fits =
        checked-Reports 22 _ s o a rest
    perform-Returns (poll_key code pressed) s o a rest fits = checked-Reports 23 _ s o a rest
    perform-Returns (write_bytes fd buf count) s o a rest fits =
        write-Returns fd buf count fits s o a rest
    perform-Returns (fstat_file fd) s o a rest fits = fstat-Returns fd s o a rest
    perform-Returns (stat_path kst path) s o a rest fits = stat-Returns kst path s o a rest
    perform-Returns (fcntl_file fd cmd arg) s o a rest fits = fcntl-Reports fd cmd arg s _ fits
    perform-Returns (ioctl_file fd request arg) s o a rest fits = ioctl-Reports fd request arg s _
    perform-Returns (read_bytes fd buf count) s o a rest fits =
        read-Returns fd buf count fits s o a rest
    perform-Returns (getcwd_in buf size) s o a rest fits = getcwd-Returns buf size s o a rest
    perform-Returns fork_or_kill s o a rest fits = fail-Returns (libc.enosys) nosys s _
