-- ===== src/Spawn/Effects.antt =====
-- The references of a new process, kernel/process.c.
use dmaos.Base.{
  ℕ, ◌+◌, ◌<◌, ◌≡◌, ◌==◌, ◌∙◌, refl, ap, Option, none, some, List, [], ◌∷◌, arith, subst, upd_self,
}
use dmaos.Machine.{Kernel, FileDescType, fd_console, ◌>>=◌, modify, ◌>>◌}
use dmaos.Machine.Consts.{procs_max, global_open_file_limit}
use dmaos.Machine.Post.{Post, returned, panicked, bind, mono, both, either}
use dmaos.Inode.{iput, iget, inode_of}
use dmaos.Inode.Cache.{one}
use dmaos.Inode.Uses.{Held, iget-Uses}
use dmaos.Tables.{iput-Leaves, iget-Leaves, SameTables}
use dmaos.Files.{
  update_file, take_file, file_alloc, fill_file, file_create, release_file, file_close,
}
use dmaos.Fd.{set_ofile}
use dmaos.Holders.{IsSound, sound, posts, set_process-IsSound}
use dmaos.Holders.Files.{AreNew, file_create-IsSound, file_close-IsSound}
use dmaos.Holders.Fd.{set_ofile-IsSound}
use dmaos.Names.{slash}
use dmaos.Spawn.{set_console, open_standard, with_cwd, inherit_cwd}

-- The references are accounted for, and the slot has no directory.
pub record IsEmpty (c : Held) (p : ℕ) (k : Kernel) : Type 0 where
  pub holds : IsSound c k
  pub in_table : p < procs_max
  pub no_cwd : (k.procs p).cwd ≡ none

abbrev SameProcs : Kernel → Kernel → Type 0
SameProcs k k' = k'.procs ≡ k.procs

kept-IsEmpty :
    {c : Held} {p : ℕ} {k k' : Kernel}
    → IsEmpty c p k
    → IsSound c k'
    → SameProcs k k'
    → IsEmpty c p k'
kept-IsEmpty {p} e s same = record {
  holds = s;
  in_table = e.in_table;
  no_cwd = ap (λ t. (t p).cwd) same ∙ e.no_cwd;
}

take_file-procs : (f : Option ℕ) (k : Kernel) → Post (λ _ k'. SameProcs k k') (take_file f k)
unfolding take_file update_file
take_file-procs none k = returned refl
take_file-procs (some f) k = returned refl

fill_file-procs :
    (type : FileDescType) (flags : ℕ) (f : Option ℕ) (k : Kernel)
    → Post (λ _ k'. SameProcs k k') (fill_file type flags f k)
unfolding fill_file update_file
fill_file-procs type flags none k = returned refl
fill_file-procs type flags (some f) k = returned refl

file_create-procs :
    (type : FileDescType) (flags : ℕ) (k : Kernel)
    → Post (λ _ k'. SameProcs k k') (file_create type flags k)
unfolding file_create file_alloc
file_create-procs type flags k =
    bind (take_file-procs _ k)
      (λ f k' same. mono (fill_file-procs type flags f k') (λ _ k2 same2. same2 ∙ same))

file_create-IsEmpty :
    {c : Held} {p : ℕ} (type : FileDescType) (flags : ℕ) (k : Kernel)
    → IsEmpty c p k
    → Post
        (λ f k'. IsEmpty c p k' × ((j : ℕ) → f ≡ some j → j < global_open_file_limit))
        (file_create type flags k)
file_create-IsEmpty {c} {p} type flags k e =
    mono (both (file_create-IsSound type flags k e.holds) (file_create-procs type flags k))
      (λ f k' ((s, new), same). (kept-IsEmpty e s same, below f k' new))
  where
    below :
        (f : Option ℕ) (k' : Kernel)
        → AreNew f k'
        → (j : ℕ) → f ≡ some j
        → j < global_open_file_limit
    below none k' new j h = cc
    below (some i) k' new j h =
        let same : i ≡ j = cc in subst (λ x. x < global_open_file_limit) same new.in_table

file_close-procs : (f : Option ℕ) (k : Kernel) → Post (λ _ k'. SameProcs k k') (file_close f k)
unfolding file_close update_file release_file
file_close-procs none k = returned refl
file_close-procs (some f) k = either ((k.file_table f).ref == 0) _ _ panicked (
    either ((k.file_table f).ref == 1) _ _
      (bind
        (posts (λ r k'. SameTables k k') (iput (k.file_table f).ip k)
          (λ r k' h. (iput-Leaves (k.file_table f).ip).same k r k' h))
        (λ _ k' same. returned same.1))
      (returned refl))

file_close-IsEmpty :
    {c : Held} {p : ℕ} (f : Option ℕ) (k : Kernel)
    → ((j : ℕ) → f ≡ some j → j < global_open_file_limit)
    → IsEmpty c p k
    → Post (λ _ k'. IsEmpty c p k') (file_close f k)
unfolding file_close
file_close-IsEmpty none k below e = returned e
file_close-IsEmpty (some f) k below e =
    mono (both (file_close-IsSound f k (below f refl) e.holds) (file_close-procs (some f) k))
      (λ _ k' (s, same). kept-IsEmpty e s same)

set_ofile-IsEmpty :
    {c : Held} {p : ℕ} (fd : ℕ) (f : Option ℕ) (k : Kernel)
    → ((j : ℕ) → f ≡ some j → j < global_open_file_limit)
    → IsEmpty c p k
    → IsEmpty c p (set_ofile p fd f k)
set_ofile-IsEmpty {p} fd f k below e = record {
  holds = set_ofile-IsSound p fd f k e.in_table below e.holds;
  in_table = e.in_table;
  no_cwd = ap (λ v. v.cwd) (upd_self k.procs p _) ∙ e.no_cwd;
}

-- All three are closed.
close_all-IsEmpty :
    {c : Held} {p : ℕ} (f0 f1 f2 : Option ℕ) (k : Kernel)
    → ((j : ℕ) → f0 ≡ some j → j < global_open_file_limit)
    → ((j : ℕ) → f1 ≡ some j → j < global_open_file_limit)
    → ((j : ℕ) → f2 ≡ some j → j < global_open_file_limit)
    → IsEmpty c p k
    → Post (λ _ k'. IsEmpty c p k') ((file_close f0 >> (file_close f1 >> file_close f2)) k)
close_all-IsEmpty f0 f1 f2 k b0 b1 b2 e =
    bind (file_close-IsEmpty f0 k b0 e)
      (λ _ k1 e1. bind (file_close-IsEmpty f1 k1 b1 e1) (λ _ k2 e2. file_close-IsEmpty f2 k2 b2 e2))

set_console-IsEmpty :
    {c : Held} {p : ℕ} (f0 f1 f2 : Option ℕ) (k : Kernel)
    → ((j : ℕ) → f0 ≡ some j → j < global_open_file_limit)
    → ((j : ℕ) → f1 ≡ some j → j < global_open_file_limit)
    → ((j : ℕ) → f2 ≡ some j → j < global_open_file_limit)
    → IsEmpty c p k
    → Post (λ _ k'. IsEmpty c p k') (set_console p f0 f1 f2 k)
unfolding set_console
set_console-IsEmpty (some f0) (some f1) (some f2) k b0 b1 b2 e = returned (
    set_ofile-IsEmpty 2 (some f2) _ b2
      (set_ofile-IsEmpty 1 (some f1) _ b1 (set_ofile-IsEmpty 0 (some f0) k b0 e)))
set_console-IsEmpty none f1 f2 k b0 b1 b2 e = close_all-IsEmpty none f1 f2 k b0 b1 b2 e
set_console-IsEmpty (some f0) none f2 k b0 b1 b2 e =
    close_all-IsEmpty (some f0) none f2 k b0 b1 b2 e
set_console-IsEmpty (some f0) (some f1) none k b0 b1 b2 e =
    close_all-IsEmpty (some f0) (some f1) none k b0 b1 b2 e

pub open_standard-IsEmpty :
    {c : Held} (p : ℕ) (k : Kernel)
    → IsEmpty c p k
    → Post (λ _ k'. IsEmpty c p k') (open_standard p k)
unfolding open_standard
open_standard-IsEmpty p k e = bind (file_create-IsEmpty fd_console _ k e) (λ f0 k0 (e0, b0).
    bind (file_create-IsEmpty fd_console _ k0 e0) (λ f1 k1 (e1, b1).
      bind (file_create-IsEmpty fd_console _ k1 e1)
        (λ f2 k2 (e2, b2). set_console-IsEmpty f0 f1 f2 k2 b0 b1 b2 e2)))

-- The slot takes over a reference to its directory.
with_cwd-IsSound :
    {c : Held} (p ip : ℕ) (path : List ℕ) (k : Kernel)
    → p < procs_max
    → (k.procs p).cwd ≡ none
    → IsSound (λ i. c i + one (some ip) i) k
    → IsSound c (with_cwd p ip path k)
with_cwd-IsSound p ip path k lp empty s =
    set_process-IsSound p _ lp (λ i. let x = ap (λ o. one o i) empty in omega arith)
      (λ fd f l e. s.opened p fd f lp l e) s

-- A reference is taken for the slot.
took_cwd-IsSound :
    {c : Held} (dev inum p : ℕ) (path : List ℕ) (k : Kernel)
    → IsEmpty c p k
    → Post (λ _ k'. IsSound c k') ((iget dev inum >>= λ ip. modify (with_cwd p ip path)) k)
took_cwd-IsSound {c} dev inum p path k e =
    bind
      (both (sound (iget-Uses dev inum c) (iget-Leaves dev inum) e.holds) (
        posts (λ r k'. SameTables k k') (iget dev inum k)
          (λ r k' h. (iget-Leaves dev inum).same k r k' h)))
      (λ ip k' (s, same).
        returned
          (with_cwd-IsSound p ip path k' e.in_table (ap (λ t. (t p).cwd) same.1 ∙ e.no_cwd) s))

pub inherit_cwd-IsSound :
    {c : Held} (p : ℕ) (cwd : Option ℕ) (path : List ℕ) (k : Kernel)
    → IsEmpty c p k
    → Post (λ _ k'. IsSound c k') (inherit_cwd p cwd path k)
unfolding inherit_cwd inode_of
inherit_cwd-IsSound {c} p none path k e = took_cwd-IsSound 0 1 p (slash ∷ []) k e
inherit_cwd-IsSound {c} p (some d) path k e =
    took_cwd-IsSound (k.inode_table d).dev (k.inode_table d).inum p path k e
