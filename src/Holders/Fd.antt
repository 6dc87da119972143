-- ===== src/Holders/Fd.antt =====
-- The references behind alloc_file_descriptor and fs_close of kernel/fs.c.
use dmaos.Base.{
  ℕ, ◌+◌, ◌<◌, ◌≡◌, ◌∙◌, refl, sym, subst, upd, ap, inl, inr, Bool-cases, if◌then◌else◌, Option,
  none, some, arith, upd_self, upd_ne, zero, suc, ltb, pos, negsuc, ℤ, ltb→lt,
}
use native.Mathlib.Decide.{ℕ_discrete}
use dmaos.Machine.{Kernel, ok, panic, fd_inode}
use dmaos.Machine.Consts.{global_open_file_limit, procs_max, num_files_per_process, filectrl_append}
use dmaos.Machine.Post.{Post, returned, panicked, bind}
use dmaos.Inode.{inode_of}
use dmaos.Inode.Cache.{one}
use dmaos.Inode.Uses.{Held, iput-Uses}
use dmaos.Tables.{iput-Leaves}
use dmaos.Files.{update_file, has_flag}
use dmaos.Fd.{
  current, is_none_type, set_ofile, free_fd, install_at, install, bind_inode, install_inode,
  alloc_file_descriptor, close_entry, fs_close, fd_entry, count_of,
}
use dmaos.Holders.{IsSound, set_file-IsSound, set_process-IsSound, sound}
use dmaos.Holders.Files.{AreNew, IsNew, in_use, file_create-IsSound, file_close-IsSound}

-- One round of the search.
free_fd_step :
    (fd rounds : ℕ) (here rest : Option ℕ) {r : ℕ}
    → (rest ≡ some r → r < fd + 1 + rounds)
    → elim here [ none ↦ some fd | some _ ↦ rest ] ≡ some r
    → r < fd + suc rounds
free_fd_step fd rounds none rest {r} below h = let same : fd ≡ r = cc in omega arith
free_fd_step fd rounds (some _) rest below h = let lt = below h in omega arith

free_fd-below :
    (ofile : ℕ → Option ℕ) (rounds fd : ℕ) {r : ℕ}
    → free_fd ofile rounds fd ≡ some r
    → r < fd + rounds
unfolding free_fd
free_fd-below ofile zero fd h = cc
free_fd-below ofile (suc rounds) fd {r} h =
    free_fd_step fd rounds (ofile fd) (free_fd ofile rounds (fd + 1))
      (λ e. free_fd-below ofile rounds (fd + 1) e) h

-- The current process is one of the table.
pub current-IsSound :
    {c : Held} (k : Kernel)
    → IsSound c k
    → Post (λ p k'. IsSound c k' × (p < procs_max) × (k' ≡ k)) (current k)
unfolding current
current-IsSound {c} k s = go k.current_proc refl
  where
    go :
        (o : Option ℕ)
        → k.current_proc ≡ o
        → Post
            (λ p k'. IsSound c k' × (p < procs_max) × (k' ≡ k))
            (elim o [ none ↦ panic | some p ↦ ok p k ])
    go none e = panicked
    go (some p) e = returned (s, s.running p e, refl)

-- A descriptor that is set to an entry of the table of files, or freed.
pub set_ofile-IsSound :
    {c : Held} (p fd : ℕ) (f : Option ℕ) (k : Kernel)
    → p < procs_max
    → ((j : ℕ) → f ≡ some j → j < global_open_file_limit)
    → IsSound c k
    → IsSound c (set_ofile p fd f k)
set_ofile-IsSound p fd f k lt below s =
    set_process-IsSound p _ lt (λ i. refl)
      (λ d j l e. elim (ℕ_discrete d fd) [
        | yes same ↦
            below j
              (sym (ap (upd (k.procs p).ofile fd f) same ∙ upd_self (k.procs p).ofile fd f) ∙ e)
        | no ne ↦ s.opened p d j lt l (sym (upd_ne (k.procs p).ofile fd d f ne) ∙ e)
      ])
      s

install_at-IsSound :
    {c : Held} (p f : ℕ) (fd : Option ℕ) (k : Kernel)
    → p < procs_max
    → f < global_open_file_limit
    → IsSound c k
    → Post (λ r k'. IsSound c k') (install_at p f fd k)
unfolding install_at
install_at-IsSound p f none k lp lf s = bind (file_close-IsSound f k lf s) (λ _ k' s'. returned s')
install_at-IsSound p f (some fd) k lp lf s = returned (
    set_ofile-IsSound p fd (some f) k lp
      (λ j e. let same : f ≡ j = cc in subst (λ x. x < global_open_file_limit) same lf) s)

pub install-IsSound :
    {c : Held} (f : ℕ) (k : Kernel)
    → f < global_open_file_limit
    → IsSound c k
    → Post (λ r k'. IsSound c k') (install f k)
unfolding install
install-IsSound f k lf s =
    bind (current-IsSound k s) (λ p k' (s', lp, _). install_at-IsSound p f _ k' lp lf s')

-- A descriptor in use names an entry of the table of files.
pub fd_entry-below :
    {c : Held} (k : Kernel) (p : ℕ) (fd : ℤ) {f : ℕ}
    → p < procs_max
    → IsSound c k
    → fd_entry k p fd ≡ some f
    → f < global_open_file_limit
fd_entry-below k p (negsuc n) lp s e = cc
fd_entry-below k p (pos fd) lp s e = elim (Bool-cases (ltb fd num_files_per_process)) [
  | inl lt ↦ s.opened p fd _ lp (ltb→lt fd num_files_per_process lt) (rw lt at e)
  | inr ge ↦ let e' = rw ge at e in cc
]

-- A new file takes over the reference to its inode.
bind_inode-IsSound :
    {c : Held} (f ip flags : ℕ) (k : Kernel)
    → IsNew f k
    → IsSound (λ i. c i + one (some ip) i) k
    → Post (λ r k'. IsSound c k') (bind_inode f ip flags k)
unfolding bind_inode inode_of update_file
bind_inode-IsSound f ip flags k n s =
    let v = record (k.file_table f) {
      ip = some ip;
      off = if has_flag flags filectrl_append then (k.inode_table ip).dinode.size else 0;
    } in
    returned (
      set_file-IsSound f v n.in_table
        (λ i.
          let used : 0 < (k.file_table f).ref = rw n.ref (omega arith) in
          let a = in_use v i used in
          let b = in_use (k.file_table f) i used in let d = ap (λ o. one o i) n.ip in omega arith)
        s)

install_inode-IsSound :
    {c : Held} (ip flags : ℕ) (f : Option ℕ) (k : Kernel)
    → IsSound (λ i. c i + one (some ip) i) k × AreNew f k
    → Post (λ r k'. IsSound c k') (install_inode ip flags f k)
unfolding install_inode
install_inode-IsSound {c} ip flags none k (s, n) =
    bind (sound (iput-Uses (some ip) c) (iput-Leaves (some ip)) s) (λ _ k' s'. returned s')
install_inode-IsSound ip flags (some f) k (s, n) =
    bind (bind_inode-IsSound f ip flags k n s) (λ _ k' s'. install-IsSound f k' n.in_table s')

-- The reference to the inode passes to the open file, or is given back.
pub alloc_file_descriptor-IsSound :
    {c : Held} (ip flags : ℕ) (k : Kernel)
    → IsSound (λ i. c i + one (some ip) i) k
    → Post (λ r k'. IsSound c k') (alloc_file_descriptor ip flags k)
unfolding alloc_file_descriptor
alloc_file_descriptor-IsSound ip flags k s =
    bind (file_create-IsSound fd_inode flags k s) (λ f k'. install_inode-IsSound ip flags f k')

close_entry-IsSound :
    {c : Held} (p fd : ℕ) (f : Option ℕ) (k : Kernel)
    → p < procs_max
    → ((j : ℕ) → f ≡ some j → j < global_open_file_limit)
    → IsSound c k
    → Post (λ r k'. IsSound c k') (close_entry p fd f k)
unfolding close_entry
close_entry-IsSound p fd none k lp below s = returned s
close_entry-IsSound p fd (some f) k lp below s =
    elim (Bool-cases (is_none_type (k.file_table f).type)) [
      | inl e ↦ rw e (returned s)
      | inr e ↦ rw e (
          bind
            (file_close-IsSound f _ (below f refl) (set_ofile-IsSound p fd none k lp (λ j n. cc) s))
            (λ _ k' s'. returned s'))
    ]

pub fs_close-IsSound :
    {c : Held} (fd : ℤ) (k : Kernel) → IsSound c k → Post (λ r k'. IsSound c k') (fs_close fd k)
unfolding fs_close
fs_close-IsSound fd k s = bind (current-IsSound k s) (λ p k' (s', lp, same).
    close_entry-IsSound p (count_of fd) _ k' lp (λ j e. fd_entry-below k' p fd lp s' e) s')
