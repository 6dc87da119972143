-- ===== src/Spawn/Create.antt =====
-- A new process and its references, kernel/process.c.
use dmaos.Base.{
  ℕ, zero, suc, ◌+◌, ◌<◌, ◌≡◌, ◌==◌, ◌&&◌, not, ltb, refl, inl, inr, Bool-cases, true, Option, none,
  some, List, [], ◌∷◌, length, arith, subst, ◌∙◌, upd_self, ap,
}
use dmaos.Machine.{Kernel, Process}
use dmaos.Machine.Consts.{procs_max}
use dmaos.Machine.Post.{Post, returned, panicked, bind, either, any_run}
use dmaos.Inode.Cache.{one}
use dmaos.Inode.Uses.{Held, iput-Uses}
use dmaos.Tables.{iput-Leaves}
use dmaos.Tables.Names.{namei-Leaves}
use dmaos.Names.Refs.{namei-Uses}
use dmaos.Process.{is_unused}
use dmaos.Fd.{set_process}
use dmaos.Page.{free_pages}
use dmaos.Holders.{IsSound, none_held, sound, set_process-IsSound, recounted}
use dmaos.Holders.Memory.{same_process, alloc_pages-Leaves, alloc_pages-Keeps}
use dmaos.Spawn.{
  unused_slot, load_program, open_program, find_program, is_program, fill_slot, create_process,
  parent_cwd,
}
use dmaos.Spawn.Effects.{IsEmpty, open_standard-IsEmpty, inherit_cwd-IsSound}
use dmaos.Spawn.Load.{
  push_args-Leaves, push_args-Keeps, fs_get_inode_size-Leaves, fs_get_inode_size-Keeps,
  kernel_space-Leaves, kernel_space-Keeps, load_pages-Leaves, load_pages-Keeps,
}

-- What holds after a process was made; nothing is said of a failure.
abbrev pub Made : Held → Option ℕ → Kernel → Type 0
Made c none k = Unit
Made c (some p) k = IsSound c k

unused_slot-unused :
    (procs : ℕ → Process) (rounds i : ℕ) {p : ℕ}
    → unused_slot procs rounds i ≡ some p
    → (p < i + rounds) × (is_unused (procs p).state ≡ true)
unfolding unused_slot
unused_slot-unused procs zero i h = cc
unused_slot-unused procs (suc rounds) i {p} h = elim (Bool-cases (is_unused (procs i).state)) [
  | inl e ↦
      let h' = rw e at h in
      let same : i ≡ p = cc in (omega arith, subst (λ j. is_unused (procs j).state ≡ true) same e)
  | inr e ↦ let ih = unused_slot-unused procs rounds (i + 1) (rw e at h) in (omega arith, ih.1)
]

parent_cwd-IsSound :
    {c : Held} (p : ℕ) (q : Option ℕ) (k : Kernel)
    → IsEmpty c p k
    → Post (λ _ k'. IsSound c k') (parent_cwd p q k)
unfolding parent_cwd
parent_cwd-IsSound p none k e = inherit_cwd-IsSound p none [] k e
parent_cwd-IsSound p (some q) k e = inherit_cwd-IsSound p _ _ k e

module _ (free_ram kernel_base : ℕ) where
  load_program-Made :
      {c : Held} (p t : ℕ) (image : List ℕ) (ip : Option ℕ) (size : ℕ) (args : List (List ℕ))
      (k : Kernel)
      → p < procs_max
      → IsSound (λ i. c i + one ip i) k
      → Post (Made c) (load_program free_ram kernel_base p t image ip size args k)
  unfolding load_program
  load_program-Made {c} p t image ip size args k lp s =
      bind
        (sound ((load_pages-Keeps free_ram kernel_base t image ip size _ 0 0).all _)
          (load_pages-Leaves free_ram kernel_base t image ip size _ 0 0) s)
        (λ last k1 s1. bind (sound (iput-Uses ip c) (iput-Leaves ip) s1) (λ _ k2 s2.
          bind
            (either (ltb 0 (length args) && not (last == 0)) _ _
              (sound ((push_args-Keeps size last args).all _) (push_args-Leaves size last args) s2)
              (returned s2))
            (λ _ k3 s3. returned (same_process p _ k3 lp refl refl s3))))

  open_program-Made :
      {c : Held} (p t : ℕ) (args : List (List ℕ)) (ip : Option ℕ) (k : Kernel)
      → p < procs_max
      → IsSound (λ i. c i + one ip i) k
      → Post (Made c) (open_program free_ram kernel_base p t args ip k)
  unfolding open_program
  open_program-Made p t args none k lp s =
      bind (any_run (free_pages free_ram t 1 k)) (λ _ k' _. returned tt)
  open_program-Made p t args (some ip) k lp s =
      bind
        (sound ((fs_get_inode_size-Keeps (some ip)).all _) (fs_get_inode_size-Leaves (some ip)) s)
        (λ size k' s'. load_program-Made p t [] (some ip) size args k' lp s')

  find_program-Made :
      {c : Held} (p t : ℕ) (image : Option (List ℕ)) (args : List (List ℕ)) (k : Kernel)
      → p < procs_max
      → IsSound c k
      → Post (Made c) (find_program free_ram kernel_base p t image args k)
  unfolding find_program
  find_program-Made p t (some image) args k lp s =
      load_program-Made p t image none (length image) args k lp (recounted s (λ i. omega arith))
  find_program-Made p t none [] k lp s =
      load_program-Made p t [] none 0 [] k lp (recounted s (λ i. omega arith))
  find_program-Made {c} p t none (arg ∷ args) k lp s =
      bind (sound (namei-Uses arg c) (namei-Leaves arg) s)
        (λ ip k' s'. open_program-Made p t (arg ∷ args) ip k' lp s')

  fill_slot-Made :
      {c : Held} (image : Option (List ℕ)) (args : List (List ℕ)) (p : ℕ) (k : Kernel)
      → IsEmpty c p k
      → Post (Made c) (fill_slot free_ram kernel_base image args (some p) k)
  unfolding fill_slot
  fill_slot-Made {c} image args p k e =
      bind
        (either (is_program free_ram kernel_base image args) _ _
          (open_standard-IsEmpty p _ (cleared p k e)) (returned (cleared p k e)))
        (λ _ k1 e1. bind (parent_cwd-IsSound p k1.current_proc k1 e1) (λ _ k2 s2.
          bind (sound ((alloc_pages-Keeps free_ram 1).all _) (alloc_pages-Leaves free_ram 1) s2)
            (λ t k3 s3.
              bind
                (sound ((kernel_space-Keeps free_ram kernel_base t).all _)
                  (kernel_space-Leaves free_ram kernel_base t) s3)
                (λ _ k4 s4. find_program-Made p t image args k4 e.in_table s4))))
    where
      cleared :
          (p : ℕ) (k : Kernel)
          → IsEmpty c p k
          → IsEmpty c p (set_process p (record (k.procs p) { ofile = λ _. none }) k)
      cleared p k e = record {
        holds =
            set_process-IsSound p (record (k.procs p) { ofile = λ _. none }) e.in_table (λ i. refl)
              (λ fd f l h. cc) e.holds;
        in_table = e.in_table;
        no_cwd = ap (λ v. v.cwd) (upd_self k.procs p _) ∙ e.no_cwd;
      }

  -- The table is full: PANIC.
  no_slot-Made :
      {c : Held} (image : Option (List ℕ)) (args : List (List ℕ)) (k : Kernel)
      → Post (Made c) (fill_slot free_ram kernel_base image args none k)
  unfolding fill_slot
  no_slot-Made image args k = panicked

  -- A process that `create_process` makes has its references accounted for: if no free slot of the table
  -- has a current directory, the references counted are those of the open files and the current
  -- directories before the call and after it.
  pub create_process-Made :
      (image : Option (List ℕ)) (args : List (List ℕ)) (k : Kernel)
      → IsSound none_held k
      → ((q : ℕ) → is_unused (k.procs q).state ≡ true → (k.procs q).cwd ≡ none)
      → Post (Made none_held) (create_process free_ram kernel_base image args k)
  unfolding create_process
  create_process-Made image args k s free = go (unused_slot k.procs procs_max 0) refl
    where
      go :
          (o : Option ℕ)
          → unused_slot k.procs procs_max 0 ≡ o
          → Post (Made none_held) (fill_slot free_ram kernel_base image args o k)
      go none e = no_slot-Made image args k
      go (some p) e =
          let (lt, idle) = unused_slot-unused k.procs procs_max 0 e in
          fill_slot-Made image args p k (record { holds = s; in_table = lt; no_cwd = free p idle })
