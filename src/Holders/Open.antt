-- ===== src/Holders/Open.antt =====
-- The references behind fs_open and fs_create of kernel/fs.c.
use dmaos.Base.{
  ℕ, ◌+◌, ◌==◌, ◌&&◌, inl, inr, Bool-cases, Option, none, some, arith, is_neg, List, true,
}
use dmaos.Machine.{Kernel, ◌>>◌, fd_console}
use dmaos.Machine.Consts.{ft_file}
use dmaos.Machine.Post.{Post, returned, bind}
use dmaos.Inode.{inode_of, iput}
use dmaos.Inode.Cache.{one}
use dmaos.Inode.Uses.{Held, Keeps, keeping, iput-Uses, ilock-Keeps}
use dmaos.Tables.{iput-Leaves, ilock-Leaves, ialloc-Leaves}
use dmaos.Tables.Names.{namex-Leaves, namei-Leaves, dirlookup-Leaves, dirlink-Leaves}
use dmaos.Tables.Tree.{truncate_if_asked-Leaves}
use dmaos.Content.Uses.{itrunc-Keeps}
use dmaos.Dir.{ptr}
use dmaos.Dir.Uses.{dirlookup-Uses, dirlink-Keeps}
use dmaos.Names.Refs.{namex-Uses, namei-Uses}
use dmaos.FsTree.Uses.{ialloc-Uses}
use dmaos.Str.{strcmp, is_zero}
use dmaos.Files.{has_flag}
use dmaos.Fd.{
  open_mask, create_mask, console_name, alloc_file_descriptor, truncate_if_asked, create_link,
  create_entry, create_in, fs_create, open_console, open_inode, fs_open,
}
use dmaos.Holders.{IsSound, sound, recounted}
use dmaos.Holders.Files.{AreNew, file_create-IsSound}
use dmaos.Holders.Fd.{install-IsSound, alloc_file_descriptor-IsSound}

truncate_if_asked-Keeps : (ip flags : ℕ) → Keeps (truncate_if_asked ip flags)
unfolding truncate_if_asked
truncate_if_asked-Keeps ip flags = search (keeping, itrunc-Keeps) depth 20

-- The directory is given back, then the inode is opened.
after_dir_IsSound :
    {c : Held} (dp ip flags : ℕ) (k : Kernel)
    → IsSound (λ i. c i + one (some dp) i + one (some ip) i) k
    → Post (λ r k'. IsSound c k') ((iput (some dp) >> alloc_file_descriptor ip flags) k)
after_dir_IsSound {c} dp ip flags k s =
    bind
      (sound (iput-Uses (some dp) (λ i. c i + one (some ip) i)) (iput-Leaves (some dp))
        (recounted s (λ i. omega arith)))
      (λ _ k' s'. alloc_file_descriptor-IsSound ip flags k' s')

open_inode-IsSound :
    {c : Held} (flags : ℕ) (ip : Option ℕ) (k : Kernel)
    → IsSound (λ i. c i + one ip i) k
    → Post (λ r k'. IsSound c k') (open_inode flags ip k)
unfolding open_inode inode_of
open_inode-IsSound flags none k s = returned (recounted s (λ i. omega arith))
open_inode-IsSound {c} flags (some ip) k s =
    bind (sound ((ilock-Keeps (some ip)).all _) (ilock-Leaves (some ip)) s) (λ _ k' s'.
      elim (Bool-cases ((k'.inode_table ip).dev == 0 && has_flag flags open_mask)) [
        | inl e ↦ rw e (
            bind (sound (iput-Uses (some ip) c) (iput-Leaves (some ip)) s')
              (λ _ k2 s2. returned s2))
        | inr e ↦ rw e (
            bind
              (sound ((truncate_if_asked-Keeps ip flags).all _) (truncate_if_asked-Leaves ip flags)
                s')
              (λ _ k2 s2. alloc_file_descriptor-IsSound ip flags k2 s2))
      ])

open_console-IsSound :
    {c : Held} (f : Option ℕ) (k : Kernel)
    → IsSound c k × AreNew f k
    → Post (λ r k'. IsSound c k') (open_console f k)
unfolding open_console
open_console-IsSound none k (s, n) = returned s
open_console-IsSound (some f) k (s, n) = install-IsSound f k n.in_table s

pub fs_open-IsSound :
    {c : Held} (path : List ℕ) (flags : ℕ) (k : Kernel)
    → IsSound c k
    → Post (λ r k'. IsSound c k') (fs_open path flags k)
unfolding fs_open
fs_open-IsSound {c} path flags k s = elim (Bool-cases (is_zero (strcmp path console_name))) [
  | inl e ↦
      rw e (bind (file_create-IsSound fd_console flags k s) (λ f k'. open_console-IsSound f k'))
  | inr e ↦ rw e (
      bind (sound (namei-Uses path c) (namei-Leaves path) s)
        (λ ip k' s'. open_inode-IsSound flags ip k' s'))
]

create_link-IsSound :
    {c : Held} (dp : ℕ) (name : List ℕ) (flags : ℕ) (fresh : Option ℕ) (k : Kernel)
    → IsSound (λ i. c i + one (some dp) i + one fresh i) k
    → Post (λ r k'. IsSound c k') (create_link dp name flags fresh k)
unfolding create_link inode_of
create_link-IsSound {c} dp name flags none k s =
    bind (sound (iput-Uses (some dp) c) (iput-Leaves (some dp)) (recounted s (λ i. omega arith)))
      (λ _ k' s'. returned s')
create_link-IsSound {c} dp name flags (some ip) k s =
    bind (sound ((dirlink-Keeps dp name _).all _) (dirlink-Leaves dp name _) s) (λ r k' s'.
      elim (Bool-cases (is_neg r)) [
        | inl e ↦ rw e (
            bind (sound (iput-Uses (some ip) _) (iput-Leaves (some ip)) s') (λ _ k2 s2.
              bind (sound (iput-Uses (some dp) c) (iput-Leaves (some dp)) s2)
                (λ _ k3 s3. returned s3)))
        | inr e ↦ rw e (after_dir_IsSound dp ip flags k' s')
      ])

pub create_entry-IsSound :
    {c : Held} (dp : ℕ) (name : List ℕ) (flags : ℕ) (old : Option (ℕ × ℕ)) (k : Kernel)
    → IsSound (λ i. c i + one (some dp) i + one (ptr old) i) k
    → Post (λ r k'. IsSound c k') (create_entry dp name flags old k)
unfolding create_entry inode_of
create_entry-IsSound {c} dp name flags none k s =
    bind
      (sound (ialloc-Uses _ ft_file (λ i. c i + one (some dp) i)) (ialloc-Leaves _ ft_file)
        (recounted s (λ i. omega arith)))
      (λ fresh k' s'. create_link-IsSound dp name flags fresh k' s')
create_entry-IsSound dp name flags (some (ip, _)) k s =
    bind (sound ((ilock-Keeps (some ip)).all _) (ilock-Leaves (some ip)) s) (λ _ k1 s1.
      bind (sound ((truncate_if_asked-Keeps ip flags).all _) (truncate_if_asked-Leaves ip flags) s1)
        (λ _ k2 s2. after_dir_IsSound dp ip flags k2 s2))

create_in-IsSound :
    {c : Held} (dp : Option ℕ) (name : List ℕ) (flags : ℕ) (k : Kernel)
    → IsSound (λ i. c i + one dp i) k
    → Post (λ r k'. IsSound c k') (create_in dp name flags k)
unfolding create_in inode_of
create_in-IsSound none name flags k s = returned (recounted s (λ i. omega arith))
create_in-IsSound {c} (some dp) name flags k s =
    elim (Bool-cases ((k.inode_table dp).dev == 0 && has_flag flags create_mask)) [
      | inl e ↦
          rw e (
            bind (sound (iput-Uses (some dp) c) (iput-Leaves (some dp)) s) (λ _ k' s'. returned s'))
      | inr e ↦ rw e (
          bind (sound (dirlookup-Uses dp name _) (dirlookup-Leaves dp name) s)
            (λ old k' s'. create_entry-IsSound dp name flags old k' s'))
    ]

pub fs_create-IsSound :
    {c : Held} (path : List ℕ) (flags : ℕ) (k : Kernel)
    → IsSound c k
    → Post (λ r k'. IsSound c k') (fs_create path flags k)
unfolding fs_create
fs_create-IsSound {c} path flags k s =
    bind (sound (namex-Uses path true c) (namex-Leaves path true) s)
      (λ (dp, name) k' s'. create_in-IsSound dp name flags k' s')
