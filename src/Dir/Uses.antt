-- ===== src/Dir/Uses.antt =====
-- The references of dirlookup, dirlink and is_dir_empty of kernel/fs.c.
use dmaos.Base.{ℕ, zero, suc, ◌+◌, Bool, Option, some, none, List, arith, ◌==◌}
use dmaos.Machine.Consts.{ft_directory}
use dmaos.Inode.Cache.{one}
use dmaos.Dir.{
  Found, entry, absent, unreadable, dir_scan, found_inode, ptr, dirlookup, link_at, link_found,
  link_new, dirlink, is_dir_empty,
}
use dmaos.Inode.Uses.{
  Held, pure-Uses, if-Uses, bind-Uses, recount, inode_of-Keeps, ilock-Keeps, keeping, pure-Keeps,
  Keeps, iput-Uses, iget-Uses, Uses,
}
use dmaos.Content.Uses.{readi-Keeps, writei-Keeps}

dir_scan-Keeps :
    (dp : ℕ) (matches : ℕ → List ℕ → Bool) (rounds off : ℕ) → Keeps (dir_scan dp matches rounds off)
unfolding dir_scan
dir_scan-Keeps dp matches zero off = pure-Keeps _
dir_scan-Keeps dp matches (suc rounds) off =
    search (keeping, readi-Keeps, dir_scan-Keeps dp matches rounds) depth 20

-- Code that changes no count, before code that does.
found_inode-Uses :
    (dev : ℕ) (found : Found) (c : Held)
    → Uses c (found_inode dev found) (λ r i. c i + one (ptr r) i)
unfolding found_inode
found_inode-Uses dev (entry off inum) c =
    bind-Uses (iget-Uses dev inum c) (λ ip. pure-Uses (some (ip, off)) (λ r i. c i + one (ptr r) i))
found_inode-Uses dev absent c =
    recount (pure-Uses none (λ r i. c i + one (ptr r) i)) (λ i. omega arith)
found_inode-Uses dev unreadable c =
    recount (pure-Uses none (λ r i. c i + one (ptr r) i)) (λ i. omega arith)

pub dirlookup-Uses :
    (dp : ℕ) (name : List ℕ) (c : Held) → Uses c (dirlookup dp name) (λ r i. c i + one (ptr r) i)
unfolding dirlookup
dirlookup-Uses dp name c = bind-Uses ((inode_of-Keeps dp).all c) (λ d.
    if-Uses (d.dinode.type == ft_directory)
      (bind-Uses ((ilock-Keeps (some dp)).all c) (λ _.
        bind-Uses ((inode_of-Keeps dp).all c)
          (λ n. bind-Uses ((dir_scan-Keeps dp _ _ 0).all c) (λ found. found_inode-Uses _ found c))))
      (recount (pure-Uses none (λ r i. c i + one (ptr r) i)) (λ i. omega arith)))

link_at-Keeps : (dp : ℕ) (name : List ℕ) (inum off : ℕ) → Keeps (link_at dp name inum off)
unfolding link_at
link_at-Keeps dp name inum off = search (keeping, writei-Keeps) depth 20

link_found-Keeps :
    (dp : ℕ) (name : List ℕ) (inum end : ℕ) (found : Found)
    → Keeps (link_found dp name inum end found)
unfolding link_found
link_found-Keeps dp name inum end (entry off n) = link_at-Keeps dp name inum off
link_found-Keeps dp name inum end absent = link_at-Keeps dp name inum end
link_found-Keeps dp name inum end unreadable = pure-Keeps _

-- A reference to an entry that is there already is given back.
link_new-Uses :
    (dp : ℕ) (name : List ℕ) (inum : ℕ) (old : Option (ℕ × ℕ)) (c : Held)
    → Uses (λ i. c i + one (ptr old) i) (link_new dp name inum old) (λ _. c)
unfolding link_new
link_new-Uses dp name inum (some (ip, off)) c =
    bind-Uses (iput-Uses (some ip) c) (λ _. pure-Uses _ (λ _. c))
link_new-Uses dp name inum none c =
    let rest : Keeps (link_new dp name inum none) =
      search (keeping, dir_scan-Keeps, link_found-Keeps) depth 20 in
    recount (rest.all c) (λ i. omega arith)

pub dirlink-Keeps : (dp : ℕ) (name : List ℕ) (inum : ℕ) → Keeps (dirlink dp name inum)
unfolding dirlink
dirlink-Keeps dp name inum = record {
  all = λ c. bind-Uses (dirlookup-Uses dp name c) (λ old. link_new-Uses dp name inum old c);
}

pub is_dir_empty-Keeps : (ip : ℕ) → Keeps (is_dir_empty ip)
unfolding is_dir_empty
is_dir_empty-Keeps ip = search (keeping, dir_scan-Keeps) depth 20
