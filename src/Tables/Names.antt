-- ===== src/Tables/Names.antt =====
-- dirlookup, dirlink, is_dir_empty, namex and namei of kernel/fs.c touch neither table.
use dmaos.Base.{ℕ, zero, suc, Bool, true, false, Option, none, some, List}
use dmaos.Machine.{Mount, M}
use dmaos.Dir.{
  Found, entry, absent, unreadable, dir_scan, found_inode, dirlookup, link_at, link_found, link_new,
  dirlink, is_dir_empty,
}
use dmaos.Names.{
  follow, namex_round, enter, reopen, climb, switch_root, arrive, path_end, mount_parent, or_lookup,
  cross_mount, walk, namex_loop, start_inode, namex, namei, skipto,
}
use dmaos.Tables.{leaving, Leaves, pure-Leaves, ilock-Leaves, iput-Leaves, iget-Leaves}
use dmaos.Tables.Content.{readi-Leaves, writei-Leaves}

-- The rules for code on the inode cache.
pub ruleset caching = (leaving, ilock-Leaves, iput-Leaves, iget-Leaves)

dir_scan-Leaves :
    (dp : ℕ) (matches : ℕ → List ℕ → Bool) (rounds off : ℕ)
    → Leaves (dir_scan dp matches rounds off)
unfolding dir_scan
dir_scan-Leaves dp matches zero off = pure-Leaves _
dir_scan-Leaves dp matches (suc rounds) off =
    search (caching, readi-Leaves, dir_scan-Leaves dp matches rounds) depth 20

found_inode-Leaves : (dev : ℕ) (found : Found) → Leaves (found_inode dev found)
unfolding found_inode
found_inode-Leaves dev (entry off inum) = search caching depth 20
found_inode-Leaves dev absent = pure-Leaves _
found_inode-Leaves dev unreadable = pure-Leaves _

pub dirlookup-Leaves : (dp : ℕ) (name : List ℕ) → Leaves (dirlookup dp name)
unfolding dirlookup
dirlookup-Leaves dp name = search (caching, dir_scan-Leaves, found_inode-Leaves) depth 20

link_at-Leaves : (dp : ℕ) (name : List ℕ) (inum off : ℕ) → Leaves (link_at dp name inum off)
unfolding link_at
link_at-Leaves dp name inum off = search (leaving, writei-Leaves) depth 20

link_found-Leaves :
    (dp : ℕ) (name : List ℕ) (inum end : ℕ) (found : Found)
    → Leaves (link_found dp name inum end found)
unfolding link_found
link_found-Leaves dp name inum end (entry off n) = link_at-Leaves dp name inum off
link_found-Leaves dp name inum end absent = link_at-Leaves dp name inum end
link_found-Leaves dp name inum end unreadable = pure-Leaves _

link_new-Leaves :
    (dp : ℕ) (name : List ℕ) (inum : ℕ) (old : Option (ℕ × ℕ)) → Leaves (link_new dp name inum old)
unfolding link_new
link_new-Leaves dp name inum (some (ip, off)) = search caching depth 20
link_new-Leaves dp name inum none = search (caching, dir_scan-Leaves, link_found-Leaves) depth 20

pub dirlink-Leaves : (dp : ℕ) (name : List ℕ) (inum : ℕ) → Leaves (dirlink dp name inum)
unfolding dirlink
dirlink-Leaves dp name inum = search (leaving, dirlookup-Leaves, link_new-Leaves) depth 20

pub is_dir_empty-Leaves : (ip : ℕ) → Leaves (is_dir_empty ip)
unfolding is_dir_empty
is_dir_empty-Leaves ip = search (leaving, dir_scan-Leaves) depth 20

climb-Leaves : (m : Option Mount) → Leaves (climb m)
unfolding climb
climb-Leaves none = pure-Leaves _
climb-Leaves (some m) = search (caching, dirlookup-Leaves) depth 20

mount_parent-Leaves : (ip : ℕ) (name : List ℕ) → Leaves (mount_parent ip name)
unfolding mount_parent
mount_parent-Leaves ip name = search (leaving, climb-Leaves) depth 20

or_lookup-Leaves : (next : Option ℕ) (ip : ℕ) (name : List ℕ) → Leaves (or_lookup next ip name)
unfolding or_lookup
or_lookup-Leaves (some j) ip name = pure-Leaves _
or_lookup-Leaves none ip name = search (leaving, dirlookup-Leaves) depth 20

switch_root-Leaves : (next : ℕ) (m : Option Mount) → Leaves (switch_root next m)
unfolding switch_root
switch_root-Leaves next none = pure-Leaves _
switch_root-Leaves next (some m) = search caching depth 20

cross_mount-Leaves : (next : ℕ) → Leaves (cross_mount next)
unfolding cross_mount
cross_mount-Leaves next = search (leaving, switch_root-Leaves) depth 20

arrive-Leaves : (ip : ℕ) (next : Option ℕ) → Leaves (arrive ip next)
unfolding arrive
arrive-Leaves ip none = search caching depth 20
arrive-Leaves ip (some next) = search (caching, cross_mount-Leaves) depth 20

walk-Leaves : (ip : ℕ) (name : List ℕ) → Leaves (walk ip name)
unfolding walk
walk-Leaves ip name =
    search (leaving, mount_parent-Leaves, or_lookup-Leaves, arrive-Leaves) depth 20

path_end-Leaves : (parent : Bool) (ip : ℕ) (name : List ℕ) → Leaves (path_end parent ip name)
unfolding path_end
path_end-Leaves true ip name = search caching depth 20
path_end-Leaves false ip name = pure-Leaves _

follow-Leaves :
    (rest : ℕ → M (Option ℕ × List ℕ)) (name : List ℕ) (next : Option ℕ)
    → ((j : ℕ) → Leaves (rest j))
    → Leaves (follow rest name next)
unfolding follow
follow-Leaves rest name none good = pure-Leaves _
follow-Leaves rest name (some j) good = good j

namex_round-Leaves :
    (parent : Bool) (rest : ℕ → List ℕ → List ℕ → M (Option ℕ × List ℕ)) (ip : ℕ) (name : List ℕ)
    (next : Option (List ℕ × List ℕ))
    → ((j : ℕ) (p n : List ℕ) → Leaves (rest j p n))
    → Leaves (namex_round parent rest ip name next)
unfolding namex_round enter
namex_round-Leaves parent rest ip name none good = path_end-Leaves parent ip name
namex_round-Leaves parent rest ip name (some (p, n)) good =
    let on : (next : Option ℕ) → Leaves (follow (λ j. rest j p n) n next) =
      λ next. follow-Leaves (λ j. rest j p n) n next (λ j. good j p n) in
    search (caching, walk-Leaves, on) depth 20

namex_loop-Leaves :
    (parent : Bool) (rounds ip : ℕ) (path name : List ℕ)
    → Leaves (namex_loop parent rounds ip path name)
unfolding namex_loop
namex_loop-Leaves parent zero ip path name = path_end-Leaves parent ip name
namex_loop-Leaves parent (suc rounds) ip path name =
    namex_round-Leaves parent (λ j p n. namex_loop parent rounds j p n) ip name (skipto path)
      (namex_loop-Leaves parent rounds)

reopen-Leaves : (cwd : Option ℕ) → Leaves (reopen cwd)
unfolding reopen
reopen-Leaves none = iget-Leaves 0 1
reopen-Leaves (some ip) = search caching depth 20

start_inode-Leaves : (path : List ℕ) → Leaves (start_inode path)
unfolding start_inode
start_inode-Leaves path = search (caching, reopen-Leaves) depth 20

pub namex-Leaves : (path : List ℕ) (parent : Bool) → Leaves (namex path parent)
unfolding namex
namex-Leaves path parent = search (leaving, start_inode-Leaves, namex_loop-Leaves) depth 20

pub namei-Leaves : (path : List ℕ) → Leaves (namei path)
unfolding namei
namei-Leaves path = search (leaving, namex-Leaves) depth 20
