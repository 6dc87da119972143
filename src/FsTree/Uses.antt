-- ===== src/FsTree/Uses.antt =====
-- The references that fs_mkdir, fs_rm, fs_stat and fs_chdir of kernel/fs.c take and give back.
use dmaos.Base.{ℕ, zero, suc, ◌+◌, ◌≡◌, ◌==◌, refl, true, Option, none, some, List, ℤ, arith}
use dmaos.Machine.{Kernel, ok, pure, ◌>>◌}
use dmaos.Machine.Consts.{ft_directory, ft_unused}
use dmaos.Inode.{iput, ialloc, ialloc_scan, initialised}
use dmaos.Inode.Cache.{count, one}
use dmaos.Inode.Uses.{
  Held, Uses, pure-Uses, if-Uses, bind-Uses, recount, get-Keeps, inode_of-Keeps, ilock-Keeps,
  iget-Uses, iput-Uses, update_inode-Keeps, read_block-Keeps, write_block-Keeps, iupdate-Keeps,
  balanced,
}
use dmaos.Content.Uses.{writei-Keeps, itrunc-Keeps}
use dmaos.Dir.{ptr, whole}
use dmaos.Dir.Uses.{dirlookup-Uses, dirlink-Keeps, is_dir_empty-Keeps}
use dmaos.Names.Refs.{namex-Uses, namei-Uses}
use dmaos.FsTree.{
  release_both, mkdir_link, mkdir_fill, mkdir_new, mkdir_entry, mkdir_in, fs_mkdir, set_type,
  rm_inode, rm_entry, rm_in, fs_rm, stat_inode, fs_stat, chdir_inode, fs_chdir,
}

abbrev and_one : Held → Option ℕ → Held
and_one c ip i = c i + one ip i

abbrev to_inode : Held → ℕ → Held
to_inode c ip = and_one c (some ip)

ialloc_scan-Uses :
    (dev type rounds inum : ℕ) (c : Held) → Uses c (ialloc_scan dev type rounds inum) (and_one c)
unfolding ialloc_scan
ialloc_scan-Uses dev type zero inum c = recount (pure-Uses none (and_one c)) (λ i. omega arith)
ialloc_scan-Uses dev type (suc rounds) inum c = bind-Uses (get-Keeps.all c) (λ k.
    bind-Uses ((read_block-Keeps _ _).all c) (λ buf.
      if-Uses _
        (bind-Uses ((write_block-Keeps _ _ _).all c) (λ _. bind-Uses (iget-Uses dev inum c) (λ ip.
          bind-Uses ((update_inode-Keeps ip (λ n. initialised n type) (λ n. refl)).all _)
            (λ _. pure-Uses (some ip) (and_one c)))))
        (ialloc_scan-Uses dev type rounds (inum + 1) c)))

pub ialloc-Uses : (dev type : ℕ) (c : Held) → Uses c (ialloc dev type) (and_one c)
unfolding ialloc
ialloc-Uses dev type c = bind-Uses (get-Keeps.all c) (λ k. ialloc_scan-Uses dev type _ 1 c)

release_both-Uses :
    (ip dp : ℕ) (r : ℤ) (c : Held)
    → Uses (to_inode (to_inode c dp) ip) (release_both ip dp r) (λ _. c)
release_both-Uses ip dp r c =
    bind-Uses (iput-Uses (some ip) _)
      (λ _. bind-Uses (iput-Uses (some dp) c) (λ _. pure-Uses r (λ _. c)))

-- Gives the directory back and returns an error.
iput-then-Uses :
    (dp : ℕ) (r : ℤ) (c : Held) → Uses (to_inode c dp) (iput (some dp) >> pure r) (λ _. c)
iput-then-Uses dp r c = bind-Uses (iput-Uses (some dp) c) (λ _. pure-Uses r (λ _. c))

mkdir_link-Uses :
    (dp ip : ℕ) (name : List ℕ) (c : Held)
    → Uses (to_inode (to_inode c dp) ip) (mkdir_link dp ip name) (λ _. c)
unfolding mkdir_link
mkdir_link-Uses dp ip name c =
    bind-Uses ((inode_of-Keeps ip).all _)
      (λ n. bind-Uses ((dirlink-Keeps dp name n.inum).all _) (λ r. release_both-Uses ip dp _ c))

mkdir_fill-Uses :
    (dp ip : ℕ) (name : List ℕ) (c : Held)
    → Uses (to_inode (to_inode c dp) ip) (mkdir_fill dp ip name) (λ _. c)
unfolding mkdir_fill
mkdir_fill-Uses dp ip name c = bind-Uses ((inode_of-Keeps ip).all _) (λ n.
    bind-Uses ((writei-Keeps (some ip) _ _ _).all _) (λ w.
      bind-Uses ((inode_of-Keeps dp).all _) (λ d.
        if-Uses (whole w)
          (bind-Uses ((writei-Keeps (some ip) _ _ _).all _)
            (λ w2. if-Uses (whole w2) (mkdir_link-Uses dp ip name c) (release_both-Uses ip dp _ c)))
          (release_both-Uses ip dp _ c))))

mkdir_new-Uses :
    (dp : ℕ) (name : List ℕ) (ip : Option ℕ) (c : Held)
    → Uses (and_one (to_inode c dp) ip) (mkdir_new dp name ip) (λ _. c)
unfolding mkdir_new
mkdir_new-Uses dp name none c = recount (iput-then-Uses dp _ c) (λ i. omega arith)
mkdir_new-Uses dp name (some ip) c = mkdir_fill-Uses dp ip name c

mkdir_entry-Uses :
    (dp : ℕ) (name : List ℕ) (old : Option (ℕ × ℕ)) (c : Held)
    → Uses (and_one (to_inode c dp) (ptr old)) (mkdir_entry dp name old) (λ _. c)
unfolding mkdir_entry
mkdir_entry-Uses dp name (some (ip, _)) c = release_both-Uses ip dp _ c
mkdir_entry-Uses dp name none c =
    recount
      (bind-Uses ((inode_of-Keeps dp).all (to_inode c dp)) (λ d.
        bind-Uses (ialloc-Uses d.dev ft_directory (to_inode c dp))
          (λ ip. mkdir_new-Uses dp name ip c)))
      (λ i. omega arith)

mkdir_in-Uses :
    (dp : Option ℕ) (name : List ℕ) (c : Held) → Uses (and_one c dp) (mkdir_in dp name) (λ _. c)
unfolding mkdir_in
mkdir_in-Uses none name c = recount (pure-Uses _ (λ _. c)) (λ i. omega arith)
mkdir_in-Uses (some dp) name c = bind-Uses ((inode_of-Keeps dp).all _) (λ d.
    if-Uses (d.dev == 0) (iput-then-Uses dp _ c)
      (bind-Uses (dirlookup-Uses dp name _) (λ old. mkdir_entry-Uses dp name old c)))

pub fs_mkdir-Uses : (path : List ℕ) (c : Held) → Uses c (fs_mkdir path) (λ _. c)
unfolding fs_mkdir
fs_mkdir-Uses path c = bind-Uses (namex-Uses path true c) (λ (dp, name). mkdir_in-Uses dp name c)

-- `fs_mkdir` gives back every reference that it takes, whether it succeeds or fails: if it returns,
-- every slot of the inode cache has as many references as before.
pub fs_mkdir-count :
    (path : List ℕ) (k : Kernel) {r : ℤ} {k' : Kernel} (i : ℕ)
    → fs_mkdir path k ≡ ok r k'
    → count k' i ≡ count k i
fs_mkdir-count path k i h = let x = balanced i (fs_mkdir-Uses path (λ _. 0)) h in omega arith

rm_inode-Uses :
    (dp ip off : ℕ) (c : Held) → Uses (to_inode (to_inode c dp) ip) (rm_inode dp ip off) (λ _. c)
unfolding rm_inode
rm_inode-Uses dp ip off c = bind-Uses ((writei-Keeps (some dp) _ _ _).all _) (λ w.
    if-Uses (whole w)
      (bind-Uses ((itrunc-Keeps (some ip) 0).all _) (λ _.
        bind-Uses ((update_inode-Keeps ip (λ n. set_type n ft_unused) (λ n. refl)).all _)
          (λ _. bind-Uses ((iupdate-Keeps ip).all _) (λ _. release_both-Uses ip dp _ c))))
      (release_both-Uses ip dp _ c))

rm_entry-Uses :
    (dp : ℕ) (found : Option (ℕ × ℕ)) (c : Held)
    → Uses (and_one (to_inode c dp) (ptr found)) (rm_entry dp found) (λ _. c)
unfolding rm_entry
rm_entry-Uses dp none c = recount (iput-then-Uses dp _ c) (λ i. omega arith)
rm_entry-Uses dp (some (ip, off)) c = bind-Uses ((ilock-Keeps (some ip)).all _) (λ _.
    bind-Uses ((inode_of-Keeps ip).all _) (λ n.
      if-Uses (n.dinode.type == ft_directory)
        (bind-Uses ((is_dir_empty-Keeps ip).all _) (λ none_left.
          if-Uses none_left (rm_inode-Uses dp ip off c) (release_both-Uses ip dp _ c)))
        (rm_inode-Uses dp ip off c)))

rm_in-Uses :
    (dp : Option ℕ) (name : List ℕ) (c : Held) → Uses (and_one c dp) (rm_in dp name) (λ _. c)
unfolding rm_in
rm_in-Uses none name c = recount (pure-Uses _ (λ _. c)) (λ i. omega arith)
rm_in-Uses (some dp) name c = bind-Uses ((inode_of-Keeps dp).all _) (λ d.
    if-Uses (d.dev == 0) (iput-then-Uses dp _ c)
      (bind-Uses (dirlookup-Uses dp name _) (λ found. rm_entry-Uses dp found c)))

pub fs_rm-Uses : (path : List ℕ) (c : Held) → Uses c (fs_rm path) (λ _. c)
unfolding fs_rm
fs_rm-Uses path c = bind-Uses (namex-Uses path true c) (λ (dp, name). rm_in-Uses dp name c)

-- `fs_rm` gives back every reference that it takes, whether it succeeds or fails: if it returns, every
-- slot of the inode cache has as many references as before.
pub fs_rm-count :
    (path : List ℕ) (k : Kernel) {r : ℤ} {k' : Kernel} (i : ℕ)
    → fs_rm path k ≡ ok r k'
    → count k' i ≡ count k i
fs_rm-count path k i h = let x = balanced i (fs_rm-Uses path (λ _. 0)) h in omega arith

stat_inode-Uses : (ip : Option ℕ) (c : Held) → Uses (and_one c ip) (stat_inode ip) (λ _. c)
unfolding stat_inode
stat_inode-Uses none c = recount (pure-Uses _ (λ _. c)) (λ i. omega arith)
stat_inode-Uses (some ip) c = bind-Uses ((ilock-Keeps (some ip)).all _) (λ _.
    bind-Uses ((inode_of-Keeps ip).all _)
      (λ n. bind-Uses (iput-Uses (some ip) c) (λ _. pure-Uses _ (λ _. c))))

pub fs_stat-Uses : (path : List ℕ) (c : Held) → Uses c (fs_stat path) (λ _. c)
unfolding fs_stat
fs_stat-Uses path c = bind-Uses (namei-Uses path c) (λ ip. stat_inode-Uses ip c)

-- `fs_stat` gives back every reference that it takes: if it returns, every slot of the inode cache has
-- as many references as before.
pub fs_stat-count :
    (path : List ℕ) (k : Kernel) {r : ℤ × Option (ℕ × ℤ)} {k' : Kernel} (i : ℕ)
    → fs_stat path k ≡ ok r k'
    → count k' i ≡ count k i
fs_stat-count path k i h = let x = balanced i (fs_stat-Uses path (λ _. 0)) h in omega arith

chdir_inode-Uses :
    (ip : Option ℕ) (c : Held) → Uses (and_one c ip) (chdir_inode ip) (λ r. and_one c r.1)
unfolding chdir_inode
chdir_inode-Uses none c = pure-Uses _ (λ r. and_one c r.1)
chdir_inode-Uses (some ip) c = bind-Uses ((ilock-Keeps (some ip)).all _) (λ _.
    bind-Uses ((inode_of-Keeps ip).all _) (λ n.
      if-Uses (n.dinode.type == ft_directory) (pure-Uses _ (λ r. and_one c r.1)) (
        bind-Uses (iput-Uses (some ip) c)
          (λ _. recount (pure-Uses _ (λ r. and_one c r.1)) (λ i. omega arith)))))

pub fs_chdir-Uses : (path : List ℕ) (c : Held) → Uses c (fs_chdir path) (λ r. and_one c r.1)
unfolding fs_chdir
fs_chdir-Uses path c = bind-Uses (namei-Uses path c) (λ ip. chdir_inode-Uses ip c)

-- `fs_chdir` keeps exactly one reference, to the inode that it stores in `*pip`; if it stores none, it
-- keeps none.
pub fs_chdir-count :
    (path : List ℕ) (k : Kernel) {r : ℤ × Option ℕ} {k' : Kernel} (i : ℕ)
    → fs_chdir path k ≡ ok r k'
    → count k' i ≡ count k i + one r.1 i
fs_chdir-count path k i h = let x = balanced i (fs_chdir-Uses path (λ _. 0)) h in omega arith
