-- ===== src/Tables/Tree.antt =====
-- fs_mkdir, fs_rm, fs_stat, fs_chdir and the truncation of an opened file, of kernel/fs.c, touch
-- neither table.
use dmaos.Base.{ℕ, Option, none, some, List, ℤ}
use dmaos.FsTree.{
  release_both, mkdir_link, mkdir_fill, mkdir_new, mkdir_entry, mkdir_in, fs_mkdir, rm_inode,
  rm_entry, rm_in, fs_rm, stat_inode, fs_stat, chdir_inode, fs_chdir,
}
use dmaos.Fd.{truncate_if_asked}
use dmaos.Tables.{leaving, Leaves, pure-Leaves, iupdate-Leaves, ialloc-Leaves}
use dmaos.Tables.Content.{writei-Leaves, itrunc-Leaves}
use dmaos.Tables.Names.{
  caching, dirlookup-Leaves, dirlink-Leaves, is_dir_empty-Leaves, namex-Leaves, namei-Leaves,
}

release_both-Leaves : (ip dp : ℕ) (r : ℤ) → Leaves (release_both ip dp r)
release_both-Leaves ip dp r = search caching depth 20

mkdir_link-Leaves : (dp ip : ℕ) (name : List ℕ) → Leaves (mkdir_link dp ip name)
unfolding mkdir_link
mkdir_link-Leaves dp ip name = search (leaving, dirlink-Leaves, release_both-Leaves) depth 20

mkdir_fill-Leaves : (dp ip : ℕ) (name : List ℕ) → Leaves (mkdir_fill dp ip name)
unfolding mkdir_fill
mkdir_fill-Leaves dp ip name =
    search (leaving, writei-Leaves, mkdir_link-Leaves, release_both-Leaves) depth 20

mkdir_new-Leaves : (dp : ℕ) (name : List ℕ) (ip : Option ℕ) → Leaves (mkdir_new dp name ip)
unfolding mkdir_new
mkdir_new-Leaves dp name none = search caching depth 20
mkdir_new-Leaves dp name (some ip) = mkdir_fill-Leaves dp ip name

mkdir_entry-Leaves :
    (dp : ℕ) (name : List ℕ) (old : Option (ℕ × ℕ)) → Leaves (mkdir_entry dp name old)
unfolding mkdir_entry
mkdir_entry-Leaves dp name (some (ip, _)) = release_both-Leaves ip dp _
mkdir_entry-Leaves dp name none = search (leaving, ialloc-Leaves, mkdir_new-Leaves) depth 20

mkdir_in-Leaves : (dp : Option ℕ) (name : List ℕ) → Leaves (mkdir_in dp name)
unfolding mkdir_in
mkdir_in-Leaves none name = pure-Leaves _
mkdir_in-Leaves (some dp) name = search (caching, dirlookup-Leaves, mkdir_entry-Leaves) depth 20

pub fs_mkdir-Leaves : (path : List ℕ) → Leaves (fs_mkdir path)
unfolding fs_mkdir
fs_mkdir-Leaves path = search (leaving, namex-Leaves, mkdir_in-Leaves) depth 20

rm_inode-Leaves : (dp ip off : ℕ) → Leaves (rm_inode dp ip off)
unfolding rm_inode
rm_inode-Leaves dp ip off =
    search (leaving, writei-Leaves, itrunc-Leaves, iupdate-Leaves, release_both-Leaves) depth 20

rm_entry-Leaves : (dp : ℕ) (found : Option (ℕ × ℕ)) → Leaves (rm_entry dp found)
unfolding rm_entry
rm_entry-Leaves dp none = search caching depth 20
rm_entry-Leaves dp (some (ip, off)) =
    search (caching, is_dir_empty-Leaves, rm_inode-Leaves, release_both-Leaves) depth 20

rm_in-Leaves : (dp : Option ℕ) (name : List ℕ) → Leaves (rm_in dp name)
unfolding rm_in
rm_in-Leaves none name = pure-Leaves _
rm_in-Leaves (some dp) name = search (caching, dirlookup-Leaves, rm_entry-Leaves) depth 20

pub fs_rm-Leaves : (path : List ℕ) → Leaves (fs_rm path)
unfolding fs_rm
fs_rm-Leaves path = search (leaving, namex-Leaves, rm_in-Leaves) depth 20

stat_inode-Leaves : (ip : Option ℕ) → Leaves (stat_inode ip)
unfolding stat_inode
stat_inode-Leaves none = pure-Leaves _
stat_inode-Leaves (some ip) = search caching depth 20

pub fs_stat-Leaves : (path : List ℕ) → Leaves (fs_stat path)
unfolding fs_stat
fs_stat-Leaves path = search (leaving, namei-Leaves, stat_inode-Leaves) depth 20

chdir_inode-Leaves : (ip : Option ℕ) → Leaves (chdir_inode ip)
unfolding chdir_inode
chdir_inode-Leaves none = pure-Leaves _
chdir_inode-Leaves (some ip) = search caching depth 20

pub fs_chdir-Leaves : (path : List ℕ) → Leaves (fs_chdir path)
unfolding fs_chdir
fs_chdir-Leaves path = search (leaving, namei-Leaves, chdir_inode-Leaves) depth 20

pub truncate_if_asked-Leaves : (ip flags : ℕ) → Leaves (truncate_if_asked ip flags)
unfolding truncate_if_asked
truncate_if_asked-Leaves ip flags = search (leaving, itrunc-Leaves) depth 20
