-- ===== src/FsTree.antt =====
-- The calls of kernel/fs.c on path names: fs_mkdir, fs_rm, fs_stat, fs_chdir, the listing of the
-- root directory, and fs_init.
pub mod Uses
use dmaos.Base.{
  ℕ, ◌==◌, if◌then◌else◌, Bool, true, Option, none, some, List, [], ◌∷◌, ◌++◌, Bytes, get32, ℤ, pos,
  is_neg, upd, signed32,
}
use dmaos.Machine.{Kernel, Inode, Superblock, Mount, M, pure, stop, ◌>>=◌, ◌>>◌, modify}
use dmaos.Machine.Consts.{
  sizeof_fsdirent, ft_unused, ft_directory, xv6_fs_magic, err_not_found, err_io,
  err_permission_denied, err_already_exists, err_not_a_directory, err_no_space,
  err_directory_not_empty,
}
use dmaos.Block.{read_block}
use dmaos.Str.{strncpy}
use dmaos.Inode.{update_inode, inode_of, set_inode, ilock, iput, ialloc, iupdate}
use dmaos.Content.{writei, itrunc}
use dmaos.Dir.{dirlookup, dirlink, is_dir_empty, dirent, whole, dot, dotdot}
use dmaos.Names.{namex, namei}

-- Gives both inodes back and returns `r`.
abbrev pub release_both : ℕ → ℕ → ℤ → M ℤ
release_both ip dp r = do iput (some ip); iput (some dp); pure r

-- A name in 30 bytes, the last of them 0: `memset` and `strncpy` of 29 bytes.
abbrev pub short_name : List ℕ → List ℕ
short_name name = strncpy name 29 ++ (0 ∷ [])

-- The end of `fs_mkdir`: the new directory's entry in its parent.
unfoldable pub mkdir_link : ℕ → ℕ → List ℕ → M ℤ
mkdir_link dp ip name = do
  n ← inode_of ip
  r ← dirlink dp name n.inum
  release_both ip dp (if is_neg r then err_no_space else pos 0)

-- The entries "." and ".." of the new directory `ip`.
unfoldable pub mkdir_fill : ℕ → ℕ → List ℕ → M ℤ
mkdir_fill dp ip name = do
  n ← inode_of ip
  w ← writei (some ip) (dirent n.inum (short_name dot)) 0 sizeof_fsdirent
  d ← inode_of dp
  let second = do
    w2 ← writei (some ip) (dirent d.inum (short_name dotdot)) sizeof_fsdirent sizeof_fsdirent
    if whole w2 then mkdir_link dp ip name else release_both ip dp err_no_space
  if whole w then second else release_both ip dp err_no_space

unfoldable pub mkdir_new : ℕ → List ℕ → Option ℕ → M ℤ
mkdir_new dp name none = do iput (some dp); pure err_no_space
mkdir_new dp name (some ip) = mkdir_fill dp ip name

-- The name must not be there yet.
unfoldable pub mkdir_entry : ℕ → List ℕ → Option (ℕ × ℕ) → M ℤ
mkdir_entry dp name (some (ip, _)) = release_both ip dp err_already_exists
mkdir_entry dp name none = do d ← inode_of dp; ip ← ialloc d.dev ft_directory; mkdir_new dp name ip

unfoldable pub mkdir_in : Option ℕ → List ℕ → M ℤ
mkdir_in none name = pure err_not_found
mkdir_in (some dp) name = do
  d ← inode_of dp
  let find = do old ← dirlookup dp name; mkdir_entry dp name old
  if d.dev == 0 then (do iput (some dp); pure err_permission_denied) else find

unfoldable pub fs_mkdir : List ℕ → M ℤ
fs_mkdir path = do (parent, file_part) ← namex path true; mkdir_in parent file_part

abbrev pub set_type : Inode → ℕ → Inode
set_type n type = record n { dinode = record (n.dinode) { type = type } }

-- The end of `fs_rm`: the entry at `off` is cleared, then the inode is freed.
unfoldable pub rm_inode : ℕ → ℕ → ℕ → M ℤ
rm_inode dp ip off = do
  w ← writei (some dp) (dirent 0 []) off sizeof_fsdirent
  let drop_inode = do
    itrunc (some ip) 0
    update_inode ip (λ n. set_type n ft_unused)
    iupdate ip
    release_both ip dp (pos 0)
  if whole w then drop_inode else release_both ip dp err_io

-- A directory must be empty.
unfoldable pub rm_entry : ℕ → Option (ℕ × ℕ) → M ℤ
rm_entry dp none = do iput (some dp); pure err_not_found
rm_entry dp (some (ip, off)) = do
  ilock (some ip)
  n ← inode_of ip
  let directory = do
    none_left ← is_dir_empty ip
    if none_left then rm_inode dp ip off else release_both ip dp err_directory_not_empty
  if n.dinode.type == ft_directory then directory else rm_inode dp ip off

unfoldable pub rm_in : Option ℕ → List ℕ → M ℤ
rm_in none name = pure err_not_found
rm_in (some dp) name = do
  d ← inode_of dp
  let find = do found ← dirlookup dp name; rm_entry dp found
  if d.dev == 0 then (do iput (some dp); pure err_permission_denied) else find

unfoldable pub fs_rm : List ℕ → M ℤ
fs_rm path = do (parent, file_part) ← namex path true; rm_in parent file_part

unfoldable pub stat_inode : Option ℕ → M (ℤ × Option (ℕ × ℤ))
stat_inode none = pure (err_not_found, none)
stat_inode (some ip) = do
  ilock (some ip)
  n ← inode_of ip
  iput (some ip)
  pure (pos 0, some (n.dinode.type, signed32 n.dinode.size))

-- The result, and `st->type` and `st->size` where they are set.
unfoldable pub fs_stat : List ℕ → M (ℤ × Option (ℕ × ℤ))
fs_stat path = do ip ← namei path; stat_inode ip

unfoldable pub chdir_inode : Option ℕ → M (ℤ × Option ℕ)
chdir_inode none = pure (err_not_found, none)
chdir_inode (some ip) = do
  ilock (some ip)
  n ← inode_of ip
  if n.dinode.type == ft_directory
      then pure (pos 0, some ip)
      else (do iput (some ip); pure (err_not_a_directory, none))

-- The result, and `*pip` where it is set.
unfoldable pub fs_chdir : List ℕ → M (ℤ × Option ℕ)
fs_chdir path = do ip ← namei path; chdir_inode ip

unfoldable pub fs_get_inode_size : Option ℕ → M ℕ
fs_get_inode_size none = stop
fs_get_inode_size (some ip) = do ilock (some ip); n ← inode_of ip; pure n.dinode.size

-- The 24 bytes of `struct superblock`.
abbrev pub decode_superblock : Bytes → Superblock
decode_superblock buf = record {
  magic = get32 buf 0;
  size = get32 buf 4;
  nblocks = get32 buf 8;
  ninodes = get32 buf 12;
  inodestart = get32 buf 16;
  bmapstart = get32 buf 20;
}

-- PANIC unless block 1 of the disk holds the magic number.
unfoldable pub load_superblock : ℕ → M (Unit {0})
load_superblock dev = do
  buf ← read_block dev 1
  modify (λ k. record k { sb = upd k.sb dev (decode_superblock buf) })
  if get32 buf 0 == xv6_fs_magic then pure tt else stop

abbrev pub home_path : List ℕ
home_path = b'/' ∷ b'h' ∷ b'o' ∷ b'm' ∷ b'e' ∷ []

abbrev pub cleared_inode : Inode
cleared_inode = record {
  dev = 0;
  inum = 0;
  ref = 0;
  valid = Bool.false;
  dinode = record { type = 0; major = 0; minor = 0; nlink = 0; size = 0; addrs = λ _. 0 };
}

abbrev pub mount_home : ℕ → Kernel → Kernel
mount_home ip k =
    let n = k.inode_table ip in
    let m : Mount = record { parent_dev = n.dev; parent_inum = n.inum; child_dev = 1 } in
    record k { mounts = upd k.mounts 0 m; num_mounts = 1 }

unfoldable pub fs_init : M (Unit {0})
fs_init = do
  modify (λ k. record k { inode_table = λ _. cleared_inode })
  load_superblock 0
  load_superblock 1
  ip_home ← namei home_path
  elim ip_home [ none ↦ stop | some ip ↦ do modify (mount_home ip); iput (some ip) ]
