-- ===== src/Mkfs/Image.antt =====
-- The files of the image and the image itself: add_file, traverse_dir and main of tools/mkfs.c.
use dmaos.Base.{
  ℕ, zero, suc, ◌+◌, ◌-◌, ◌*◌, ◌/◌, ◌==◌, ltb, leb, ◌&&◌, if◌then◌else◌, Option, none, some, List,
  [], ◌∷◌, ◌++◌, length, take, Bytes, put32,
}
use dmaos.Machine.{Dinode}
use dmaos.Machine.Consts.{
  bsize, ndirect, xv6_fs_magic, dirsiz, ft_directory, ft_file, max_path, sizeof_fsdirent,
  sizeof_dinode,
}
use dmaos.Names.{slash}
use dmaos.Dir.{dirent}
use dmaos.Inode.{new_dinode, encode_dinode, inodes_per_block}
use dmaos.Mkfs.{MkfsDir, Mkfs, Tool, pure, exit, ◌>>=◌, ◌>>◌, get_state, modify}
use dmaos.Mkfs.Store.{
  balloc, write_block, take_inode, set_inode, mark_allocated, max_dir_entries, disk_size_blocks,
}
use dmaos.Mkfs.Dirs.{get_or_create_dir, link_entry, split_path, dot_name, dotdot_name}
use dmaos.Mkfs.Contents.{FileMap, add_contents}

-- What the host has under a name; a file that cannot be opened has no contents. The rest of its directory
-- follows.
pub data Host : Type 0 where
  no_more : Host
  host_file : (name : List ℕ) (contents : Option (List ℕ)) (rest : Host) → Host
  host_dir : (name : List ℕ) (inside rest : Host) → Host

-- The inode of a file.
abbrev pub file_inode : FileMap → Dinode
file_inode f = record (new_dinode ft_file) { size = f.size; addrs = f.addrs }

unfoldable pub store_file : List ℕ → List ℕ → List ℕ → Tool (Unit {0})
store_file dir_part file_part contents = do
  inum ← take_inode
  f ← add_contents contents
  set_inode inum (file_inode f)
  dir_inum ← get_or_create_dir (length dir_part) dir_part
  link_entry dir_inum inum file_part

unfoldable pub open_file : List ℕ → List ℕ → Option (List ℕ) → Tool (Unit {0})
open_file dir_part file_part none = exit
open_file dir_part file_part (some contents) = store_file dir_part file_part contents

unfoldable pub add_file : Option (List ℕ) → List ℕ → Tool (Unit {0})
add_file contents fs_path =
    let (dir_part, file_part) = split_path fs_path in
    if leb dirsiz (length file_part) then exit else open_file dir_part file_part contents

-- `next_fs`, of at most 255 bytes.
unfoldable pub next_path : List ℕ → List ℕ → List ℕ
next_path [] name = take (max_path - 1) name
next_path (c ∷ path) name = take (max_path - 1) ((c ∷ path) ++ (slash ∷ name))

unfoldable pub traverse_dir : Host → List ℕ → Tool (Unit {0})
traverse_dir no_more fs_path = pure tt
traverse_dir (host_file name contents rest) fs_path = do
  add_file contents (next_path fs_path name)
  traverse_dir rest fs_path
traverse_dir (host_dir name inside rest) fs_path = do
  let path = next_path fs_path name
  get_or_create_dir (length path) path
  traverse_dir inside path
  traverse_dir rest fs_path

-- The bytes of `entries`.
unfoldable pub entries_bytes : List (ℕ × List ℕ) → Bytes
entries_bytes [] o = 0
entries_bytes ((inum, name) ∷ entries) o =
    let rest = entries_bytes entries (o - sizeof_fsdirent) in
    if ltb o sizeof_fsdirent then dirent inum name o else rest

-- The blocks of a directory from `block_idx` on.
unfoldable pub dir_blocks : ℕ → List (ℕ × List ℕ) → ℕ → Dinode → Tool Dinode
dir_blocks zero entries block_idx d = pure d
dir_blocks (suc rounds) entries block_idx d = do
  db ← balloc
  let size = length entries * sizeof_fsdirent
  write_block db (λ o.
      if ltb o bsize && ltb (block_idx * bsize + o) size
      then entries_bytes entries (block_idx * bsize + o)
      else 0)
  dir_blocks rounds entries (block_idx + 1)
      (record d { addrs = λ i. if i == block_idx then db else d.addrs i })

unfoldable pub write_dir : MkfsDir → Tool (Unit {0})
write_dir dir = do
  s ← get_state
  let size = length dir.entries * sizeof_fsdirent
  let blocks = (size + bsize - 1) / bsize
  let write = (do
    d ← dir_blocks blocks dir.entries 0 (record (s.file_inodes dir.inum) { size = size })
    set_inode dir.inum d)
  if ltb ndirect blocks then exit else write

unfoldable pub write_dirs : List MkfsDir → Tool (Unit {0})
write_dirs [] = pure tt
write_dirs (dir ∷ dirs) = do write_dir dir; write_dirs dirs

-- The inodes of a block from the `idx`th on, over the bytes `buf`.
unfoldable pub block_inodes : ℕ → (ℕ → Dinode) → ℕ → ℕ → Bytes → Bytes
block_inodes zero inodes start_inum idx buf = buf
block_inodes (suc rounds) inodes start_inum idx buf =
    let inum = start_inum + idx in
    let next =
      if leb 1 inum && ltb inum max_dir_entries
      then encode_dinode buf (idx * sizeof_dinode) (inodes inum)
      else buf in
    block_inodes rounds inodes start_inum (idx + 1) next

-- Inode blocks from `block` on.
unfoldable pub write_inodes : ℕ → ℕ → Tool (Unit {0})
write_inodes zero block = pure tt
write_inodes (suc rounds) block = do
  s ← get_state
  write_block block
      (block_inodes inodes_per_block s.file_inodes ((block - 2) * inodes_per_block) 0 (λ _. 0))
  write_inodes rounds (block + 1)

unfoldable pub write_bitmap : Tool (Unit {0})
write_bitmap = do s ← get_state; write_block 6 s.free_bitmap

-- The metadata blocks.
unfoldable pub mark_metadata : ℕ → ℕ → Tool (Unit {0})
mark_metadata zero i = pure tt
mark_metadata (suc rounds) i = do mark_allocated i; mark_metadata rounds (i + 1)

abbrev pub sb_inodestart : ℕ
sb_inodestart = 2

abbrev pub sb_bmapstart : ℕ
sb_bmapstart = 6

-- The superblock.
unfoldable pub sb_buf : Bytes
sb_buf =
    put32
      (put32
        (put32
          (put32 (put32 (put32 (λ _. 0) 0 xv6_fs_magic) 4 disk_size_blocks) 8
            (disk_size_blocks - 7))
          12 max_dir_entries)
        16 sb_inodestart)
      20 sb_bmapstart

unfoldable pub no_dinode : Dinode
no_dinode = record { type = 0; major = 0; minor = 0; nlink = 0; size = 0; addrs = λ _. 0 }

-- The static data at the start of the program.
unfoldable pub zeroed : Mkfs
zeroed = record {
  disk = λ _ _. 0;
  free_bitmap = λ _. 0;
  freeblock = 7;
  freeinode = 2;
  file_inodes = λ _. no_dinode;
  dirs = [];
}

unfoldable pub make_root : Tool (Unit {0})
make_root = do
  set_inode 1 (new_dinode ft_directory)
  modify (λ s. record s {
    dirs = record { inum = 1; path = []; entries = (1, dot_name) ∷ (1, dotdot_name) ∷ [] } ∷ [];
  })

unfoldable pub write_all : Tool (Unit {0})
write_all = do s ← get_state; write_dirs s.dirs; write_inodes 4 2; write_bitmap

-- `main` with a staging directory; without one it is empty.
unfoldable pub make_image : Host → Tool (Unit {0})
make_image host = do
  mark_metadata 7 0
  write_block 1 sb_buf
  make_root
  traverse_dir host []
  write_all
