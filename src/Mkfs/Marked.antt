-- ===== src/Mkfs/Marked.antt =====
-- The parts of tools/mkfs.c keep the free map in step with the blocks handed out.
use dmaos.Base.{
  ℕ, zero, suc, ◌+◌, ◌-◌, ◌*◌, ◌/◌, ◌==◌, ltb, leb, Option, none, some, List, [], ◌∷◌, length, refl,
  drop,
}
use dmaos.Machine.{Dinode}
use dmaos.Machine.Consts.{
  dirsiz, ft_directory, ndirect, nindirect, ndindirect, bsize, sizeof_fsdirent,
}
use dmaos.Inode.{new_dinode}
use dmaos.Mkfs.{MkfsDir, Tool}
use dmaos.Mkfs.Dirs.{
  link_entry, add_entry, set_dirs, new_dir, make_dir, split_path, or_make, find_path,
  get_or_create_dir,
}
use dmaos.Mkfs.Contents.{
  FileMap, empty_map, indirect_table, place_indirect, top_table, flush_table, sub_table, next_table,
  is_active, place_dindirect, place, file_buf, add_block, add_blocks, flush_top, flush_tables,
  add_contents,
}
use dmaos.Mkfs.Image.{
  Host, no_more, host_file, host_dir, store_file, open_file, add_file, next_path, traverse_dir,
  dir_blocks, write_dir, write_dirs, write_inodes, make_root, file_inode,
}
use dmaos.Mkfs.Marks.{
  Marks, pure-Marks, bind-Marks, if-Marks, exit-Marks, get-Marks, modify-Marks, balloc-Marks,
  write_block-Marks, set_inode-Marks, take_inode-Marks,
}

link_entry-Marks : (dir inum : ℕ) (name : List ℕ) → Marks (link_entry dir inum name)
unfolding link_entry
link_entry-Marks dir inum name = bind-Marks get-Marks (λ s. go (add_entry dir inum name s.dirs))
  where
    go : (o : Option (List MkfsDir)) → Marks (set_dirs o)
    go none = exit-Marks
    go (some dirs) = modify-Marks (λ s. record s { dirs = dirs }) (λ s. refl) (λ s. refl)

new_dir-Marks : (path name : List ℕ) (parent : ℕ) → Marks (new_dir path name parent)
unfolding new_dir
new_dir-Marks path name parent = bind-Marks take_inode-Marks (λ inum.
    bind-Marks (set_inode-Marks inum (new_dinode ft_directory)) (λ _.
      bind-Marks (modify-Marks _ (λ s. refl) (λ s. refl))
        (λ _. bind-Marks (link_entry-Marks parent inum name) (λ _. pure-Marks inum))))

make_dir-Marks :
    (parent : List ℕ → Tool ℕ) (path : List ℕ)
    → ((p : List ℕ) → Marks (parent p))
    → Marks (make_dir parent path)
unfolding make_dir
make_dir-Marks parent path h =
    let (parent_path, name) = split_path path in
    if-Marks (leb dirsiz (length name)) exit-Marks
      (bind-Marks (h parent_path) (λ inum. new_dir-Marks path name inum))

or_make-Marks : (o : Option ℕ) {make : Tool ℕ} → Marks make → Marks (or_make o make)
or_make-Marks none h = h
or_make-Marks (some inum) h = pure-Marks inum

get_or_create_dir-Marks : (rounds : ℕ) (path : List ℕ) → Marks (get_or_create_dir rounds path)
unfolding get_or_create_dir
get_or_create_dir-Marks zero path = pure-Marks 1
get_or_create_dir-Marks (suc rounds) [] = pure-Marks 1
get_or_create_dir-Marks (suc rounds) (c ∷ path) = bind-Marks get-Marks (λ s.
    or_make-Marks (find_path (c ∷ path) s.dirs) (
      make_dir-Marks (λ p. get_or_create_dir rounds p) (c ∷ path) (get_or_create_dir-Marks rounds)))

flush_table-Marks : (f : FileMap) (o : Option ℕ) → Marks (flush_table f o)
unfolding flush_table
flush_table-Marks f none = pure-Marks tt
flush_table-Marks f (some d) =
    if-Marks (f.dindirect_addrs d == 0) (pure-Marks tt) (write_block-Marks _ _)

place_indirect-Marks : (db : ℕ) (f : FileMap) → Marks (place_indirect db f)
unfolding place_indirect indirect_table
place_indirect-Marks db f =
    bind-Marks
      (if-Marks (f.indirect_block == 0) (bind-Marks balloc-Marks (λ b. pure-Marks _))
        (pure-Marks f))
      (λ f. pure-Marks _)

next_table-Marks : (d_idx : ℕ) (f : FileMap) → Marks (next_table d_idx f)
unfolding next_table sub_table
next_table-Marks d_idx f = bind-Marks (flush_table-Marks f f.active_d_idx) (λ _.
    if-Marks (f.dindirect_addrs d_idx == 0) (bind-Marks balloc-Marks (λ b. pure-Marks _))
      (pure-Marks _))

place_dindirect-Marks : (dfbn db : ℕ) (f : FileMap) → Marks (place_dindirect dfbn db f)
unfolding place_dindirect top_table
place_dindirect-Marks dfbn db f =
    bind-Marks
      (if-Marks (f.addrs (ndirect + 1) == 0) (bind-Marks balloc-Marks (λ b. pure-Marks _))
        (pure-Marks f))
      (λ f.
        bind-Marks
          (if-Marks (is_active f.active_d_idx (dfbn / nindirect)) (pure-Marks f)
            (next_table-Marks (dfbn / nindirect) f))
          (λ f. pure-Marks _))

place-Marks : (db : ℕ) (f : FileMap) → Marks (place db f)
unfolding place
place-Marks db f = if-Marks (ltb f.block_index ndirect) (pure-Marks _) (
    if-Marks (ltb (f.block_index - ndirect) nindirect) (place_indirect-Marks db f) (
      if-Marks (leb ndindirect (f.block_index - ndirect - nindirect)) exit-Marks
        (place_dindirect-Marks (f.block_index - ndirect - nindirect) db f)))

add_block-Marks : (contents : List ℕ) (f : FileMap) → Marks (add_block contents f)
unfolding add_block
add_block-Marks contents f = bind-Marks balloc-Marks (λ db.
    bind-Marks (write_block-Marks db (file_buf contents))
      (λ _. bind-Marks (place-Marks db _) (λ f. pure-Marks _)))

add_blocks-Marks :
    (rounds : ℕ) (contents : List ℕ) (f : FileMap) → Marks (add_blocks rounds contents f)
unfolding add_blocks
add_blocks-Marks zero contents f = pure-Marks f
add_blocks-Marks (suc rounds) [] f = pure-Marks f
add_blocks-Marks (suc rounds) (c ∷ contents) f =
    bind-Marks (add_block-Marks (c ∷ contents) f)
      (λ f. add_blocks-Marks rounds (drop bsize (c ∷ contents)) f)

flush_tables-Marks : (f : FileMap) → Marks (flush_tables f)
unfolding flush_tables flush_top
flush_tables-Marks f =
    bind-Marks (if-Marks (f.indirect_block == 0) (pure-Marks tt) (write_block-Marks _ _)) (λ _.
      if-Marks (f.addrs (ndirect + 1) == 0) (pure-Marks tt)
        (bind-Marks (write_block-Marks _ _) (λ _. flush_table-Marks f f.active_d_idx)))

add_contents-Marks : (contents : List ℕ) → Marks (add_contents contents)
unfolding add_contents
add_contents-Marks contents =
    bind-Marks (add_blocks-Marks (length contents) contents empty_map)
      (λ f. bind-Marks (flush_tables-Marks f) (λ _. pure-Marks f))

store_file-Marks :
    (dir_part file_part contents : List ℕ) → Marks (store_file dir_part file_part contents)
unfolding store_file
store_file-Marks dir_part file_part contents = bind-Marks take_inode-Marks (λ inum.
    bind-Marks (add_contents-Marks contents) (λ f.
      bind-Marks (set_inode-Marks inum (file_inode f)) (λ _.
        bind-Marks (get_or_create_dir-Marks (length dir_part) dir_part)
          (λ dir_inum. link_entry-Marks dir_inum inum file_part))))

open_file-Marks :
    (dir_part file_part : List ℕ) (o : Option (List ℕ)) → Marks (open_file dir_part file_part o)
unfolding open_file
open_file-Marks dir_part file_part none = exit-Marks
open_file-Marks dir_part file_part (some contents) = store_file-Marks dir_part file_part contents

add_file-Marks : (contents : Option (List ℕ)) (path : List ℕ) → Marks (add_file contents path)
unfolding add_file
add_file-Marks contents path =
    if-Marks (leb dirsiz (length (split_path path).1)) exit-Marks (open_file-Marks _ _ contents)

pub traverse_dir-Marks : (host : Host) (path : List ℕ) → Marks (traverse_dir host path)
unfolding traverse_dir
traverse_dir-Marks no_more path = pure-Marks tt
traverse_dir-Marks (host_file name contents rest) path =
    bind-Marks (add_file-Marks contents (next_path path name)) (λ _. traverse_dir-Marks rest path)
traverse_dir-Marks (host_dir name inside rest) path =
    let next = next_path path name in
    bind-Marks (get_or_create_dir-Marks (length next) next)
      (λ _. bind-Marks (traverse_dir-Marks inside next) (λ _. traverse_dir-Marks rest path))

dir_blocks-Marks :
    (rounds : ℕ) (entries : List (ℕ × List ℕ)) (idx : ℕ) (d : Dinode)
    → Marks (dir_blocks rounds entries idx d)
unfolding dir_blocks
dir_blocks-Marks zero entries idx d = pure-Marks d
dir_blocks-Marks (suc rounds) entries idx d =
    bind-Marks balloc-Marks
      (λ db. bind-Marks (write_block-Marks db _) (λ _. dir_blocks-Marks rounds entries (idx + 1) _))

write_dir-Marks : (dir : MkfsDir) → Marks (write_dir dir)
unfolding write_dir
write_dir-Marks dir = bind-Marks get-Marks (λ s.
    if-Marks (ltb ndirect ((length dir.entries * sizeof_fsdirent + bsize - 1) / bsize)) exit-Marks
      (bind-Marks (dir_blocks-Marks _ dir.entries 0 _) (λ d. set_inode-Marks dir.inum d)))

pub write_dirs-Marks : (dirs : List MkfsDir) → Marks (write_dirs dirs)
unfolding write_dirs
write_dirs-Marks [] = pure-Marks tt
write_dirs-Marks (dir ∷ dirs) = bind-Marks (write_dir-Marks dir) (λ _. write_dirs-Marks dirs)

pub write_inodes-Marks : (rounds block : ℕ) → Marks (write_inodes rounds block)
unfolding write_inodes
write_inodes-Marks zero block = pure-Marks tt
write_inodes-Marks (suc rounds) block =
    bind-Marks get-Marks
      (λ s. bind-Marks (write_block-Marks block _) (λ _. write_inodes-Marks rounds (block + 1)))

pub make_root-Marks : Marks make_root
unfolding make_root
make_root-Marks =
    bind-Marks (set_inode-Marks 1 (new_dinode ft_directory))
      (λ _. modify-Marks _ (λ s. refl) (λ s. refl))
