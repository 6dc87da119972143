-- ===== src/Checks/Files.antt =====
-- The file system of kernel/fs.c and kernel/file.c, run on a small disk.
use dmaos.Base.{Bytes, ◌+◌, ◌≡◌, refl, false, some}
use dmaos.Inode.Cache.{count, one}
use dmaos.Names.{
  namex, namex_loop, namex_round, enter, start_inode, skipto, split_name, skip_slashes, component,
  after_component, walk, mount_parent, or_lookup, arrive, cross_mount, switch_root, find_mount,
  path_end, follow, climb,
}
use dmaos.Inode.{ilock, iget, iget_scan, iput, decode_dinode}
use dmaos.Block.{read_block, read_device, read_write_device}
use dmaos.Dir.{dirlookup, dir_scan, found_inode}
use dmaos.Content.{readi, readi_loop}
use dmaos.Bmap.{bmap}
use dmaos.Str.{strcmp, strncmp}
use dmaos.Names.Refs.{namex-one}
use dmaos.Machine.Post.{Post}
use dmaos.Inode.Cache.{Got, iget-Got}
use dmaos.Checks.{state_of, machine, bin_path, mounted, new_path, old_path}
use dmaos.Base.{ℤ, pos}
use dmaos.Machine.{Run, ok}
use dmaos.Names.{namei}
use dmaos.Inode.{inode_of, ialloc, ialloc_scan, encode_dinode, put_addrs, iupdate, update_inode}
use dmaos.Block.{write_block, write_device}
use dmaos.Bitmap.{balloc, take_block, first_clear}
use dmaos.Bmap.{bmap_alloc, addr_alloc, entry_alloc}
use dmaos.Content.{writei, writei_loop, itrunc, itrunc_loop, free_file_block, free_addr}
use dmaos.Dir.{dirlink, link_new, link_found, link_at, is_dir_empty}
use dmaos.Str.{strncpy}
use dmaos.FsTree.{
  fs_mkdir, mkdir_in, mkdir_entry, mkdir_new, mkdir_fill, mkdir_link, fs_rm, rm_in, rm_entry,
  rm_inode, fs_chdir, chdir_inode,
}
use dmaos.Base.{◌≢◌, arith, []}
use dmaos.Machine.{panic}
use dmaos.Inode.Cache.{iget-succeeds}
use dmaos.Names.Enough.{namex_loop-enough}
use dmaos.FsTree.Uses.{fs_mkdir-count, fs_rm-count, fs_chdir-count}

namex-one_example :
    count (state_of machine (namex bin_path false machine)) 1 ≡ count machine 1 + one (some 1) 1
unfolding namex namex_loop namex_round enter start_inode skipto split_name skip_slashes component
    after_component ilock iget iget_scan iput decode_dinode read_block read_device read_write_device
    walk mount_parent or_lookup arrive cross_mount switch_root find_mount path_end follow dirlookup
    dir_scan readi readi_loop bmap found_inode strcmp strncmp climb inode_of
namex-one_example = namex-one bin_path false machine 1 refl

iget-Got_example : Post (Got 0 1 machine) (iget 0 1 machine)
iget-Got_example = iget-Got 0 1 machine

abbrev made : Run ℤ
unfolding fs_mkdir mkdir_in mkdir_entry mkdir_new mkdir_fill mkdir_link dirlink link_new link_found
    link_at ialloc ialloc_scan encode_dinode put_addrs iupdate update_inode writei writei_loop
    bmap_alloc addr_alloc entry_alloc balloc take_block first_clear write_block write_device strncpy
    namex namex_loop namex_round enter start_inode skipto split_name skip_slashes component
    after_component ilock iget iget_scan iput decode_dinode read_block read_device read_write_device
    walk mount_parent or_lookup arrive cross_mount switch_root find_mount path_end follow dirlookup
    dir_scan readi readi_loop bmap found_inode strcmp strncmp climb inode_of
made = fs_mkdir new_path mounted

made-ok : made ≡ ok (pos 0) (state_of mounted made)
unfolding made
made-ok = refl

fs_mkdir-count_example : count (state_of mounted made) 0 ≡ count mounted 0
unfolding fs_mkdir made
fs_mkdir-count_example = fs_mkdir-count new_path mounted 0 made-ok

abbrev removed : Run ℤ
unfolding fs_rm rm_in rm_entry rm_inode is_dir_empty itrunc itrunc_loop free_file_block free_addr
    iupdate update_inode encode_dinode put_addrs writei writei_loop bmap_alloc addr_alloc
    write_block write_device namex namex_loop namex_round enter start_inode skipto split_name
    skip_slashes component after_component ilock iget iget_scan iput decode_dinode read_block
    read_device read_write_device walk mount_parent or_lookup arrive cross_mount switch_root
    find_mount path_end follow dirlookup dir_scan readi readi_loop bmap found_inode strcmp strncmp
    climb inode_of
removed = fs_rm old_path mounted

removed-ok : removed ≡ ok (pos 0) (state_of mounted removed)
unfolding removed
removed-ok = refl

fs_rm-count_example : count (state_of mounted removed) 0 ≡ count mounted 0
unfolding fs_rm removed
fs_rm-count_example = fs_rm-count old_path mounted 0 removed-ok

fs_chdir-count_example :
    count (state_of mounted (fs_chdir bin_path mounted)) 1 ≡ count mounted 1 + one (some 1) 1
unfolding fs_chdir chdir_inode namei namex namex_loop namex_round enter start_inode skipto
    split_name skip_slashes component after_component ilock iget iget_scan iput decode_dinode
    read_block read_device read_write_device walk mount_parent or_lookup arrive cross_mount
    switch_root find_mount path_end follow dirlookup dir_scan readi readi_loop bmap found_inode
    strcmp strncmp climb inode_of
fs_chdir-count_example = fs_chdir-count bin_path mounted 1 refl

iget-succeeds_example : iget 0 1 machine ≢ panic
iget-succeeds_example = iget-succeeds 0 1 machine 0 (omega arith) refl

namex_loop-enough_example : namex_loop false 4 0 bin_path [] ≡ namex_loop false 9 0 bin_path []
namex_loop-enough_example = namex_loop-enough false 4 9 0 bin_path [] (omega arith) (omega arith)

-- Blocks 0 and 2 of each eight are in use.
abbrev map_bytes : Bytes
map_bytes _ = 5
